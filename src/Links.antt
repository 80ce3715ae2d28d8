-- ===== src/Links.antt =====
-- include/lib.h: the intrusive, circular, doubly linked `struct List`. A node is its address, and
-- the memory that the list functions touch is the two fields of every node.
pub mod Ring
pub mod Splice
pub mod Place
pub mod Sorted
use mine_os.Prelude.{ℕ, Bool, ◌==◌, ◌&&◌, if◌then◌else◌}

pub record Links : Type 0 where
  pub prev : ℕ → ℕ
  pub next : ℕ → ℕ

-- A write of one field of one node.
abbrev pub update {ℓ} : {A : Type ℓ} → (ℕ → A) → ℕ → A → ℕ → A
update f p v q = if p == q then v else f q

abbrev pub set_prev : Links → ℕ → ℕ → Links
set_prev h p v = record h { prev = update h.prev p v }

abbrev pub set_next : Links → ℕ → ℕ → Links
set_next h p v = record h { next = update h.next p v }

unfoldable pub list_init : Links → ℕ → Links
list_init h list = set_next (set_prev h list list) list list

unfoldable pub list_add_to_behind : Links → ℕ → ℕ → Links
list_add_to_behind h entry new =
    let h₁ = set_next h new (h.next entry) in
    let h₂ = set_prev h₁ new entry in
    let h₃ = set_prev h₂ (h₂.next new) new in set_next h₃ entry new

unfoldable pub list_add_to_before : Links → ℕ → ℕ → Links
list_add_to_before h entry new =
    let h₁ = set_next h new entry in
    let h₂ = set_next h₁ (h₁.prev entry) new in
    let h₃ = set_prev h₂ new (h₂.prev entry) in set_prev h₃ entry new

unfoldable pub list_del : Links → ℕ → Links
list_del h entry =
    let h₁ = set_prev h (h.next entry) (h.prev entry) in set_next h₁ (h₁.prev entry) (h₁.next entry)

unfoldable pub list_is_empty : Links → ℕ → Bool
list_is_empty h entry = entry == h.next entry && h.prev entry == entry

-- NULL is 0.
unfoldable pub list_prev : Links → ℕ → ℕ
list_prev h entry = if h.prev entry == 0 then 0 else h.prev entry

unfoldable pub list_next : Links → ℕ → ℕ
list_next h entry = if h.next entry == 0 then 0 else h.next entry
