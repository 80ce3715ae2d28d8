-- ===== src/Links/Place.antt =====
-- Insertion at, and removal of, any node of a ring; and the walk that finds the place of a key.
use mathlib.Core.List.{append_assoc, append-nil}
use mine_os.Prelude.{
  ℕ, zero, suc, ◌≤◌, ◌<◌, ◌≡◌, refl, List, [], ◌∷◌, ◌++◌, ◌∙◌, arith, subst, Option, none, some,
  ltb, if◌then◌else◌, Bool-cases, inl, inr, length, le→ltb_false, sym, ap,
}
use mine_os.Links.{
  Links, list_add_to_behind, list_add_to_before, list_del, list_next, list_is_empty,
}
use mine_os.Links.Ring.{Linked, NotIn, NotIn-append, NotIn-left, NotIn-right, IsRing, IsRing-rotate}
use mine_os.Links.Splice.{
  list_add_to_before-IsRing, list_add_to_behind-IsRing, list_del-IsRing, list_is_empty-nil,
  list_is_empty-cons,
}

-- The first of xs, or b if there is none.
abbrev pub first : List ℕ → ℕ → ℕ
first [] b = b
first (x ∷ xs) b = x

-- A fresh node put before the first node of bs stands between ws and bs.
pub insert_before :
    {h : Links} {head : ℕ} (ws bs : List ℕ) (new : ℕ)
    → IsRing h head (ws ++ bs)
    → NotIn new (head ∷ ws ++ bs)
    → IsRing (list_add_to_before h (first bs head) new) head (ws ++ new ∷ bs)
insert_before {h} {head} ws [] new r f =
    list_add_to_before-IsRing new (subst (IsRing h head) (append-nil ws) r)
      (f.0, NotIn-left new ws [] f.1)
insert_before {h} {head} ws (b ∷ bs) new r f =
    subst (IsRing (list_add_to_before h b new) head) (append_assoc ws (new ∷ []) (b ∷ bs)) (
      IsRing-rotate bs head (ws ++ new ∷ []) (
        subst (IsRing (list_add_to_before h b new) b) (append_assoc bs (head ∷ ws) (new ∷ [])) (
          list_add_to_before-IsRing new (IsRing-rotate ws b bs r) (
            rest.0,
            NotIn-append new bs (head ∷ ws) rest.1 (f.0, NotIn-left new ws (b ∷ bs) f.1),
          ))))
  where
    rest : NotIn new (b ∷ bs)
    rest = NotIn-right new ws (b ∷ bs) f.1

-- A fresh node put behind the head stands first.
pub insert_behind_head :
    {h : Links} {head : ℕ} {xs : List ℕ} (new : ℕ)
    → IsRing h head xs
    → NotIn new (head ∷ xs)
    → IsRing (list_add_to_behind h head new) head (new ∷ xs)
insert_behind_head new r f = list_add_to_behind-IsRing new r f

-- A fresh node put behind the node b.
pub insert_behind :
    {h : Links} {head : ℕ} (ws : List ℕ) (b : ℕ) (bs : List ℕ) (new : ℕ)
    → IsRing h head (ws ++ b ∷ bs)
    → NotIn new (head ∷ ws ++ b ∷ bs)
    → IsRing (list_add_to_behind h b new) head (ws ++ b ∷ new ∷ bs)
insert_behind {h} {head} ws b bs new r f = IsRing-rotate (new ∷ bs) head ws (
    list_add_to_behind-IsRing new (IsRing-rotate ws b bs r)
      (rest.0, NotIn-append new bs (head ∷ ws) rest.1 (f.0, NotIn-left new ws (b ∷ bs) f.1)))
  where
    rest : NotIn new (b ∷ bs)
    rest = NotIn-right new ws (b ∷ bs) f.1

-- Removal of the node x.
pub remove :
    {h : Links} {head : ℕ} (ws : List ℕ) (x : ℕ) (bs : List ℕ)
    → IsRing h head (ws ++ x ∷ bs)
    → IsRing (list_del h x) head (ws ++ bs)
remove {h} {head} ws x [] r =
    subst (IsRing (list_del h x) head) (sym (append-nil ws))
      (list_del-IsRing (IsRing-rotate ws x [] r))
remove ws x (b ∷ bs) r = IsRing-rotate bs _ ws (list_del-IsRing (IsRing-rotate ws x (b ∷ bs) r))

-- `list_next` is the field: the null pointer is returned as itself.
pub list_next_lem : (h : Links) (e : ℕ) → list_next h e ≡ h.next e
unfolding list_next
list_next_lem h e = ground arith

pub next-first :
    (h : Links) (a : ℕ) (xs : List ℕ) (b : ℕ) → Linked h a xs b → list_next h a ≡ first xs b
next-first h a [] b l = list_next_lem h a ∙ l.0
next-first h a (x ∷ xs) b l = list_next_lem h a ∙ l.0

module _ (key : ℕ → ℕ) (k : ℕ) where
  -- `while (key(tmp) < k) tmp = list_next(tmp);` with fuel; `none` means that the fuel ran out.
  unfoldable pub walk : ℕ → Links → ℕ → Option ℕ
  walk zero h tmp = none
  walk (suc fuel) h tmp =
      let rest = walk fuel h (list_next h tmp) in if ltb (key tmp) k then rest else some tmp

  -- The nodes before the place of k, and those from it on.
  abbrev pub before : List ℕ → List ℕ
  before [] = []
  before (x ∷ xs) = if ltb (key x) k then x ∷ before xs else []

  abbrev pub after : List ℕ → List ℕ
  after [] = []
  after (x ∷ xs) = if ltb (key x) k then after xs else x ∷ xs

  pub before-append-after : (xs : List ℕ) → before xs ++ after xs ≡ xs
  before-append-after [] = refl
  before-append-after (x ∷ xs) = elim (Bool-cases (ltb (key x) k)) [
    | inl e ↦ rw e (ap (◌∷◌ x) (before-append-after xs))
    | inr e ↦ rw e
  ]

  -- The walk stops, at the first node from the place of k on, or at a head whose key is not below k.
  pub walk-first :
      (h : Links) (a : ℕ) (xs : List ℕ) (head fuel : ℕ)
      → Linked h a xs head
      → k ≤ key head
      → length xs < fuel
      → walk fuel h (first xs head) ≡ some (first (after xs) head)
  unfolding walk
  walk-first h a [] head zero l s f = absurd (omega arith)
  walk-first h a [] head (suc fuel) l s f = rw (le→ltb_false (key head) k s)
  walk-first h a (x ∷ xs) head zero l s f = absurd (omega arith)
  walk-first h a (x ∷ xs) head (suc fuel) l s f = elim (Bool-cases (ltb (key x) k)) [
    | inl e ↦ rw (e, next-first h x xs head l.2) (walk-first h x xs head fuel l.2 s (omega arith))
    | inr e ↦ rw e
  ]

  -- The place that is searched from the head of a ring: the head itself if the ring is empty.
  pub place_lem :
      {h : Links} {head : ℕ} {xs : List ℕ} (fuel : ℕ)
      → IsRing h head xs
      → k ≤ key head
      → length xs < fuel
      → (if list_is_empty h head then some (list_next h head) else walk fuel h (list_next h head))
        ≡ some (first (after xs) head)
  place_lem {h} {head} {xs = []} fuel r s f =
      rw (list_is_empty-nil r) (ap some (next-first h head [] head r.linked))
  place_lem {h} {head} {xs = x ∷ xs} fuel r s f =
      rw (list_is_empty-cons r, next-first h head (x ∷ xs) head r.linked)
        (walk-first h head (x ∷ xs) head fuel r.linked s f)
