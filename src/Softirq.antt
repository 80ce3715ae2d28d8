-- ===== src/Softirq.antt =====
-- kernel/softirq.c: 32 soft interrupts, a word of pending bits, and the loop that serves them.
-- The macros sti() and cli() are empty.
pub mod Serve
use mine_os.Prelude.{
  ℕ, zero, suc, ◌+◌, ◌^◌, ◌==◌, Option, none, some, if◌then◌else◌, bit_and, bit_or,
}
use mine_os.Links.{update}
use mine_os.Bits.Clear.{all_but}

abbrev pub bits_per_long : ℕ
bits_per_long = 32

-- softirq_status, with the world that the actions change. An action may also raise bits.
pub record Softirq (W : Type 0) : Type 0 where
  pub status : ℕ
  pub world : W

-- softirq_vector: each action with its data; `none` is a null pointer.
abbrev pub Vector : Type 0 → Type 0
Vector W = ℕ → Option (Softirq W → Softirq W)

module _ {W : Type 0} where
  unfoldable pub set_softirq_status : Softirq W → ℕ → Softirq W
  set_softirq_status s status = record s { status = bit_or s.status status }

  unfoldable pub get_softirq_status : Softirq W → ℕ
  get_softirq_status s = s.status

  unfoldable pub register_softirq : Vector W → ℕ → (Softirq W → Softirq W) → Vector W
  register_softirq v nr action = update v nr (some action)

  unfoldable pub unregister_softirq : Vector W → ℕ → Vector W
  unregister_softirq v nr = update v nr none

  -- One round of the loop; `none` is the call of a null pointer.
  unfoldable pub serve : Vector W → ℕ → Softirq W → Option (Softirq W)
  serve v i s = if bit_and s.status (2 ^ i) == 0 then some s else elim (v i) [
    | none ↦ none
    | some action ↦ let s' = action s in some (record s' { status = bit_and s'.status (all_but i) })
  ]

  -- The rounds i, i + 1, … of which n are left.
  unfoldable pub rounds : Vector W → ℕ → ℕ → Softirq W → Option (Softirq W)
  rounds v zero i s = some s
  rounds v (suc n) i s =
      let next : Option (Softirq W) = elim (serve v i s) [
        | none ↦ none
        | some s' ↦ rounds v n (i + 1) s'
      ] in
      if s.status == 0 then some s else next

  unfoldable pub do_softirq : Vector W → Softirq W → Option (Softirq W)
  do_softirq v s = rounds v bits_per_long 0 s

  unfoldable pub softirq_init : Softirq W → Vector W × Softirq W
  softirq_init s = ((λ _. none), record s { status = 0 })
