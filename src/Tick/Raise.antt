-- ===== src/Tick/Raise.antt =====
-- drivers/timer.c: when the tick raises the soft interrupt of the timers.
use mine_os.Prelude.{
  ℕ, ◌+◌, ◌%◌, ◌^◌, ◌<◌, ◌≤◌, ◌≡◌, refl, ◌∙◌, sym, ap, Bool, true, false, ◌||◌, List, [], ◌∷◌, All,
  leb, arith, if◌then◌else◌, Bool-cases, inl, inr,
}
use mine_os.Bits.{test_bit, test_bit-or}
use mine_os.Links.{list_next}
use mine_os.Links.Splice.{list_next-cons, list_next-nil}
use mine_os.Links.Sorted.{IsSorted}
use mine_os.Softirq.{Softirq, set_softirq_status}
use mine_os.Timer.{Timers, never}
use mine_os.Timer.Place.{IsPending}
use mine_os.Tick.{Tick, tick_irq_hander, timer_sirq}

-- One of the timers xs is due at `now`.
abbrev pub any_due : (ℕ → ℕ) → ℕ → List ℕ → Bool
any_due key now [] = false
any_due key now (x ∷ xs) = leb (key x) now || any_due key now xs

none_later :
    (key : ℕ → ℕ) (now b : ℕ) (xs : List ℕ)
    → now < b
    → All (λ y. b ≤ key y) xs
    → any_due key now xs ≡ false
none_later key now b [] h p = refl
none_later key now b (x ∷ xs) h p =
    let late : leb (key x) now ≡ false = ground (arith, p.0) in
    rw late (none_later key now b xs h p.1)

first_decides :
    (key : ℕ → ℕ) (now x : ℕ) (xs : List ℕ)
    → IsSorted key (x ∷ xs)
    → any_due key now (x ∷ xs) ≡ leb (key x) now
first_decides key now x xs s = elim (Bool-cases (leb (key x) now)) [
  | inl e ↦ rw e
  | inr e ↦ rw e (none_later key now (key x) xs (ground arith) s.0)
]

module _ {W : Type 0} (head : ℕ) where
  first_due :
      (t : Timers W) (xs : List ℕ)
      → IsPending head t xs
      → IsSorted t.expire_jiffies xs
      → t.jiffies < never
      → leb (t.expire_jiffies (list_next t.links head)) t.jiffies
        ≡ any_due t.expire_jiffies t.jiffies xs
  first_due t [] v s h =
      ap (λ p. leb (t.expire_jiffies p) t.jiffies) (list_next-nil v.ring)
      ∙ (ground (arith, v.sentinel))
  first_due t (x ∷ xs) v s h =
      ap (λ p. leb (t.expire_jiffies p) t.jiffies) (list_next-cons v.ring)
      ∙ sym (first_decides t.expire_jiffies t.jiffies x xs s)

  raise_bit :
      (q : Softirq W) (b : Bool)
      → test_bit (if b then set_softirq_status q timer_sirq else q).status 0
        ≡ (test_bit q.status 0 || b)
  unfolding set_softirq_status
  raise_bit q true = test_bit-or 0 q.status 1
  raise_bit q false = ground arith

  -- Where the pending timers are in order of time, the tick raises the soft interrupt of the timers
  -- exactly when one of them is due at the new time, and counts the time up by one.
  tick_irq_hander_lem :
      (k : Tick W) (xs : List ℕ)
      → IsPending head k.timers xs
      → IsSorted k.timers.expire_jiffies xs
      → k.timers.jiffies + 1 < never
      → let k' = tick_irq_hander head k in
        (k'.timers.jiffies ≡ k.timers.jiffies + 1)
        × IsPending head k'.timers xs
        × (test_bit k'.softirq.status 0 ≡ (
            test_bit k.softirq.status 0
            || any_due k.timers.expire_jiffies (k.timers.jiffies + 1) xs))
  unfolding tick_irq_hander
  tick_irq_hander_lem k xs v s h =
      let wrap : (k.timers.jiffies + 1) % 2 ^ 64 ≡ k.timers.jiffies + 1 = omega arith in
      let t = record (k.timers) { jiffies = (k.timers.jiffies + 1) % 2 ^ 64 } in
      let due = first_due t xs (record { ring = v.ring; sentinel = v.sentinel }) s (omega arith) in
      (
        wrap,
        record { ring = v.ring; sentinel = v.sentinel },
        raise_bit k.softirq (leb (t.expire_jiffies (list_next t.links head)) t.jiffies)
            ∙ ap (λ b. test_bit k.softirq.status 0 || b)
                (due ∙ ap (λ now. any_due k.timers.expire_jiffies now xs) wrap),
      )
