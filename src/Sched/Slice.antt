-- ===== src/Sched/Slice.antt =====
-- The time slice of kernel/schedule.c and the tick of drivers/timer.c: how it is used up.
use mine_os.Prelude.{
  ℕ, zero, suc, ◌+◌, ◌*◌, ◌/◌, if◌then◌else◌, ◌≡◌, refl, arith, false, ap, ◌∙◌, ◌⊎◌, inl, inr,
}
use mine_os.Prelude.Int.{pos, negsuc}
use mine_os.Sched.{Sched, refill, account_tick, is_fast}

-- n ticks while one task runs.
abbrev pub ticks : ℕ → Sched → Sched
ticks zero s = s
ticks (suc n) s = ticks n (account_tick s)

-- A running task of priority 2 or more.
abbrev pub IsSlow : Sched → Type 0
IsSlow s = is_fast (s.task s.current).priority ≡ false

account_tick-IsSlow : (s : Sched) → IsSlow s → IsSlow (account_tick s)
unfolding account_tick
account_tick-IsSlow s h = ground (arith)

slow_tick :
    (s : Sched) (n : ℕ)
    → IsSlow s
    → s.exec_task_jiffies ≡ pos (suc (suc n))
    → (account_tick s).exec_task_jiffies ≡ pos n
unfolding account_tick
slow_tick s n h e = ground arith

slow_tick_one :
    (s : Sched)
    → IsSlow s
    → s.exec_task_jiffies ≡ pos 1
    → (account_tick s).exec_task_jiffies ≡ negsuc 0
unfolding account_tick
slow_tick_one s h e = ground arith

slow_tick_negative :
    (s : Sched) (n : ℕ)
    → IsSlow s
    → s.exec_task_jiffies ≡ negsuc n
    → (account_tick s).exec_task_jiffies ≡ negsuc (n + 2)
unfolding account_tick
slow_tick_negative s n h e = ground arith

abbrev IsNegative : Sched → Type 0
IsNegative s = (n : ℕ) × (s.exec_task_jiffies ≡ negsuc n)

IsNegative-stays : (m : ℕ) (s : Sched) → IsSlow s → IsNegative s → IsNegative (ticks m s)
IsNegative-stays zero s h n = n
IsNegative-stays (suc m) s h (n, e) =
    IsNegative-stays m (account_tick s) (account_tick-IsSlow s h)
      (n + 2, slow_tick_negative s n h e)

odd_runs_out :
    (k j m : ℕ) (s : Sched)
    → IsSlow s
    → j ≡ k + k
    → s.exec_task_jiffies ≡ pos (suc j)
    → IsNegative (ticks m (ticks (suc k) s))
odd_runs_out zero j m s h p e =
    IsNegative-stays m (account_tick s) (account_tick-IsSlow s h)
      (0, slow_tick_one s h (e ∙ ap (λ t. pos (suc t)) (p ∙ (omega arith))))
odd_runs_out (suc k) zero m s h p e = absurd (omega arith)
odd_runs_out (suc k) (suc zero) m s h p e = absurd (omega arith)
odd_runs_out (suc k) (suc (suc j)) m s h p e =
    odd_runs_out k j m (account_tick s) (account_tick-IsSlow s h) (omega arith)
      (slow_tick s (suc j) h e)

-- n ticks while one task runs, each with the call of `refill` that `schedule` makes after it, for
-- the task ts n.
abbrev pub asked : (ℕ → ℕ) → ℕ → Sched → Sched
asked ts zero s = s
asked ts (suc n) s = asked ts n (refill (account_tick s) (ts n))

abbrev IsUneven : Sched → Type 0
IsUneven s = ((k : ℕ) × (s.exec_task_jiffies ≡ pos (suc (k + k)))) ⊎ IsNegative s

account_tick-IsUneven : (s : Sched) → IsSlow s → IsUneven s → IsUneven (account_tick s)
account_tick-IsUneven s h (inl (zero, e)) =
    inr (0, slow_tick_one s h (e ∙ ap (λ t. pos (suc t)) {x = 0 + 0} {y = 0} (omega arith)))
account_tick-IsUneven s h (inl (suc k, e)) = inl (
  k,
  slow_tick s (suc (k + k)) h
      (e ∙ ap (λ t. pos (suc t)) {x = suc k + suc k} {y = suc (suc (k + k))} (omega arith)),
)
account_tick-IsUneven s h (inr (n, e)) = inr (n + 2, slow_tick_negative s n h e)

refill-IsUneven : (s : Sched) (t : ℕ) → IsUneven s → refill s t ≡ s
unfolding refill
refill-IsUneven s t (inl (k, e)) = rw e (ground arith)
refill-IsUneven s t (inr (n, e)) = rw e

asked-IsUneven : (ts : ℕ → ℕ) (n : ℕ) (s : Sched) → IsSlow s → IsUneven s → asked ts n s ≡ ticks n s
asked-IsUneven ts zero s h u = refl
asked-IsUneven ts (suc n) s h u =
    let v = account_tick-IsUneven s h u in
    ap (asked ts n) (refill-IsUneven (account_tick s) (ts n) v)
    ∙ asked-IsUneven ts n (account_tick s) (account_tick-IsSlow s h) v

-- A slice of an odd number of jiffies, such as the 3 that `refill` gives when 3 or 4 tasks are
-- runnable, is not given anew while one task of priority 2 or more goes on running: the calls of
-- `refill` that follow its ticks, one after each, change nothing, however many they are and whatever
-- task they are for; k + 1 ticks after the slice began with 2 k + 1 jiffies, and after any more of
-- them, what is left is negative.
pub odd_slice_not_refilled :
    (k m n : ℕ) (s : Sched) (ts : ℕ → ℕ)
    → IsSlow s
    → s.exec_task_jiffies ≡ pos (suc (k + k))
    → (asked ts n s ≡ ticks n s)
      × ((left : ℕ) × ((ticks m (ticks (suc k) s)).exec_task_jiffies ≡ negsuc left))
odd_slice_not_refilled k m n s ts h e =
    (asked-IsUneven ts n s h (inl (k, e)), odd_runs_out k (k + k) m s h refl e)

-- With an even number of jiffies, 2 k, the slice is used up after exactly k ticks, and `refill`
-- gives a new one that depends on the number of runnable tasks.
even_slice_refilled :
    (k j : ℕ) (s : Sched) (t : ℕ)
    → IsSlow s
    → j ≡ k + k
    → s.exec_task_jiffies ≡ pos j
    → ((ticks k s).exec_task_jiffies ≡ pos 0)
      × ((refill (ticks k s) t).exec_task_jiffies
          ≡ pos (
              if is_fast ((ticks k s).task t).priority
              then 4 / (ticks k s).running_task_count
              else 4 / (ticks k s).running_task_count * 3))
unfolding refill
even_slice_refilled zero j s t h p e =
    let z : s.exec_task_jiffies ≡ pos 0 = e ∙ ap pos (p ∙ (omega arith)) in (z, rw z)
even_slice_refilled (suc k) zero s t h p e = absurd (omega arith)
even_slice_refilled (suc k) (suc zero) s t h p e = absurd (omega arith)
even_slice_refilled (suc k) (suc (suc j)) s t h p e =
    even_slice_refilled k j (account_tick s) t (account_tick-IsSlow s h) (omega arith)
      (slow_tick s j h e)
