-- ===== src/Timer/Fire.antt =====
-- kernel/timer.c: which timers `do_timer` runs.
use mine_os.Prelude.{
  ℕ, zero, suc, ◌≤◌, ◌<◌, ◌≡◌, refl, List, [], ◌∷◌, ◌++◌, some, arith, length, All, false, leb,
  if◌then◌else◌, Bool-cases, inl, inr, ap, subst,
}
use mine_os.Links.Ring.{NotIn}
use mine_os.Links.Splice.{list_is_empty-nil, list_is_empty-cons, list_next-cons}
use mine_os.Links.Place.{remove}
use mine_os.Links.Sorted.{IsSorted, All-le_trans}
use mine_os.Timer.{Timers, fire, do_timer, never, add_timer}
use mine_os.Timer.Place.{IsPending, placed_latest, add_timer_lem}

-- The timers at the front that are due, and those from the first that is not.
module _ (key : ℕ → ℕ) (now : ℕ) where
  abbrev pub due : List ℕ → List ℕ
  due [] = []
  due (x ∷ xs) = if leb (key x) now then x ∷ due xs else []

  abbrev pub left : List ℕ → List ℕ
  left [] = []
  left (x ∷ xs) = if leb (key x) now then left xs else x ∷ xs

due-append-left : (key : ℕ → ℕ) (now : ℕ) (xs : List ℕ) → due key now xs ++ left key now xs ≡ xs
due-append-left key now [] = refl
due-append-left key now (x ∷ xs) = elim (Bool-cases (leb (key x) now)) [
  | inl b ↦ rw b (ap (◌∷◌ x) (due-append-left key now xs))
  | inr b ↦ rw b
]

All-not_due :
    (key : ℕ → ℕ) (now : ℕ) (xs : List ℕ)
    → IsSorted key xs
    → All (λ y. now < key y) (left key now xs)
All-not_due key now [] s = tt
All-not_due key now (x ∷ xs) s = elim (Bool-cases (leb (key x) now)) [
  | inl b ↦ rw b (All-not_due key now xs s.1)
  | inr b ↦
      let late : now < key x = ground arith in
      rw b (late, All-le_trans key (suc now) (key x) xs late s.0)
]

module _ {W : Type 0} where
  -- The functions of the timers xs, run in this order.
  abbrev pub run_all : (ℕ → W → W) → List ℕ → W → W
  run_all func [] w = w
  run_all func (x ∷ xs) w = run_all func xs (func x w)

  -- `do_timer` ends, runs the timers at the front of the list that are due, each once and in
  -- order, takes them off the list, and leaves the rest.
  do_timer_lem :
      (head : ℕ) (xs : List ℕ) (t : Timers W) (fuel : ℕ)
      → IsPending head t xs
      → length xs < fuel
      → (t' : Timers W) × (do_timer head fuel t ≡ some t')
        × IsPending head t' (left t.expire_jiffies t.jiffies xs)
        × (t'.world ≡ run_all t.func (due t.expire_jiffies t.jiffies xs) t.world)
        × (t'.jiffies ≡ t.jiffies)
  unfolding do_timer fire
  do_timer_lem head [] t zero v e = absurd (omega arith)
  do_timer_lem head [] t (suc fuel) v e = (t, rw (list_is_empty-nil v.ring), v, refl, refl)
  do_timer_lem head (x ∷ xs) t zero v e = absurd (omega arith)
  do_timer_lem head (x ∷ xs) t (suc fuel) v e =
      elim (Bool-cases (leb (t.expire_jiffies x) t.jiffies)) [
        | inl b ↦
            let (t', done, pending, ran, j) =
              do_timer_lem head xs (fire t x) fuel
                (record { ring = remove [] x xs v.ring; sentinel = v.sentinel }) (omega arith) in
            (
              t',
              rw (list_is_empty-cons v.ring, list_next-cons v.ring, b) done,
              rw b pending,
              rw b ran,
              j,
            )
        | inr b ↦
            (t, rw (list_is_empty-cons v.ring, list_next-cons v.ring, b), rw b v, rw b refl, refl)
      ]

  -- Where the pending timers are in order of time, no due timer is left after `do_timer`.
  pub do_timer_sorted :
      (head : ℕ) (xs : List ℕ) (t : Timers W) (fuel : ℕ)
      → IsPending head t xs
      → IsSorted t.expire_jiffies xs
      → length xs < fuel
      → (t' : Timers W) × (ys : List ℕ) × (do_timer head fuel t ≡ some t')
        × IsPending head t' ys
        × All (λ y. t.jiffies < t.expire_jiffies y) ys
        × (due t.expire_jiffies t.jiffies xs ++ ys ≡ xs)
  do_timer_sorted head xs t fuel v s e =
      let (t', done, pending, ran, j) = do_timer_lem head xs t fuel v e in
      (
        t',
        left t.expire_jiffies t.jiffies xs,
        done,
        pending,
        All-not_due t.expire_jiffies t.jiffies xs s,
        due-append-left t.expire_jiffies t.jiffies xs,
      )

  do_timer_idle :
      (head x : ℕ) (xs : List ℕ) (t : Timers W) (fuel : ℕ)
      → IsPending head t (x ∷ xs)
      → t.jiffies < t.expire_jiffies x
      → do_timer head (suc fuel) t ≡ some t
  unfolding do_timer
  do_timer_idle head x xs t fuel v h =
      let b : leb (t.expire_jiffies x) t.jiffies ≡ false = ground arith in
      rw (list_is_empty-cons v.ring, list_next-cons v.ring, b)

  -- A timer added with a later time than all that are pending holds all of them back: until its
  -- own time `do_timer` runs nothing, whatever else is due.
  pub add_timer_holds_back :
      {head : ℕ} {t : Timers W} {xs : List ℕ} (fuel timer : ℕ)
      → IsPending head t xs
      → NotIn timer (head ∷ xs)
      → t.expire_jiffies timer ≤ never
      → length xs < fuel
      → All (λ y. t.expire_jiffies y < t.expire_jiffies timer) xs
      → t.jiffies < t.expire_jiffies timer
      → (t' : Timers W) × (add_timer head fuel t timer ≡ some t')
        × IsPending head t' (timer ∷ xs)
        × (do_timer head fuel t' ≡ some t')
  add_timer_holds_back {head} {t} {xs} zero timer v f small enough latest soon =
      absurd (omega arith)
  add_timer_holds_back {head} {t} {xs} (suc fuel) timer v f small enough latest soon =
      let (t', done, pending, keys, j, w) = add_timer_lem head (suc fuel) timer v f small enough in
      let front = subst (IsPending head t') (placed_latest head t timer xs latest) pending in
      (
        t',
        done,
        front,
        do_timer_idle head timer xs t' fuel front (rw (j, ap (λ k. k timer) keys) soon),
      )
