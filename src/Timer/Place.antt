-- ===== src/Timer/Place.antt =====
-- kernel/timer.c: where `add_timer` puts a timer.
use mathlib.Core.List.{append-nil}
use mathlib.Core.Path.{ap₂}
use mine_os.Prelude.{
  ℕ, ◌≤◌, ◌<◌, ◌≡◌, refl, sym, List, [], ◌∷◌, ◌++◌, some, length, subst, All, lt→ltb, ap,
}
use mine_os.Links.{list_add_to_behind}
use mine_os.Links.Ring.{NotIn, IsRing}
use mine_os.Links.Place.{
  first, before, after, before-append-after, place_lem, insert_behind, insert_behind_head,
}
use mine_os.Timer.{Timers, add_timer, never}

-- The new timer goes behind the first one that does not expire before it; where there is none,
-- behind the head, which is in front of all.
abbrev pub behind : ℕ → List ℕ → List ℕ → List ℕ
behind timer ws [] = timer ∷ ws
behind timer ws (b ∷ bs) = ws ++ b ∷ timer ∷ bs

module _ {W : Type 0} (head : ℕ) where
  -- The timers xs are pending, in this order.
  pub record IsPending (t : Timers W) (xs : List ℕ) : Type 0 where
    pub ring : IsRing t.links head xs
    pub sentinel : t.expire_jiffies head ≡ never

  abbrev pub placed : Timers W → ℕ → List ℕ → List ℕ
  placed t timer xs =
      let k = t.expire_jiffies timer in
      behind timer (before t.expire_jiffies k xs) (after t.expire_jiffies k xs)

  abbrev added : Timers W → ℕ → List ℕ → Timers W
  added t timer xs = record t {
    links =
        list_add_to_behind t.links (first (after t.expire_jiffies (t.expire_jiffies timer) xs) head)
          timer;
  }

  behind-IsRing :
      (t : Timers W) (timer : ℕ) (ws bs : List ℕ)
      → IsRing t.links head (ws ++ bs)
      → NotIn timer (head ∷ ws ++ bs)
      → IsRing (list_add_to_behind t.links (first bs head) timer) head (behind timer ws bs)
  behind-IsRing t timer ws [] r f =
      insert_behind_head timer (subst (IsRing t.links head) (append-nil ws) r)
        (subst (λ ys. NotIn timer (head ∷ ys)) (append-nil ws) f)
  behind-IsRing t timer ws (b ∷ bs) r f = insert_behind ws b bs timer r f

  -- `add_timer` ends, and the pending timers are then `placed t timer xs`.
  pub add_timer_lem :
      {t : Timers W} {xs : List ℕ} (fuel timer : ℕ)
      → IsPending t xs
      → NotIn timer (head ∷ xs)
      → t.expire_jiffies timer ≤ never
      → length xs < fuel
      → (t' : Timers W) × (add_timer head fuel t timer ≡ some t')
        × IsPending t' (placed t timer xs)
        × (t'.expire_jiffies ≡ t.expire_jiffies)
        × (t'.jiffies ≡ t.jiffies)
        × (t'.world ≡ t.world)
  unfolding add_timer
  add_timer_lem {t} {xs} fuel timer v f small enough =
      let k = t.expire_jiffies timer in
      let parts = before-append-after t.expire_jiffies k xs in
      (
        added t timer xs,
        rw (place_lem t.expire_jiffies k fuel v.ring (rw v.sentinel small) enough, add_timer),
        record {
          ring =
              behind-IsRing t timer (before t.expire_jiffies k xs) (after t.expire_jiffies k xs)
                (subst (IsRing t.links head) (sym parts) v.ring)
                (subst (λ ys. NotIn timer (head ∷ ys)) (sym parts) f);
          sentinel = v.sentinel;
        },
        refl,
        refl,
        refl,
      )

  All-before :
      (t : Timers W) (k : ℕ) (xs : List ℕ)
      → All (λ y. t.expire_jiffies y < k) xs
      → (before t.expire_jiffies k xs ≡ xs) × (after t.expire_jiffies k xs ≡ [])
  All-before t k [] p = (refl, refl)
  All-before t k (x ∷ xs) p =
      let r = All-before t k xs p.1 in rw (lt→ltb _ _ p.0) (ap (◌∷◌ x) r.0, r.1)

  -- A timer that expires after all that are pending is put in front of them.
  pub placed_latest :
      (t : Timers W) (timer : ℕ) (xs : List ℕ)
      → All (λ y. t.expire_jiffies y < t.expire_jiffies timer) xs
      → placed t timer xs ≡ timer ∷ xs
  placed_latest t timer xs p =
      let r = All-before t (t.expire_jiffies timer) xs p in ap₂ (behind timer) r.0 r.1
