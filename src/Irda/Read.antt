-- ===== src/Irda/Read.antt =====
-- circle_buffer.c: reading an event with a timeout, while more events arrive.
use native.Mathlib.Decide.{dec_lt}
use mathlib.Core.List.{append_assoc}
use mine_os.Prelude.{ℕ, zero, suc, ◌≤◌, ◌≡◌, subst, true, arith, List, [], ◌∷◌, ◌++◌, length}
use mine_os.Irda.{
  Event, Buffer, Poll, Irda, got, arrive, in_time, wait_event, ir_event_get_timeout, first_event,
}
use mine_os.Irda.Ring.{Holds, ir_event_put_lem, ir_event_put_full, ir_event_get_lem}

-- The ring holds es, and perhaps more after them.
abbrev pub Begins : Buffer → List Event → Type 0
Begins b es = (rest : List Event) × Holds b (es ++ rest)

-- Events that arrive do not disturb those that wait.
arrive-Begins :
    (news : List Event) (b : Buffer) (es : List Event) → Begins b es → Begins (arrive news b) es
unfolding arrive
arrive-Begins [] b es v = v
arrive-Begins (e ∷ news) b es (rest, h) = elim (dec_lt (length (es ++ rest)) 1023) [
  | yes l ↦
      let (b', done, h') = ir_event_put_lem b (es ++ rest) e h l in
      rw (arrive, done)
        (arrive-Begins news b' es
          (rest ++ e ∷ [], subst (Holds b') (append_assoc es rest (e ∷ [])) h'))
  | no l ↦
      rw (arrive, ir_event_put_full b (es ++ rest) e h (omega (arith, h.size)))
        (arrive-Begins news b es (rest, h))
]

-- A machine whose clock runs slowly enough for n more calls with a timeout of a millisecond.
abbrev pub Quick : ℕ → List Poll → Type 0
Quick zero ps = Unit
Quick (suc n) [] = ⊥
Quick (suc n) (p ∷ []) = ⊥
Quick (suc n) (p ∷ q ∷ ps) =
    ((timeout : ℕ) → 1000 ≤ timeout → in_time p.time q.time timeout ≡ true) × Quick n ps

-- The machine holds es, and n more calls are quick.
pub record IsReady (es : List Event) (n : ℕ) (s : Irda) : Type 0 where
  pub begins : Begins s.buffer es
  pub quick : Quick n s.polls

pub first_event_lem :
    (e : Event) (es : List Event) (n : ℕ) (s : Irda)
    → IsReady (e ∷ es) n s
    → (s' : Irda) × (first_event s ≡ got e s') × IsReady es n s'
unfolding first_event
first_event_lem e es n s v =
    let (rest, h) = v.begins in
    let (b, done, h') = ir_event_get_lem s.buffer e (es ++ rest) h in
    (
      record s { buffer = b },
      rw (first_event, done),
      record { begins = (rest, h'); quick = v.quick },
    )

get-Quick :
    (timeout : ℕ) (e : Event) (es : List Event) (n : ℕ) (b : Buffer) (ps : List Poll)
    → 1000 ≤ timeout
    → Begins b (e ∷ es)
    → Quick (suc n) ps
    → (s' : Irda) × (ir_event_get_timeout timeout (record { buffer = b; polls = ps }) ≡ got e s')
      × IsReady es n s'
unfolding ir_event_get_timeout wait_event
get-Quick timeout e es n b [] t v q = absurd q
get-Quick timeout e es n b (p ∷ []) t v q = absurd q
get-Quick timeout e es n b (p ∷ p' ∷ ps) t v q =
    let (rest, h) = arrive-Begins p'.arrived _ (e ∷ es) (arrive-Begins p.arrived b (e ∷ es) v) in
    let (b', done, h') = ir_event_get_lem _ e (es ++ rest) h in
    (
      record { buffer = b'; polls = ps },
      rw (q.0 timeout t, done),
      record { begins = (rest, h'); quick = q.1 },
    )

-- An event that waits is returned, if the clock is quick.
pub ir_event_get_timeout_lem :
    (timeout : ℕ) (e : Event) (es : List Event) (n : ℕ) (s : Irda)
    → 1000 ≤ timeout
    → IsReady (e ∷ es) (suc n) s
    → (s' : Irda) × (ir_event_get_timeout timeout s ≡ got e s') × IsReady es n s'
ir_event_get_timeout_lem timeout e es n s t v =
    get-Quick timeout e es n s.buffer s.polls t v.begins v.quick
