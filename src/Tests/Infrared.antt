-- ===== src/Tests/Infrared.antt =====
-- The theorems on drivers/sensors/irda/: the pulses of a word as a remote control sends them, in a
-- ring that holds nothing else, and a clock that stands still.
use mine_os.Prelude.{
  ℕ, Bool-cases, inl, inr, ◌-◌, ◌^◌, zero, suc, ◌+◌, ◌%◌, ap, ◌∙◌, ◌<◌, ◌≡◌, refl, List, [], ◌∷◌,
  some, arith, length, get_or, if◌then◌else◌, Bool, true, false,
}
use mine_os.Bits.{test_bit}
use mine_os.Irda.{Event, Buffer, Poll, Irda, got, code, irda_nec_read, ir_event_put}
use mine_os.Irda.Ring.{Holds, Spread, ir_event_put_lem}
use mine_os.Irda.Read.{Quick}
use mine_os.Irda.Decode.{Frame, Train, Ended, IsPulse, nec_word}
use mine_os.Irda.Capture.{Capture, Short, edges_of, irda_irqs, irda_nec_read-irda_irqs}

abbrev pulse : ℕ → ℕ → Event
pulse pol duration = record { pol = pol; duration = duration }

abbrev bits : ℕ → ℕ → ℕ → List Event
bits word zero i = pulse 0 560 ∷ []
bits word (suc n) i =
    pulse 0 560 ∷ pulse 1 (if test_bit word i then 1690 else 560) ∷ bits word n (i + 1)

abbrev sent : ℕ → List Event
sent word = pulse 0 9000 ∷ pulse 1 4500 ∷ bits word 32 0

high : (b : Bool) → IsPulse 1 (if b then 1689 else 563) (pulse 1 (if b then 1690 else 560))
high true = record { polarity = refl; longer = omega arith; shorter = omega arith }
high false = record { polarity = refl; longer = omega arith; shorter = omega arith }

bits-Train : (word n i : ℕ) → Train word Ended n i (bits word n i)
bits-Train word zero i = record { polarity = refl; longer = omega arith; shorter = omega arith }
bits-Train word (suc n) i = (
  record { polarity = refl; longer = omega arith; shorter = omega arith },
  high (test_bit word i),
  bits-Train word n (i + 1),
)

sent-Frame : (word : ℕ) → Frame word (sent word)
sent-Frame word = (
  record { polarity = refl; longer = omega arith; shorter = omega arith },
  record { polarity = refl; longer = omega arith; shorter = omega arith },
  bits-Train word 32 0,
)

abbrev ring_of : List Event → Buffer
ring_of xs = record { events = λ i. get_or xs i (pulse 0 0); r = 0; w = length xs }

abbrev still : ℕ → List Poll
still zero = []
still (suc n) = record { time = 0; arrived = [] } ∷ still n

abbrev pairs : ℕ → ℕ
pairs zero = 0
pairs (suc n) = suc (suc (pairs n))

still-Quick : (n : ℕ) → Quick n (still (pairs n))
still-Quick zero = tt
still-Quick (suc n) = ((λ timeout h. ground arith), still-Quick n)

Spread-get :
    (events : ℕ → Event) (xs : List Event) (r : ℕ)
    → ((i : ℕ) → i < length xs → events ((r + i) % 1024) ≡ get_or xs i (pulse 0 0))
    → Spread events r xs
Spread-get events [] r h = tt
Spread-get events (x ∷ xs) r h = (
  ap (λ p. events (p % 1024)) {x = r} {y = r + 0} (omega arith) ∙ h 0 (omega arith),
  Spread-get events xs (r + 1) (λ i k.
      ap (λ p. events (p % 1024)) {x = r + 1 + i} {y = r + suc i} (omega arith)
      ∙ h (suc i) (omega arith)),
)

ring_of-Holds : (xs : List Event) → length xs < 1024 → Holds (ring_of xs) xs
ring_of-Holds xs h = record {
  r_bound = omega arith;
  end = omega arith;
  size = h;
  places =
      Spread-get (ring_of xs).events xs 0
        (λ i k. ap (λ p. get_or xs p (pulse 0 0)) {x = (0 + i) % 1024} {y = i} (omega arith));
}

bits-Short : (word n i : ℕ) → Short (bits word n i)
bits-Short word zero i = (omega arith, omega arith, tt)
bits-Short word (suc n) i = (
  omega arith,
  omega arith,
  (
    omega arith,
    elim (Bool-cases (test_bit word i)) [ inl e ↦ rw e (omega arith) | inr e ↦ rw e (omega arith) ],
    bits-Short word n (i + 1),
  ),
)

-- The clock passes 2 ^ 64 during the head.
abbrev before_wrap : Capture
before_wrap = record { last_time = 2 ^ 64 - 1000; buffer = ring_of [] }

-- The address 0x12 and the data 0x34.
irda_nec_read-irda_irqs_example :
    (s' : Irda) × (irda_nec_read (record {
      buffer =
          (irda_irqs
            (edges_of before_wrap.last_time (sent (nec_word 0x12 0x34)))
            before_wrap).buffer;
      polls = still 132;
    })
      ≡ got (code 0x12 0x34) s')
irda_nec_read-irda_irqs_example =
    irda_nec_read-irda_irqs 0x12 0x34 (sent (nec_word 0x12 0x34)) before_wrap (still 132)
      (omega arith) (omega arith) (sent-Frame (nec_word 0x12 0x34))
      (omega arith, omega arith, (omega arith, omega arith, bits-Short (nec_word 0x12 0x34) 32 0))
      (omega arith) (ring_of-Holds [] (omega arith)) (omega arith) (still-Quick 66)

abbrev one : List Event
one = pulse 1 560 ∷ []

ir_event_put_example :
    (b' : Buffer) × (ir_event_put (ring_of one) (pulse 0 70) ≡ some b')
    × Holds b' (pulse 1 560 ∷ pulse 0 70 ∷ [])
ir_event_put_example =
    ir_event_put_lem (ring_of one) one (pulse 0 70) (ring_of-Holds one (omega arith)) (omega arith)
