-- ===== src/Irda/Capture.antt =====
-- drivers/sensors/irda/irda_raw.c: irda_irq, which turns the edges at the pin into the events of
-- the ring, and delta_time_us of drivers/timer.c.
use mathlib.Core.List.{append_assoc, append-nil}
use mine_os.Prelude.{
  ℕ, ◌+◌, ◌-◌, ◌%◌, ◌^◌, ◌<◌, ◌==◌, ◌≡◌, ◌∙◌, sym, ap, subst, arith, Option, none, some, List, [],
  ◌∷◌, ◌++◌, length, length-append, if◌then◌else◌,
}
use mine_os.Irda.{Event, Buffer, Poll, Irda, got, code, ir_event_put, irda_nec_read}
use mine_os.Irda.Ring.{Holds, ir_event_put_lem}
use mine_os.Irda.Read.{Quick}
use mine_os.Irda.Decode.{Frame, nec_word, irda_nec_read_roundtrip}

-- g_last_time, with the ring.
pub record Capture : Type 0 where
  pub last_time : ℕ
  pub buffer : Buffer

-- An edge at the pin: what get_system_time_us returns, and what irda_data_get then reads.
pub record Edge : Type 0 where
  pub time : ℕ
  pub level : ℕ

unfoldable pub delta_time_us : ℕ → ℕ → ℕ
delta_time_us pre now = (now + 2 ^ 64 - pre) % 2 ^ 64

-- The duration is an int: what is 2 ^ 31 or more here is negative there, and no pulse of the
-- protocol either way.
unfoldable pub irda_irq : Edge → Capture → Capture
irda_irq edge c =
    let event : Event = record {
      pol = if edge.level == 0 then 1 else 0;
      duration = delta_time_us c.last_time edge.time % 2 ^ 32;
    } in
    record {
      last_time = edge.time;
      buffer = elim (ir_event_put c.buffer event) [ none ↦ c.buffer | some b ↦ b ];
    }

-- One interrupt for each edge.
unfoldable pub irda_irqs : List Edge → Capture → Capture
irda_irqs [] c = c
irda_irqs (e ∷ es) c = irda_irqs es (irda_irq e c)

-- The edge that ends the pulse e, which begins at `time`.
abbrev pub edge_after : ℕ → Event → Edge
edge_after time e = record {
  time = (time + e.duration) % 2 ^ 64;
  level = if e.pol == 0 then 1 else 0;
}

-- The edges that end the pulses es, the first of which begins at `time`.
abbrev pub edges_of : ℕ → List Event → List Edge
edges_of time [] = []
edges_of time (e ∷ es) = edge_after time e ∷ edges_of (edge_after time e).time es

-- Pulses of at most 2 ^ 31 - 1 microseconds.
abbrev pub Short : List Event → Type 0
Short [] = Unit
Short (e ∷ es) = (e.pol < 2) × (e.duration < 2 ^ 31) × Short es

event_captured :
    (e : Event) (time : ℕ)
    → e.pol < 2
    → e.duration < 2 ^ 31
    → time < 2 ^ 64
    → ◌≡◌ {A = Event}
        (record {
          pol = if (if e.pol == 0 then 1 else 0) == 0 then 1 else 0;
          duration = delta_time_us time ((time + e.duration) % 2 ^ 64) % 2 ^ 32;
        })
        e
unfolding delta_time_us
event_captured e time p d t =
    ap
      (λ x. record {
        pol = x;
        duration = delta_time_us time ((time + e.duration) % 2 ^ 64) % 2 ^ 32;
      })
      (ground arith)
    ∙ ap (λ x. record { pol = e.pol; duration = x }) (omega (arith, d, t))

abbrev after_put : Event → Capture → Option Buffer → Capture
after_put e c o = record {
  last_time = (c.last_time + e.duration) % 2 ^ 64;
  buffer = elim o [ none ↦ c.buffer | some b ↦ b ];
}

captured :
    (e : Event) (c : Capture) (b : Buffer)
    → e.pol < 2
    → e.duration < 2 ^ 31
    → c.last_time < 2 ^ 64
    → ir_event_put c.buffer e ≡ some b
    → irda_irq (edge_after c.last_time e) c
      ≡ record { last_time = (c.last_time + e.duration) % 2 ^ 64; buffer = b }
unfolding irda_irq
captured e c b p d t done =
    ap (after_put e c) (ap (ir_event_put c.buffer) (event_captured e c.last_time p d t) ∙ done)

-- The interrupts put the pulses into the ring behind those that wait, as long as there is room.
pub irda_irqs_lem :
    (es xs : List Event) (c : Capture)
    → Holds c.buffer xs
    → c.last_time < 2 ^ 64
    → Short es
    → length xs + length es < 1024
    → Holds (irda_irqs (edges_of c.last_time es) c).buffer (xs ++ es)
unfolding irda_irqs
irda_irqs_lem [] xs c h t s room = subst (Holds c.buffer) (sym (append-nil xs)) h
irda_irqs_lem (e ∷ es) xs c h t s room =
    let (b, done, h') = ir_event_put_lem c.buffer xs e h (omega (arith, room)) in
    let end = (c.last_time + e.duration) % 2 ^ 64 in
    rw (irda_irqs, captured e c b s.0 s.1 t done)
      (subst (Holds (irda_irqs (edges_of end es) (record { last_time = end; buffer = b })).buffer)
        (append_assoc xs (e ∷ []) es)
        (irda_irqs_lem es (xs ++ e ∷ []) (record { last_time = end; buffer = b }) h' (omega arith)
          s.2 (omega (arith, room, length-append xs (e ∷ [])))))

-- From the edge that begins a frame on, with no event in the ring, short pulses that follow within
-- the margins, and at most 1023 of them: the interrupts and then irda_nec_read, whose clock is
-- quick, return the address and data that the frame is for, wherever the 64 bits of the time wrap.
pub irda_nec_read-irda_irqs :
    (address data_byte : ℕ) (es : List Event) (c : Capture) (polls : List Poll)
    → address < 256
    → data_byte < 256
    → Frame (nec_word address data_byte) es
    → Short es
    → length es < 1024
    → Holds c.buffer []
    → c.last_time < 2 ^ 64
    → Quick 66 polls
    → (s' : Irda) × (irda_nec_read
          (record { buffer = (irda_irqs (edges_of c.last_time es) c).buffer; polls = polls })
        ≡ got (code address data_byte) s')
irda_nec_read-irda_irqs address data_byte es c polls ha hd f s room h t q =
    irda_nec_read_roundtrip address data_byte es _ ha hd f (record {
      begins = (
        [],
        subst (Holds _) (sym (append-nil es)) (irda_irqs_lem es [] c h t s (omega (arith, room))),
      );
      quick = q;
    })
