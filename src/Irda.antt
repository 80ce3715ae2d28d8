-- ===== src/Irda.antt =====
-- drivers/sensors/irda/: the ring of infrared pulses (circle_buffer.c) and the decoder of the NEC
-- protocol (irda_nec.c).
--
-- The interrupt handler puts pulses into the ring while the decoder waits. A Poll is one call of
-- get_system_time_us: the time that it returns, and the pulses that came since the call before.
pub mod Ring
pub mod Read
pub mod Decode
pub mod Capture
use mine_os.Prelude.{
  ℕ, zero, suc, ◌+◌, ◌-◌, ◌*◌, ◌/◌, ◌%◌, ◌^◌, Bool, true, false, not, ◌&&◌, Option, none, some,
  List, [], ◌∷◌, ltb, ◌==◌, if◌then◌else◌, bit_and, bit_or,
}
use mine_os.Links.{update}

-- `duration` is in microseconds and not negative.
pub record Event : Type 0 where
  pub pol : ℕ
  pub duration : ℕ

-- g_events, g_r and g_w.
pub record Buffer : Type 0 where
  pub events : ℕ → Event
  pub r : ℕ
  pub w : ℕ

pub record Poll : Type 0 where
  pub time : ℕ
  pub arrived : List Event

pub record Irda : Type 0 where
  pub buffer : Buffer
  pub polls : List Poll

unfoldable pub next_place : ℕ → ℕ
next_place i = bit_and (i + 1) 0x3ff

unfoldable pub is_ir_event_buf_empty : Buffer → Bool
is_ir_event_buf_empty b = b.r == b.w

unfoldable pub is_ir_event_buf_full : Buffer → Bool
is_ir_event_buf_full b = next_place b.w == b.r

-- `none` is -1, with the ring as it was.
unfoldable pub ir_event_put : Buffer → Event → Option Buffer
ir_event_put b pd =
    if is_ir_event_buf_full b
    then none
    else some (record b { events = update b.events b.w pd; w = next_place b.w })

unfoldable pub ir_event_get : Buffer → Option (Event × Buffer)
ir_event_get b =
    if is_ir_event_buf_empty b then none else some (b.events b.r, record b { r = next_place b.r })

-- irda_irq puts each pulse, and drops it where the ring is full.
unfoldable pub arrive : List Event → Buffer → Buffer
arrive [] b = b
arrive (e ∷ es) b = elim (ir_event_put b e) [ none ↦ arrive es b | some b' ↦ arrive es b' ]

-- Nothing happens any more (the polls are used up), a return of -1, or a value.
pub data Outcome (A : Type 0) : Type 0 where
  stuck : Outcome A
  failed : Irda → Outcome A
  got : A → Irda → Outcome A

abbrev pub M : Type 0 → Type 0
M A = Irda → Outcome A

infixl 5 ◌>>=◌ ◌>>◌
abbrev pub ◌>>=◌ : {A B : Type 0} → M A → (A → M B) → M B
◌>>=◌ m f s = elim (m s) [ stuck ↦ stuck | failed s' ↦ failed s' | got a s' ↦ f a s' ]

abbrev pub ◌>>◌ : {A B : Type 0} → M A → M B → M B
m >> k = m >>= λ _. k

abbrev pub give : {A : Type 0} → A → M A
give a s = got a s

-- A test whose failure returns -1.
abbrev pub check : Bool → M (Unit {0})
check true s = got tt s
check false s = failed s

-- now - start < timeout_us on 64 bits.
abbrev pub in_time : ℕ → ℕ → ℕ → Bool
in_time start now timeout_us = ltb ((now + 2 ^ 64 - start) % 2 ^ 64) timeout_us

-- The loop of ir_event_get_timeout; a return of -1 is `failed`.
unfoldable pub wait_event : ℕ → ℕ → Buffer → List Poll → Outcome Event
wait_event timeout_us start b [] = stuck
wait_event timeout_us start b (p ∷ ps) =
    let b' = arrive p.arrived b in
    let later = wait_event timeout_us start b' ps in
    if in_time start p.time timeout_us
    then elim (ir_event_get b') [
      | none ↦ later
      | some (e, b'') ↦ got e (record { buffer = b''; polls = ps })
    ]
    else failed (record { buffer = b'; polls = ps })

abbrev pub start_wait : ℕ → Buffer → List Poll → Outcome Event
start_wait timeout_us b [] = stuck
start_wait timeout_us b (p ∷ ps) = wait_event timeout_us p.time (arrive p.arrived b) ps

unfoldable pub ir_event_get_timeout : ℕ → M Event
ir_event_get_timeout timeout_us s = start_wait timeout_us s.buffer s.polls

abbrev pub duration_base : ℕ
duration_base = 563

-- duration > us - DURATION_DELTA && duration < us + DURATION_DELTA, where us is 563 or more.
unfoldable pub duration_in_margin : ℕ → ℕ → Bool
duration_in_margin duration us = ltb (us - 281) duration && ltb duration (us + 281)

abbrev pub is_pulse : ℕ → ℕ → Event → Bool
is_pulse pol us e = e.pol == pol && duration_in_margin e.duration us

-- What irda_nec_read returns other than -1: an address with data, or the repeat code.
pub data Code : Type 0 where
  code : ℕ → ℕ → Code
  repeat_code : Code

-- The first `if (ir_event_get(&event)) return -1;`
unfoldable pub first_event : M Event
first_event s = elim (ir_event_get s.buffer) [
  | none ↦ failed s
  | some (e, b) ↦ got e (record s { buffer = b })
]

-- val after the high pulse of bit i, or -1.
unfoldable pub read_high : ℕ → ℕ → Event → M ℕ
read_high i val e =
    if is_pulse 1 (3 * duration_base) e
    then give (bit_or val (2 ^ i))
    else (if is_pulse 1 (1 * duration_base) e then give val else failed)

-- The rounds i, i + 1, … of the loop over the 32 bits, n of which are left.
unfoldable pub read_bits : ℕ → ℕ → ℕ → M ℕ
read_bits zero i val = give val
read_bits (suc n) i val = do
  low ← ir_event_get_timeout 10000
  check (is_pulse 0 (1 * duration_base) low)
  high ← ir_event_get_timeout 10000
  val' ← read_high i val high
  read_bits n (i + 1) val'

abbrev pub byte_of : ℕ → ℕ → ℕ
byte_of val k = val / 2 ^ (8 * k) % 2 ^ 8

-- The bytes 1 and 3 are complemented; byte 1 is then compared with no effect.
unfoldable pub check_word : ℕ → M Code
check_word val = do
  check (byte_of val 2 == 255 - byte_of val 3)
  give (code (byte_of val 0) (byte_of val 2))

unfoldable pub read_data : M Code
read_data = do
  val ← read_bits 32 0 0
  last ← ir_event_get_timeout 1000
  check (is_pulse 0 (1 * duration_base) last)
  check_word val

unfoldable pub read_repeat : M Code
read_repeat = do
  last ← ir_event_get_timeout 1000
  check (is_pulse 0 (1 * duration_base) last)
  give repeat_code

-- The high pulse after the head tells a repeat code from data.
unfoldable pub read_rest : Event → M Code
read_rest high =
    if is_pulse 1 (4 * duration_base) high
    then read_repeat
    else (check (is_pulse 1 (8 * duration_base) high) >> read_data)

unfoldable pub irda_nec_read : M Code
irda_nec_read = do
  head ← first_event
  check (is_pulse 0 (16 * duration_base) head)
  high ← ir_event_get_timeout 10000
  read_rest high
