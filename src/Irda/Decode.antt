-- ===== src/Irda/Decode.antt =====
-- irda_nec.c: the decoder reads what the NEC protocol sends.
use mine_os.Prelude.{
  ℕ, zero, suc, ◌+◌, ◌-◌, ◌*◌, ◌^◌, ◌<◌, ◌≤◌, ◌≡◌, ◌∙◌, refl, ap, Bool, true, false, ◌&&◌, ◌||◌,
  arith, List, [], ◌∷◌, bit_or, if◌then◌else◌, Bool-cases, inl, inr, ltb, leb, ==_refl,
}
use mine_os.Bits.{
  test_bit, test_bit-zero, test_bit-or, test_bit-pow, test_bit_above, bit_cong, eq_of_bits,
}
use mine_os.Irda.{
  Event, Irda, M, got, check, ◌>>=◌, is_pulse, duration_in_margin, code, read_high, read_bits,
  read_data, read_rest, check_word, byte_of, irda_nec_read, first_event, ir_event_get_timeout,
}
use mine_os.Irda.Read.{IsReady, first_event_lem, ir_event_get_timeout_lem}

bind_got :
    {A B : Type 0} (m : M A) (f : A → M B) {s s' : Irda} {a : A}
    → m s ≡ got a s'
    → (m >>= f) s ≡ f a s'
bind_got m f e = rw (◌>>=◌, e)

check_got :
    {B : Type 0} (b : Bool) (f : Unit {0} → M B) (s : Irda) → b ≡ true → (check b >>= f) s ≡ f tt s
check_got b f s e = rw e

-- A pulse of about us microseconds.
pub record IsPulse (pol us : ℕ) (e : Event) : Type 0 where
  pub polarity : e.pol ≡ pol
  pub longer : us < e.duration + 281
  pub shorter : e.duration < us + 281

is_pulse-true : (pol us : ℕ) (e : Event) → 281 ≤ us → IsPulse pol us e → is_pulse pol us e ≡ true
unfolding duration_in_margin
is_pulse-true pol us e h p = ground (arith, p.polarity, p.longer, p.shorter)

-- Pulses of lengths that are far apart are told apart.
is_pulse_other :
    (pol us us' : ℕ) (e : Event)
    → 281 ≤ us'
    → us + 562 ≤ us'
    → IsPulse pol us e
    → is_pulse pol us' e ≡ false
unfolding duration_in_margin
is_pulse_other pol us us' e k h p = ground (arith, p.polarity, p.longer, p.shorter)

-- The pulses of the bits i, …, i + n - 1 of the word, and then events that are as K says.
abbrev pub Train : ℕ → (List Event → Type 0) → ℕ → ℕ → List Event → Type 0
Train word K zero i es = K es
Train word K (suc n) i [] = ⊥
Train word K (suc n) i (low ∷ []) = ⊥
Train word K (suc n) i (low ∷ high ∷ es) =
    IsPulse 0 563 low
    × IsPulse 1 (if test_bit word i then 1689 else 563) high
    × Train word K n (i + 1) es

abbrev pub Ended : List Event → Type 0
Ended [] = ⊥
Ended (e ∷ es) = IsPulse 0 563 e

-- The pulses of a word in the NEC protocol: the head, the 32 bits from the lowest, and the end.
abbrev pub Frame : ℕ → List Event → Type 0
Frame word [] = ⊥
Frame word (head ∷ []) = ⊥
Frame word (head ∷ high ∷ es) = IsPulse 0 9008 head × IsPulse 1 4504 high × Train word Ended 32 0 es

-- The bits i, …, i + n - 1 of the word set in v.
abbrev gather : ℕ → ℕ → ℕ → ℕ → ℕ
gather word zero i v = v
gather word (suc n) i v = gather word n (i + 1) (if test_bit word i then bit_or v (2 ^ i) else v)

gather_bit :
    (word n i v j : ℕ)
    → test_bit (gather word n i v) j
      ≡ (test_bit v j || (leb i j && ltb j (i + n) && test_bit word j))
gather_bit word zero i v j = ground arith
gather_bit word (suc n) i v j = elim (Bool-cases (test_bit word i)) [
  | inl b ↦ rw b (
      gather_bit word n (i + 1) (bit_or v (2 ^ i)) j
      ∙ rw (test_bit-or j v (2 ^ i), test_bit-pow j i)
          (ground (arith, b, bit_cong word word i j refl)))
  | inr b ↦ rw b (gather_bit word n (i + 1) v j ∙ (ground (arith, b, bit_cong word word i j refl)))
]

gather_all : (word : ℕ) → word < 2 ^ 32 → gather word 32 0 0 ≡ word
gather_all word h = eq_of_bits _ _ λ j.
    gather_bit word 32 0 0 j ∙ rw (test_bit-zero j) (ground (arith, test_bit_above j 32 word h))

abbrev pub twice : ℕ → ℕ → ℕ
twice zero k = k
twice (suc n) k = suc (suc (twice n k))

read_high_lem :
    (i val : ℕ) (b : Bool) (e : Event) (s : Irda)
    → IsPulse 1 (if b then 1689 else 563) e
    → read_high i val e s ≡ got (if b then bit_or val (2 ^ i) else val) s
unfolding read_high
read_high_lem i val true e s p = rw (read_high, is_pulse-true 1 1689 e (omega arith) p)
read_high_lem i val false e s p = rw (
  read_high,
  is_pulse_other 1 563 1689 e (omega arith) (omega arith) p,
  is_pulse-true 1 563 e (omega arith) p,
)

read_bits_lem :
    (word : ℕ) (K : List Event → Type 0) (n i v k : ℕ) (es : List Event) (s : Irda)
    → Train word K n i es
    → IsReady es (twice n k) s
    → (es' : List Event) × (s' : Irda) × (read_bits n i v s ≡ got (gather word n i v) s')
      × K es'
      × IsReady es' k s'
unfolding read_bits
read_bits_lem word K zero i v k es s t r = (es, s, refl, t, r)
read_bits_lem word K (suc n) i v k [] s t r = absurd t
read_bits_lem word K (suc n) i v k (low ∷ []) s t r = absurd t
read_bits_lem word K (suc n) i v k (low ∷ high ∷ es) s t r =
    let (s₁, e₁, r₁) =
      ir_event_get_timeout_lem 10000 low (high ∷ es) (suc (twice n k)) s (omega arith) r in
    let (s₂, e₂, r₂) = ir_event_get_timeout_lem 10000 high es (twice n k) s₁ (omega arith) r₁ in
    let v' = (if test_bit word i then bit_or v (2 ^ i) else v) in
    let (es', s', e₃, done, r₃) = read_bits_lem word K n (i + 1) v' k es s₂ t.2 r₂ in
    (
      es',
      s',
      bind_got (ir_event_get_timeout 10000) _ e₁
          ∙ check_got (is_pulse 0 563 low) _ s₁ (is_pulse-true 0 563 low (omega arith) t.0)
          ∙ bind_got (ir_event_get_timeout 10000) _ e₂
          ∙ bind_got (read_high i v high) _ (read_high_lem i v (test_bit word i) high s₂ t.1)
          ∙ e₃,
      done,
      r₃,
    )

read_data_lem :
    (word : ℕ) (es : List Event) (s : Irda)
    → word < 2 ^ 32
    → Train word Ended 32 0 es
    → IsReady es (twice 32 1) s
    → (s' : Irda) × (read_data s ≡ check_word word s')
unfolding read_data
read_data_lem word es s h t r =
    let (es', s₁, e₁, k, r₁) = read_bits_lem word Ended 32 0 0 1 es s t r in
    finish es' s₁ (e₁ ∙ ap (λ w. got w s₁) (gather_all word h)) k r₁
  where
    finish :
        (es' : List Event) (s₁ : Irda)
        → read_bits 32 0 0 s ≡ got word s₁
        → Ended es'
        → IsReady es' 1 s₁
        → (s' : Irda) × (read_data s ≡ check_word word s')
    finish [] s₁ e k r = absurd k
    finish (last ∷ rest) s₁ e k r =
        let (s₂, e₂, r₂) = ir_event_get_timeout_lem 1000 last rest 0 s₁ (omega arith) r in
        (
          s₂,
          bind_got (read_bits 32 0 0) _ e
              ∙ bind_got (ir_event_get_timeout 1000) _ e₂
              ∙ check_got (is_pulse 0 563 last) _ s₂ (is_pulse-true 0 563 last (omega arith) k),
        )

not_repeat : (e : Event) → IsPulse 1 4504 e → is_pulse 1 2252 e ≡ false
unfolding duration_in_margin
not_repeat e p = ground (arith, p.polarity, p.longer, p.shorter)

-- Where the pulses of a word wait in the ring and the clock is quick, irda_nec_read reads the whole
-- word and returns what the check of its bytes gives.
pub irda_nec_read_lem :
    (word : ℕ) (es : List Event) (s : Irda)
    → word < 2 ^ 32
    → Frame word es
    → IsReady es (suc (twice 32 1)) s
    → (s' : Irda) × (irda_nec_read s ≡ check_word word s')
unfolding irda_nec_read read_rest
irda_nec_read_lem word [] s h f r = absurd f
irda_nec_read_lem word (head ∷ []) s h f r = absurd f
irda_nec_read_lem word (head ∷ high ∷ es) s h f r =
    let (s₁, e₁, r₁) = first_event_lem head (high ∷ es) (suc (twice 32 1)) s r in
    let (s₂, e₂, r₂) = ir_event_get_timeout_lem 10000 high es (twice 32 1) s₁ (omega arith) r₁ in
    let (s', done) = read_data_lem word es s₂ h f.2 r₂ in
    (
      s',
      bind_got first_event _ e₁
          ∙ check_got (is_pulse 0 9008 head) _ s₁ (is_pulse-true 0 9008 head (omega arith) f.0)
          ∙ bind_got (ir_event_get_timeout 10000) _ e₂
          ∙ rw (read_rest, not_repeat high f.1, is_pulse-true 1 4504 high (omega arith) f.1) done,
    )

-- The word that the protocol sends for an address and data.
abbrev pub nec_word : ℕ → ℕ → ℕ
nec_word address data_byte =
    address + 2 ^ 8 * (255 - address) + 2 ^ 16 * data_byte + 2 ^ 24 * (255 - data_byte)

-- Where the pulses of an address and data wait in the ring, each within the margin, and the clock
-- is quick, irda_nec_read returns that address and data, whatever arrives in the meantime.
pub irda_nec_read_roundtrip :
    (address data_byte : ℕ) (es : List Event) (s : Irda)
    → address < 256
    → data_byte < 256
    → Frame (nec_word address data_byte) es
    → IsReady es (suc (twice 32 1)) s
    → (s' : Irda) × (irda_nec_read s ≡ got (code address data_byte) s')
unfolding check_word
irda_nec_read_roundtrip a d es s ha hd f r =
    let (s', done) = irda_nec_read_lem (nec_word a d) es s (omega arith) f r in
    let low : byte_of (nec_word a d) 0 ≡ a = omega arith in
    let data_ok : byte_of (nec_word a d) 2 ≡ d = omega arith in
    let inverse : 255 - byte_of (nec_word a d) 3 ≡ d = omega arith in
    (s', done ∙ rw (low, data_ok, inverse, ==_refl d))
