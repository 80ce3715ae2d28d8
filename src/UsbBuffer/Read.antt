-- ===== src/UsbBuffer/Read.antt =====
-- drivers/usbslave/buff.c: what a read returns and where the bytes go.
use mine_os.Prelude.{
  ℕ, zero, suc, ◌+◌, ◌-◌, ◌<◌, ◌≤◌, ◌≡◌, refl, ap, ◌∙◌, min, some, none, arith, ==_false, lt→ltb,
  le→ltb_false, Bool-cases, inl, inr, ◌==◌, ==_iff, ◌⊎◌,
}
use mine_os.Links.{update}
use mine_os.Links.Splice.{update_self, update_ne}
use mine_os.UsbBuffer.{
  UsbBuf, Memory, usb_buf_read_single, read_loop, usb_buf_read_inc, usb_buf_remain,
}

-- The buffer after k more bytes are read.
abbrev pub advanced : UsbBuf → ℕ → UsbBuf
advanced ub k = record ub { count = ub.count + k }

-- The k bytes from the buffer's place on stand at dest, and the rest of the memory is as it was.
pub record Copied (ub : UsbBuf) (k dest : ℕ) (m m' : Memory) : Type 0 where
  pub copied : (q : ℕ) → q < k → m' (dest + q) ≡ ub.buf (ub.count + q)
  pub untouched : (p : ℕ) → ((p < dest) ⊎ (dest + k ≤ p)) → m' p ≡ m p

single_some :
    (ub : UsbBuf) (m : Memory) (dest : ℕ)
    → ub.count < ub.size
    → usb_buf_read_single ub m dest ≡ some (advanced ub 1, update m dest (ub.buf ub.count))
unfolding usb_buf_read_single
single_some ub m dest h = rw (usb_buf_read_single, lt→ltb ub.count ub.size h)

single_none :
    (ub : UsbBuf) (m : Memory) (dest : ℕ)
    → ub.size ≤ ub.count
    → usb_buf_read_single ub m dest ≡ none
unfolding usb_buf_read_single
single_none ub m dest h = rw (usb_buf_read_single, le→ltb_false ub.count ub.size h)

Copied-step :
    (ub : UsbBuf) (k dest : ℕ) (m m' : Memory)
    → Copied (advanced ub 1) k (dest + 1) (update m dest (ub.buf ub.count)) m'
    → Copied ub (suc k) dest m m'
Copied-step ub k dest m m' c = record {
  copied = λ q h. elim (Bool-cases (q == 0)) [
    | inl e ↦
        let z : q ≡ 0 = (==_iff q 0).0 e in
        ap m' {x = dest + q} {y = dest} (omega arith)
        ∙ c.untouched dest (inl (omega arith))
        ∙ update_self m dest (ub.buf ub.count)
        ∙ ap ub.buf {x = ub.count} {y = ub.count + q} (omega arith)
    | inr e ↦
        let p : 0 < q = ground arith in
        ap m' {x = dest + q} {y = dest + 1 + (q - 1)} (omega arith)
        ∙ c.copied (q - 1) (omega arith)
        ∙ ap ub.buf {x = ub.count + 1 + (q - 1)} {y = ub.count + q} (omega arith)
  ];
  untouched = λ p h. elim h [
    | inl l ↦ c.untouched p (inl (omega arith)) ∙ update_ne m dest (ub.buf ub.count) p (omega arith)
    | inr l ↦ c.untouched p (inr (omega arith)) ∙ update_ne m dest (ub.buf ub.count) p (omega arith)
  ];
}

-- The state of the loop, by its two counters.
same_state :
    (ub : UsbBuf) (m : Memory) {a b c d : ℕ}
    → a ≡ b
    → c ≡ d
    → ◌≡◌ {A = ℕ × UsbBuf × Memory} (a, record ub { count = c }, m) (b, record ub { count = d }, m)
same_state ub m {b = b} {c = c} e f =
    ap {B = ℕ × UsbBuf × Memory} (λ x. (x, record ub { count = c }, m)) e
    ∙ ap {B = ℕ × UsbBuf × Memory} (λ x. (b, record ub { count = x }, m)) f

Copied-none : (ub : UsbBuf) (dest : ℕ) (m : Memory) → Copied ub 0 dest m m
Copied-none ub dest m = record { copied = λ q h. absurd (omega arith); untouched = λ p h. refl }

read_loop_lem :
    (n i k : ℕ) (ub : UsbBuf) (m : Memory) (dest : ℕ)
    → k ≡ min n (ub.size - ub.count)
    → (m' : Memory) × (read_loop 1 n i ub m dest ≡ (i + k, advanced ub k, m'))
      × Copied ub k dest m m'
unfolding read_loop
read_loop_lem zero i zero ub m dest e =
    (m, same_state ub m (omega arith) (omega arith), Copied-none ub dest m)
read_loop_lem zero i (suc k) ub m dest e = absurd (omega arith)
read_loop_lem (suc n) i zero ub m dest e = (
  m,
  rw (read_loop, single_none ub m dest (omega arith)) (same_state ub m (omega arith) (omega arith)),
  Copied-none ub dest m,
)
read_loop_lem (suc n) i (suc k) ub m dest e =
    let (m', done, c) =
      read_loop_lem n (i + 1) k (advanced ub 1) (update m dest (ub.buf ub.count)) (dest + 1)
        (omega arith) in
    (
      m',
      rw (read_loop, single_some ub m dest (omega arith))
          (done ∙ same_state ub m' (omega arith) (omega arith)),
      Copied-step ub k dest m m' c,
    )

-- A read of `size` bytes, not 0, returns the number k of bytes that it read, the smaller one of
-- `size` and what remains; those k bytes stand in order from dest on, no other byte of the memory
-- is changed, and k fewer remain.
usb_buf_read_inc_lem :
    (ub : UsbBuf) (m : Memory) (dest size : ℕ)
    → 0 < size
    → (k : ℕ) × (m' : Memory) × (usb_buf_read_inc ub m dest size ≡ some (k, advanced ub k, m'))
      × (k ≡ min size (usb_buf_remain ub))
      × Copied ub k dest m m'
      × (usb_buf_remain (advanced ub k) ≡ usb_buf_remain ub - k)
unfolding usb_buf_read_inc usb_buf_remain
usb_buf_read_inc_lem ub m dest size h =
    let k = min size (ub.size - ub.count) in
    let (m', done, c) = read_loop_lem size 0 k ub m dest refl in
    (
      k,
      m',
      rw (==_false size 0 (omega arith)) (ap some (done ∙ same_state ub m' (omega arith) refl)),
      refl,
      c,
      omega arith,
    )
