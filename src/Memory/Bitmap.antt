-- ===== src/Memory/Bitmap.antt =====
-- include/lib.h: the bit macros, and the window test of alloc_pages, bit by bit.
use mine_os.Prelude.{
  ℕ, ◌+◌, ◌-◌, ◌*◌, ◌/◌, ◌%◌, ◌^◌, ◌<◌, ◌≤◌, ◌==◌, ◌≡◌, ◌↔◌, ◌∙◌, refl, sym, ap, Bool, true, false,
  not, ◌&&◌, ◌||◌, arith, if◌then◌else◌, Bool-cases, inl, inr, ltb, ==_iff, lt→ltb, bit_or,
}
use mine_os.Bits.{
  bit_laws, test_bit, test_bit-or, test_bit-mask, test_bit-shr, test_bit-shl, test_bit-mod,
  test_bit_above, bit_cong, xor_bit,
}
use mine_os.Bits.Clear.{low_clear, clear_low}
use mine_os.Memory.{Bytes, bit_set, bit_clr, bit_not, long_at, is_window_free}

-- Bit p of the map.
abbrev pub bit_at : Bytes → ℕ → Bool
bit_at x p = test_bit (x (p / 8)) (p % 8)

same_place : (p q : ℕ) → p / 8 ≡ q / 8 → (p == q) ≡ (q % 8 == p % 8)
same_place p q h = ground arith

other_place : (p q : ℕ) → (p / 8 == q / 8) ≡ false → (p == q) ≡ false
other_place p q h = elim (Bool-cases (p == q)) [ inl e ↦ absurd (ground arith) | inr e ↦ e ]

-- BIT_SET sets the bit p and no other.
pub bit_set_lem : (x : Bytes) (p q : ℕ) → bit_at (bit_set x p) q ≡ (bit_at x q || (p == q))
unfolding bit_set
bit_set_lem x p q = elim (Bool-cases (p / 8 == q / 8)) [
  | inl e ↦
      let at : p / 8 ≡ q / 8 = (==_iff _ _).0 e in
      rw e (simp (bit_laws, sym (same_place p q at), at))
  | inr e ↦ rw (e, other_place p q e) (ground arith)
]

-- BIT_CLR clears the bit p and no other.
pub bit_clr_lem : (x : Bytes) (p q : ℕ) → bit_at (bit_clr x p) q ≡ (bit_at x q && not (p == q))
unfolding bit_clr
bit_clr_lem x p q = elim (Bool-cases (p / 8 == q / 8)) [
  | inl e ↦
      let at : p / 8 ≡ q / 8 = (==_iff _ _).0 e in
      rw e (
        simp (
          bit_laws,
          test_bit-mask (q % 8) 8,
          lt→ltb (q % 8) 8 (omega arith),
          sym (same_place p q at),
          at,
        ))
  | inr e ↦ rw (e, other_place p q e) (ground arith)
]

-- BIT_NOT turns the bit p and no other.
pub bit_not_lem : (x : Bytes) (p q : ℕ) → bit_at (bit_not x p) q ≡ xor_bit (bit_at x q) (p == q)
unfolding bit_not
bit_not_lem x p q = elim (Bool-cases (p / 8 == q / 8)) [
  | inl e ↦
      let at : p / 8 ≡ q / 8 = (==_iff _ _).0 e in
      rw e (simp (bit_laws, sym (same_place p q at), at))
  | inr e ↦ rw (e, other_place p q e) (ground arith)
]

-- The map is made of bytes.
abbrev pub IsBytes : Bytes → Type 0
IsBytes x = (i : ℕ) → x i < 256

byte_bit :
    (lo hi j : ℕ)
    → lo < 256
    → test_bit (lo + 256 * hi) j ≡ (if ltb j 8 then test_bit lo j else test_bit hi (j - 8))
byte_bit lo hi j h = elim (Bool-cases (ltb j 8)) [
  | inl c ↦ rw c (
      sym (test_bit-mod j 8 (lo + 256 * hi) ∙ rw c)
      ∙ bit_cong ((lo + 256 * hi) % 2 ^ 8) lo j j (omega arith) refl)
  | inr c ↦
      let ge : 8 ≤ j = ground arith in
      rw c (
        bit_cong (lo + 256 * hi) (lo + 256 * hi) j (8 + (j - 8)) refl (omega arith)
        ∙ sym (test_bit-shr 8 (j - 8) (lo + 256 * hi))
        ∙ bit_cong ((lo + 256 * hi) / 2 ^ 8) hi (j - 8) (j - 8) (omega arith) refl)
]

at_bit : (x : Bytes) (a r p : ℕ) → a ≡ p / 8 → r ≡ p % 8 → test_bit (x a) r ≡ bit_at x p
at_bit x a r p e f = bit_cong (x a) (x (p / 8)) r (p % 8) (ap x e) f

pub long_bit :
    (x : Bytes) (i k : ℕ) → IsBytes x → k < 32 → test_bit (long_at x i) k ≡ bit_at x (32 * i + k)
unfolding long_at
long_bit x i k b h =
    byte_bit (x (4 * i)) _ k (b (4 * i))
    ∙ rw
        (
          byte_bit (x (4 * i + 1)) (x (4 * i + 2) + 256 * x (4 * i + 3)) (k - 8) (b (4 * i + 1)),
          byte_bit (x (4 * i + 2)) (x (4 * i + 3)) (k - 8 - 8) (b (4 * i + 2)),
        )
        (elim (Bool-cases (ltb k 8)) [
          | inl c ↦
              let l : k < 8 = ground arith in
              rw c (at_bit x (4 * i) k (32 * i + k) (omega arith) (omega arith))
          | inr c ↦
              let g : 8 ≤ k = ground arith in
              rw c (elim (Bool-cases (ltb (k - 8) 8)) [
                | inl c' ↦
                    let l : k < 16 = ground arith in
                    rw c' (at_bit x (4 * i + 1) (k - 8) (32 * i + k) (omega arith) (omega arith))
                | inr c' ↦
                    let g' : 16 ≤ k = ground arith in
                    rw c' (elim (Bool-cases (ltb (k - 8 - 8) 8)) [
                      | inl c'' ↦
                          let l : k < 24 = ground arith in
                          rw c'' (
                            at_bit x (4 * i + 2) (k - 8 - 8) (32 * i + k) (omega arith)
                              (omega arith))
                      | inr c'' ↦
                          let g'' : 24 ≤ k = ground arith in
                          rw c'' (
                            at_bit x (4 * i + 3) (k - 8 - 8 - 8) (32 * i + k) (omega arith)
                              (omega arith))
                    ])
              ])
        ])

pub long_bound : (x : Bytes) (i : ℕ) → IsBytes x → long_at x i < 2 ^ 32
unfolding long_at
long_bound x i b = omega (arith, b (4 * i), b (4 * i + 1), b (4 * i + 2), b (4 * i + 3))

-- The word that the window test looks at, for the place j.
abbrev window : Bytes → ℕ → ℕ
window x j =
    let k = j % 32 in
    bit_or (long_at x (j / 32) / 2 ^ k)
      (long_at x (j / 32 + (if k == 0 then 0 else 1)) * 2 ^ (32 - k) % 2 ^ 32)

bit_at_cong : (x : Bytes) (p q : ℕ) → p ≡ q → bit_at x p ≡ bit_at x q
bit_at_cong x p q e = ap (bit_at x) e

window_bit : (x : Bytes) (j t : ℕ) → IsBytes x → t < 32 → test_bit (window x j) t ≡ bit_at x (j + t)
window_bit x j t b h =
    let k = j % 32 in
    let i = j / 32 in
    let i' = i + (if k == 0 then 0 else 1) in
    test_bit-or t (long_at x i / 2 ^ k) (long_at x i' * 2 ^ (32 - k) % 2 ^ 32)
    ∙ rw
        (
          test_bit-shr k t (long_at x i),
          test_bit-mod t 32 (long_at x i' * 2 ^ (32 - k)),
          lt→ltb t 32 h,
          test_bit-shl t (32 - k) (long_at x i'),
        )
        (elim (Bool-cases (ltb t (32 - k))) [
          | inl c ↦
              let l : k + t < 32 = ground arith in
              rw c (
                rw (long_bit x i (k + t) b l) (
                  or_false (bit_at x (32 * i + (k + t)))
                  ∙ bit_at_cong x (32 * i + (k + t)) (j + t) (omega arith)))
          | inr c ↦
              let g : 32 ≤ k + t = ground arith in
              let next : i' ≡ i + 1 = ground arith in
              rw c (
                rw
                  (
                    test_bit_above (k + t) 32 (long_at x i) (long_bound x i b) g,
                    next,
                    long_bit x (i + 1) (t - (32 - k)) b (omega arith),
                  )
                  (bit_at_cong x (32 * (i + 1) + (t - (32 - k))) (j + t) (omega arith)))
        ])
  where
    or_false : (c : Bool) → (c || false) ≡ c
    or_false true = refl
    or_false false = refl

-- The window test of alloc_pages finds `number` bits clear from bit j on, exactly then.
pub is_window_free_lem :
    (x : Bytes) (number j : ℕ)
    → IsBytes x
    → number ≤ 32
    → (is_window_free x number j ≡ true) ↔ ((t : ℕ) → t < number → bit_at x (j + t) ≡ false)
unfolding is_window_free
is_window_free_lem x number j b h = (
  λ e t k. sym (window_bit x j t b (omega arith)) ∙ low_clear (window x j) number e t k,
  λ all. clear_low (window x j) number (λ t k. window_bit x j t b (omega arith) ∙ all t k),
)
