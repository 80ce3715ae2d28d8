-- ===== src/Mmu/Map.antt =====
-- mm/mmu.c: where the page table leads an address.
use mine_os.Prelude.{
  ℕ, zero, suc, ◌+◌, ◌-◌, ◌*◌, ◌/◌, ◌%◌, ◌^◌, ◌<◌, ◌≤◌, ◌==◌, ◌≡◌, ◌∙◌, refl, ap, Bool, ◌&&◌, ◌||◌,
  arith, if◌then◌else◌, Bool-cases, inl, inr, ltb, leb, ==_iff, lt→ltb, le→leb, ltb→lt, Option,
  some, none,
}
use mine_os.Mmu.{
  Access, PageTable, section, set_one_section, set_sections, set_section, cached, uncached,
  create_page_table, word_of,
}

-- The walk of the first-level table: a descriptor that ends in the bits 10 is a section, whose base
-- is its top 12 bits.
abbrev pub translate : PageTable → ℕ → Option ℕ
translate t va =
    let word = word_of (t (va / 2 ^ 20)) in
    if word % 4 == 2 then some (word / 2 ^ 20 * 2 ^ 20 + va % 2 ^ 20) else none

-- The table after the n sections from the number a on lead to those from b on.
abbrev pub filled : ℕ → ℕ → ℕ → Access → PageTable → PageTable
filled a b n access t q =
    if leb a q && ltb q (a + n) then section ((b + (q - a)) * 2 ^ 20) access else t q

section_word :
    (b : ℕ) (access : Access)
    → b < 2 ^ 12
    → (word_of (section (b * 2 ^ 20) access) % 4 ≡ 2)
      × (word_of (section (b * 2 ^ 20) access) / 2 ^ 20 ≡ b)
unfolding section
section_word b access h = (omega arith, omega arith)

at_quotient : (a : ℕ) → a * 2 ^ 20 / 2 ^ 20 ≡ a
at_quotient a = omega arith

filled-suc :
    (a b n : ℕ) (access : Access) (t : PageTable) (q : ℕ)
    → filled (a + 1) (b + 1) n access (set_one_section (a * 2 ^ 20) (b * 2 ^ 20) access t) q
      ≡ filled a b (suc n) access t q
unfolding set_one_section
filled-suc a b n access t q = elim (Bool-cases (a == q)) [
  | inl e ↦ rw (at_quotient a, e) (ground (arith, at_first ((==_iff a q).0 e)))
  | inr e ↦ elim (Bool-cases (ltb a q)) [
    | inl l ↦ rw (at_quotient a, e) (ground (arith, later (ltb→lt a q l)))
    | inr l ↦ rw (at_quotient a, e) (ground arith)
  ]
]
  where
    at_first : a ≡ q → section (b * 2 ^ 20) access ≡ section ((b + (q - a)) * 2 ^ 20) access
    at_first e = ap (λ (k : ℕ). section (k * 2 ^ 20) access) (omega arith)

    later :
        a < q
        → section ((b + 1 + (q - (a + 1))) * 2 ^ 20) access
          ≡ section ((b + (q - a)) * 2 ^ 20) access
    later l = ap (λ (k : ℕ). section (k * 2 ^ 20) access) (omega arith)

-- The loop from the sections a and b on, where it has not left the top of the address space.
loop_lem :
    (a₀ b₀ a b n v p : ℕ) (access : Access) (t : PageTable)
    → a₀ ≤ a
    → b₀ ≤ b
    → a + n ≤ 2 ^ 12
    → b + n ≤ 2 ^ 12
    → (0 < n → (v ≡ a * 2 ^ 20) × (p ≡ b * 2 ^ 20))
    → (t' : PageTable) × (set_sections (a₀ * 2 ^ 20) (b₀ * 2 ^ 20) access n v p t ≡ some t')
      × ((q : ℕ) → t' q ≡ filled a b n access t q)
unfolding set_sections
loop_lem a₀ b₀ a b zero v p access t ha hb la lb at = (t, refl, λ q. ground arith)
loop_lem a₀ b₀ a b (suc n) v p access t ha hb la lb at =
    let at' = at (omega arith) in
    let (t', e, f) =
      loop_lem a₀ b₀ (a + 1) (b + 1) n ((v + 2 ^ 20) % 2 ^ 32) ((p + 2 ^ 20) % 2 ^ 32) access
        (set_one_section v p access t) (omega arith) (omega arith) (omega arith) (omega arith)
        (λ l. (omega (arith, at'.0), omega (arith, at'.1))) in
    (
      t',
      rw
          (
            le→leb (a₀ * 2 ^ 20) v (omega (arith, at'.0)),
            le→leb (b₀ * 2 ^ 20) p (omega (arith, at'.1)),
          )
          e,
      λ q. f q ∙ rw (at'.0, at'.1) (filled-suc a b n access t q),
    )

-- `set_section`, for addresses of sections a and b and a positive count with which neither range
-- leaves the address space, meets no failed assertion and leads the sections from a on to those
-- from b on, leaving every other entry alone.
set_section_lem :
    (a b n : ℕ) (access : Access) (t : PageTable)
    → 0 < n
    → a + n ≤ 2 ^ 12
    → b + n ≤ 2 ^ 12
    → (t' : PageTable) × (set_section (a * 2 ^ 20) (b * 2 ^ 20) n access t ≡ some t')
      × ((q : ℕ) → t' q ≡ filled a b n access t q)
unfolding set_section
set_section_lem a b n access t h la lb =
    rw
      (
        (==_iff (a * 2 ^ 20 % 2 ^ 20) 0).1 (omega arith),
        (==_iff (b * 2 ^ 20 % 2 ^ 20) 0).1 (omega arith),
        lt→ltb 0 n h,
      )
      (loop_lem a b a b n (a * 2 ^ 20) (b * 2 ^ 20) access t (omega arith) (omega arith) la lb
        (λ l. (refl, refl)))

translate_cong :
    (t t' : PageTable) (va : ℕ)
    → t' (va / 2 ^ 20) ≡ t (va / 2 ^ 20)
    → translate t' va ≡ translate t va
translate_cong t t' va e =
    ap (λ s. if word_of s % 4 == 2 then some (word_of s / 2 ^ 20 * 2 ^ 20 + va % 2 ^ 20) else none)
      e

in_sections :
    (a n va : ℕ)
    → (leb (a * 2 ^ 20) va && ltb va ((a + n) * 2 ^ 20))
      ≡ (leb a (va / 2 ^ 20) && ltb (va / 2 ^ 20) (a + n))
in_sections a n va = ground arith

-- The walk after the n sections from a on lead to those from b on.
translate-filled :
    (a b n va : ℕ) (access : Access) (t t' : PageTable)
    → b + n ≤ 2 ^ 12
    → ((q : ℕ) → t' q ≡ filled a b n access t q)
    → translate t' va ≡ (
        if leb (a * 2 ^ 20) va && ltb va ((a + n) * 2 ^ 20)
        then some (va - a * 2 ^ 20 + b * 2 ^ 20)
        else translate t va)
translate-filled a b n va access t t' lb f =
    translate_cong (filled a b n access t) t' va (f (va / 2 ^ 20))
    ∙ (elim (Bool-cases (leb a (va / 2 ^ 20) && ltb (va / 2 ^ 20) (a + n))) [
      | inl c ↦
          let w = section_word (b + (va / 2 ^ 20 - a)) access (ground arith) in
          rw (in_sections a n va, c, w.0, w.1) (ap (λ (k : ℕ). some k) (ground arith))
      | inr c ↦ rw (in_sections a n va, c)
    ])

-- The addresses that the kernel maps: the first megabyte, the registers, the memory, bank 4, and
-- the last megabyte.
abbrev pub is_mapped : ℕ → Bool
is_mapped va =
    ltb va 0x10_0000
    || (leb 0x4800_0000 va && ltb va 0x6000_0000)
    || (leb 0x3000_0000 va && ltb va 0x3400_0000)
    || (leb 0x2000_0000 va && ltb va 0x2010_0000)
    || (leb 0xfff0_0000 va && ltb va 0x1_0000_0000)

all_regions :
    (va : ℕ) (o : Option ℕ)
    → (if leb (0xfff * 2 ^ 20) va && ltb va ((0xfff + 1) * 2 ^ 20)
        then some (va - 0xfff * 2 ^ 20 + 0x33f * 2 ^ 20)
        else (if leb (0x200 * 2 ^ 20) va && ltb va ((0x200 + 1) * 2 ^ 20)
            then some (va - 0x200 * 2 ^ 20 + 0x200 * 2 ^ 20)
            else (if leb (0x300 * 2 ^ 20) va && ltb va ((0x300 + 0x40) * 2 ^ 20)
                then some (va - 0x300 * 2 ^ 20 + 0x300 * 2 ^ 20)
                else (if leb (0x480 * 2 ^ 20) va && ltb va ((0x480 + 0x180) * 2 ^ 20)
                    then some (va - 0x480 * 2 ^ 20 + 0x480 * 2 ^ 20)
                    else (if leb (0 * 2 ^ 20) va && ltb va ((0 + 1) * 2 ^ 20)
                        then some (va - 0 * 2 ^ 20 + 0 * 2 ^ 20)
                        else o)))))
      ≡ (if is_mapped va
          then some (if leb 0xfff0_0000 va then va - 0xfff0_0000 + 0x33f0_0000 else va)
          else o)
all_regions va o = ground arith

-- The page table that the kernel starts with leads every mapped address to itself, but the last
-- megabyte, which holds the vectors, to the one at 0x33f00000; no assertion fails, and what the
-- table says of other addresses stays as it was.
pub create_page_table_lem :
    (t : PageTable)
    → (t' : PageTable) × (create_page_table t ≡ some t')
      × ((va : ℕ)
          → translate t' va ≡ (
              if is_mapped va
              then some (if leb 0xfff0_0000 va then va - 0xfff0_0000 + 0x33f0_0000 else va)
              else translate t va))
unfolding create_page_table
create_page_table_lem t =
    let (t₁, e₁, f₁) = set_section_lem 0 0 1 cached t (omega arith) (omega arith) (omega arith) in
    let (t₂, e₂, f₂) =
      set_section_lem 0x480 0x480 0x180 uncached t₁ (omega arith) (omega arith) (omega arith) in
    let (t₃, e₃, f₃) =
      set_section_lem 0x300 0x300 0x40 cached t₂ (omega arith) (omega arith) (omega arith) in
    let (t₄, e₄, f₄) =
      set_section_lem 0x200 0x200 1 uncached t₃ (omega arith) (omega arith) (omega arith) in
    let (t₅, e₅, f₅) =
      set_section_lem 0xfff 0x33f 1 cached t₄ (omega arith) (omega arith) (omega arith) in
    (
      t₅,
      rw (e₁, e₂, e₃, e₄) e₅,
      λ va.
          translate-filled 0xfff 0x33f 1 va cached t₄ t₅ (omega arith) f₅
          ∙ rw
              (
                translate-filled 0x200 0x200 1 va uncached t₃ t₄ (omega arith) f₄,
                translate-filled 0x300 0x300 0x40 va cached t₂ t₃ (omega arith) f₃,
                translate-filled 0x480 0x480 0x180 va uncached t₁ t₂ (omega arith) f₂,
                translate-filled 0 0 1 va cached t t₁ (omega arith) f₁,
              )
              (all_regions va (translate t va)),
    )
