-- ===== src/Memory/Setup/Pages.antt =====
-- mm/memory.c: what the loops of init_memory do to the pages and the bit map.
use mine_os.Prelude.{
  true, ℕ, zero, suc, ◌+◌, ◌*◌, ◌^◌, ◌<◌, ◌≤◌, ◌==◌, ◌≡◌, ◌≢◌, ◌∙◌, refl, sym, ap, subst, false,
  ◌&&◌, ◌||◌, not, bit_and, bit_or, arith, Bool-cases, inl, inr, ltb, leb, ==_false, ==_iff,
}
use mine_os.Bits.{xor_bit}
use mine_os.Links.{update}
use mine_os.Links.Splice.{update_self, update_ne}
use mine_os.Memory.{Mms, Page, Zone, page_2m_num, page_init, plus}
use mine_os.Memory.Bitmap.{IsBytes, bit_at, bit_set_lem, bit_not_lem}
use mine_os.Memory.{pg_shared}
use mine_os.Memory.Slab.Blocks.{bit_set-IsBytes, bit_not-IsBytes}
use mine_os.Memory.Slab.Init.{kernel_page}
use mine_os.Memory.Setup.{null_zone, init_pages, init_kernel_pages}

-- The pages of a zone that starts at s * 2 MB: their bits are turned, no zone is changed, and the
-- t-th one knows its address.
pub init_pages_bits :
    (n j z s : ℕ) (m : Mms) (q : ℕ)
    → (s + j + n) * 2 ^ 21 ≤ 2 ^ 32
    → bit_at (init_pages n j z (s * 2 ^ 21) m).bits_map q
      ≡ xor_bit (bit_at m.bits_map q) (leb (s + j) q && ltb q (s + j + n))
unfolding init_pages
init_pages_bits zero j z s m q h = ground arith
init_pages_bits (suc n) j z s m q h =
    let at : page_2m_num (plus (s * 2 ^ 21) (2 ^ 21 * j)) ≡ s + j = omega arith in
    init_pages_bits n (j + 1) z s _ q (omega arith)
    ∙ rw (at, bit_not_lem m.bits_map (s + j) q) (ground arith)

pub init_pages_zones : (n j z start : ℕ) (m : Mms) → (init_pages n j z start m).zones ≡ m.zones
unfolding init_pages
init_pages_zones zero j z start m = refl
init_pages_zones (suc n) j z start m = init_pages_zones n (j + 1) z start _

pub init_pages_size :
    (n j z start : ℕ) (m : Mms) → (init_pages n j z start m).zones_size ≡ m.zones_size
unfolding init_pages
init_pages_size zero j z start m = refl
init_pages_size (suc n) j z start m = init_pages_size n (j + 1) z start _

-- A page that is not among them is as before.
pub init_pages_other :
    (n j z s : ℕ) (m : Mms) (q : ℕ)
    → (leb (s + j) q && ltb q (s + j + n)) ≡ false
    → (init_pages n j z (s * 2 ^ 21) m).pages q ≡ m.pages q
unfolding init_pages
init_pages_other zero j z s m q h = refl
init_pages_other (suc n) j z s m q h =
    init_pages_other n (j + 1) z s _ q (ground arith)
    ∙ update_ne m.pages (page_2m_num (s * 2 ^ 21) + j) _ q (λ e. absurd (ground arith))

pub init_pages_page :
    (n j z s : ℕ) (m : Mms) (q : ℕ)
    → (s + j + n) * 2 ^ 21 ≤ 2 ^ 32
    → s + j ≤ q
    → q < s + j + n
    → (((init_pages n j z (s * 2 ^ 21) m).pages q).zone ≡ z)
      × (((init_pages n j z (s * 2 ^ 21) m).pages q).phy_address ≡ q * 2 ^ 21)
unfolding init_pages
init_pages_page zero j z s m q h a b = absurd (omega arith)
init_pages_page (suc n) j z s m q h a b = elim (Bool-cases (q == s + j)) [
  | inl e ↦
      let at : page_2m_num (s * 2 ^ 21) + j ≡ q = omega (arith, (==_iff q (s + j)).0 e) in
      let p : Page = record {
        zone = z;
        phy_address = plus (s * 2 ^ 21) (2 ^ 21 * j);
        attribute = 0;
        reference_count = 0;
      } in
      let found : (init_pages (suc n) j z (s * 2 ^ 21) m).pages q ≡ p =
        init_pages_other n (j + 1) z s _ q (ground arith)
        ∙ ap (λ x. update m.pages x p q) at
        ∙ update_self m.pages q p in
      (ap (λ (x : Page). x.zone) found, ap (λ (x : Page). x.phy_address) found ∙ omega (arith, at))
  | inr e ↦ init_pages_page n (j + 1) z s _ q (omega arith) (ground arith) (omega arith)
]

-- page_init changes the attribute and the count of one page, and one counter of its zone.
pub page_init_kept :
    (m : Mms) (page flags q : ℕ)
    → (((page_init m page flags).pages q).zone ≡ (m.pages q).zone)
      × (((page_init m page flags).pages q).phy_address ≡ (m.pages q).phy_address)
      × ((page_init m page flags).bits_map ≡ m.bits_map)
unfolding page_init
page_init_kept m page flags q =
    let p = m.pages page in
    let attribute = bit_or p.attribute flags in
    elim (Bool-cases (p.reference_count == 0 || not (bit_and attribute pg_shared == 0))) [
      | inl c ↦ rw c (
        same attribute (plus p.reference_count 1) (λ x. x.zone) refl,
        same attribute (plus p.reference_count 1) (λ x. x.phy_address) refl,
        refl,
      )
      | inr c ↦ rw c (
        same attribute p.reference_count (λ x. x.zone) refl,
        same attribute p.reference_count (λ x. x.phy_address) refl,
        refl,
      )
    ]
  where
    new : ℕ → ℕ → Page
    new a r = record (m.pages page) { attribute = a; reference_count = r }

    same :
        (a r : ℕ) (f : Page → ℕ)
        → f (new a r) ≡ f (m.pages page)
        → f (update m.pages page (new a r) q) ≡ f (m.pages q)
    same a r f e = elim (Bool-cases (page == q)) [
      | inl c ↦ rw c (e ∙ ap (λ x. f (m.pages x)) ((==_iff page q).0 c))
      | inr c ↦ rw c refl
    ]

page_init_zones :
    (m : Mms) (page flags z : ℕ)
    → (m.pages page).zone ≢ z
    → (page_init m page flags).zones z ≡ m.zones z
unfolding page_init
page_init_zones m page flags z n =
    let p = m.pages page in
    elim (Bool-cases
      (p.reference_count == 0 || not (bit_and (bit_or p.attribute flags) pg_shared == 0))) [
        | inl c ↦ rw c (update_ne m.zones p.zone _ z n)
        | inr c ↦ rw c refl
      ]

-- Pages that no zone has been given, and that know no address: their loop sets bit 0 alone, and
-- changes no zone but that of the null pointer and no page's zone or address.
pub init_kernel_pages_null :
    (n j : ℕ) (m : Mms)
    → ((q : ℕ) → j ≤ q → q < j + n → ((m.pages q).zone ≡ null_zone) × ((m.pages q).phy_address ≡ 0))
    → ((q : ℕ) → q ≢ 0 → bit_at (init_kernel_pages n j m).bits_map q ≡ bit_at m.bits_map q)
      × ((z : ℕ) → null_zone ≢ z → (init_kernel_pages n j m).zones z ≡ m.zones z)
      × ((q : ℕ)
          → (((init_kernel_pages n j m).pages q).zone ≡ (m.pages q).zone)
            × (((init_kernel_pages n j m).pages q).phy_address ≡ (m.pages q).phy_address))
unfolding init_kernel_pages
init_kernel_pages_null zero j m h = (λ q n. refl, λ z n. refl, λ q. (refl, refl))
init_kernel_pages_null (suc n) j m h =
    let m₁ = page_init m j kernel_page in
    let own = h j (omega arith) (omega arith) in
    let here = page_init_kept m j kernel_page j in
    let r = init_kernel_pages_null n (j + 1) _ (λ q a b.
      let k = page_init_kept m j kernel_page q in
      let o = h q (omega arith) (omega arith) in (k.0 ∙ o.0, k.1 ∙ o.1)) in
    (
      λ q ne.
          r.0 q ne
          ∙ bit_set_lem m₁.bits_map (page_2m_num (m₁.pages j).phy_address) q
          ∙ rw (here.1, own.1, ==_false 0 q (λ e. ne (sym e)), here.2) (ground arith),
      λ z ne.
          r.1 z ne
          ∙ update_ne m₁.zones (m₁.pages j).zone _ z (λ e. ne (sym (here.0 ∙ own.0) ∙ e))
          ∙ page_init_zones m j kernel_page z (λ e. ne (sym own.0 ∙ e)),
      λ q. let k = page_init_kept m j kernel_page q in let o = r.2 q in (o.0 ∙ k.0, o.1 ∙ k.1),
    )

pub init_kernel_pages_add :
    (a b j : ℕ) (m : Mms)
    → init_kernel_pages (a + b) j m ≡ init_kernel_pages b (j + a) (init_kernel_pages a j m)
unfolding init_kernel_pages
init_kernel_pages_add zero b j m =
    ap (λ x. init_kernel_pages x j m) {x = 0 + b} {y = b} (omega arith)
    ∙ ap (λ x. init_kernel_pages b x m) {x = j} {y = j + 0} (omega arith)
init_kernel_pages_add (suc a) b j m =
    ap (λ x. init_kernel_pages x j m) {x = suc a + b} {y = suc (a + b)} (omega arith)
    ∙ init_kernel_pages_add a b (j + 1) _
    ∙ ap (λ x. init_kernel_pages b x (init_kernel_pages (suc a) j m)) {x = j + 1 + a}
        {y = j + suc a} (omega arith)

-- What page_init does not change of a zone.
pub page_init_zone :
    (f : Zone → ℕ) (m : Mms) (page flags z : ℕ)
    → ((v : Zone) (t : ℕ) → f (record v { total_pages_link = t }) ≡ f v)
    → f ((page_init m page flags).zones z) ≡ f (m.zones z)
unfolding page_init
page_init_zone f m page flags z h =
    let p = m.pages page in
    elim (Bool-cases
      (p.reference_count == 0 || not (bit_and (bit_or p.attribute flags) pg_shared == 0))) [
        | inl c ↦ rw c (elim (Bool-cases (p.zone == z)) [
          | inl e ↦ rw e (h (m.zones p.zone) _ ∙ ap (λ x. f (m.zones x)) ((==_iff p.zone z).0 e))
          | inr e ↦ rw e refl
        ])
        | inr c ↦ rw c refl
      ]

-- The indexes of the zones stay, and their number.
pub init_kernel_pages_indexes :
    (n j : ℕ) (m : Mms)
    → ((init_kernel_pages n j m).zone_dma_index ≡ m.zone_dma_index)
      × ((init_kernel_pages n j m).zone_normal_index ≡ m.zone_normal_index)
      × ((init_kernel_pages n j m).zones_size ≡ m.zones_size)
unfolding init_kernel_pages page_init
init_kernel_pages_indexes zero j m = (refl, refl, refl)
init_kernel_pages_indexes (suc n) j m =
    let p = m.pages j in
    let r = init_kernel_pages_indexes n (j + 1) _ in
    elim (Bool-cases
      (p.reference_count == 0 || not (bit_and (bit_or p.attribute kernel_page) pg_shared == 0))) [
        | inl c ↦ (r.0 ∙ rw c refl, r.1 ∙ rw c refl, r.2 ∙ rw c refl)
        | inr c ↦ (r.0 ∙ rw c refl, r.1 ∙ rw c refl, r.2 ∙ rw c refl)
      ]

-- A bit that is set stays so.
pub init_kernel_pages_set :
    (n j : ℕ) (m : Mms) (q : ℕ)
    → bit_at m.bits_map q ≡ true
    → bit_at (init_kernel_pages n j m).bits_map q ≡ true
unfolding init_kernel_pages
init_kernel_pages_set zero j m q e = e
init_kernel_pages_set (suc n) j m q e =
    let m₁ = page_init m j kernel_page in
    init_kernel_pages_set n (j + 1) _ q (
      bit_set_lem m₁.bits_map (page_2m_num (m₁.pages j).phy_address) q
      ∙ rw ((page_init_kept m j kernel_page j).2, e) (ground arith))

pub init_kernel_pages-IsBytes :
    (n j : ℕ) (m : Mms) → IsBytes m.bits_map → IsBytes (init_kernel_pages n j m).bits_map
unfolding init_kernel_pages
init_kernel_pages-IsBytes zero j m b = b
init_kernel_pages-IsBytes (suc n) j m b = init_kernel_pages-IsBytes n (j + 1) _ (
    bit_set-IsBytes (page_init m j kernel_page).bits_map _
      (subst IsBytes (sym (page_init_kept m j kernel_page j).2) b))

pub init_pages-IsBytes :
    (n j z start : ℕ) (m : Mms) → IsBytes m.bits_map → IsBytes (init_pages n j z start m).bits_map
unfolding init_pages
init_pages-IsBytes zero j z start m b = b
init_pages-IsBytes (suc n) j z start m b =
    init_pages-IsBytes n (j + 1) z start _ (bit_not-IsBytes m.bits_map _ b)
