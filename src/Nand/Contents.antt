-- ===== src/Nand/Contents.antt =====
-- drivers/nand.c: the bytes that nand_read stores.
use mine_os.Prelude.{
  ℕ, zero, suc, ◌+◌, ◌-◌, ◌%◌, ◌^◌, ◌<◌, ◌≤◌, ◌≡◌, ◌∙◌, refl, sym, ap, some, List, [], ◌∷◌, ◌++◌,
  length, min, arith,
}
use mine_os.Nand.{Op, History, Chip, nand_addr, start_read, read_page_part, nand_read}
use mine_os.Nand.Read.{
  IsGood, nand_wait_ready_lem, length-read_page_part, ready_now, skips_none, read_round,
}

-- n reads of NFDATA.
abbrev pub receives : ℕ → History → History
receives zero h = h
receives (suc n) h = receives n (Op.receive ∷ h)

-- n bytes of the flash, from the address a on.
abbrev pub cells : (ℕ → ℕ) → ℕ → ℕ → List ℕ
cells cell a zero = []
cells cell a (suc n) = cell a ∷ cells cell (a + 1) n

cells_add :
    (cell : ℕ → ℕ) (a m n : ℕ) → cells cell a (m + n) ≡ cells cell a m ++ cells cell (a + m) n
cells_add cell a zero n =
    ap (cells cell a) {x = 0 + n} {y = n} (omega arith)
    ∙ ap (λ b. cells cell b n) {x = a} {y = a + 0} (omega arith)
cells_add cell a (suc m) n =
    ap (cells cell a) {x = suc m + n} {y = suc (m + n)} (omega arith)
    ∙ ap (λ bs. cell a ∷ bs)
        (cells_add cell (a + 1) m n
          ∙ ap (λ b. cells cell (a + 1) m ++ cells cell b n) {x = a + 1 + m} {y = a + suc m}
              (omega arith))

cells_at : (cell : ℕ → ℕ) (a b n : ℕ) → (0 < n → a ≡ b) → cells cell a n ≡ cells cell b n
cells_at cell a b zero e = refl
cells_at cell a b (suc n) e = ap (λ c. cells cell c (suc n)) (e (omega arith))

module _ (chip : Chip) (cell : ℕ → ℕ) where
  -- The state of the bus when the chip has found the page of an address.
  abbrev pub found : ℕ → History → History
  found addr h = Op.poll ∷ Op.command 0x30 ∷ nand_addr addr (Op.command 0x00 ∷ Op.select ∷ h)

  -- From the start of a page on the chip gives the bytes of the page, whatever came before.
  abbrev pub Holds : Type 0
  Holds =
      (addr k : ℕ) (h : History)
      → addr < 2 ^ 32
      → addr % 2048 ≡ 0
      → k < 2048
      → chip.nfdata (receives k (found addr h)) ≡ cell (addr + k)

  part_cells :
      (n len a : ℕ) (h : History)
      → ((k : ℕ) → k < n → chip.nfdata (receives k h) ≡ cell (a + k))
      → (read_page_part chip n len h).0 ≡ cells cell a (min n len)
  unfolding read_page_part
  part_cells zero len a h e = ap (cells cell a) {x = 0} {y = min 0 len} (omega arith)
  part_cells (suc n) zero a h e = ap (cells cell a) {x = 0} {y = min (suc n) 0} (omega arith)
  part_cells (suc n) (suc len) a h e =
      let rest =
        part_cells n len (a + 1) (Op.receive ∷ h) (λ k l.
          e (suc k) (omega arith) ∙ ap cell {x = a + suc k} {y = a + 1 + k} (omega arith)) in
      ap (λ b. b ∷ (read_page_part chip n len (Op.receive ∷ h)).0)
        (e 0 (omega arith) ∙ ap cell {x = a + 0} {y = a} (omega arith))
      ∙ ap (λ bs. cell a ∷ bs) rest
      ∙ ap (cells cell a) {x = suc (min n len)} {y = min (suc n) (suc len)} (omega arith)

  start_at :
      (fuel addr : ℕ) (h : History)
      → IsGood chip
      → start_read chip (suc fuel) addr h ≡ some (found addr h)
  unfolding start_read
  start_at fuel addr h g =
      nand_wait_ready_lem chip 0 (suc fuel) _ (omega arith) (ready_now chip g _)

  -- With a chip that is ready at once, whose blocks are all marked good and that holds `cell`,
  -- nand_read from the start of a page on ends and stores the `len` bytes from there on, over as many
  -- pages and blocks as there are; fuel above `len` is enough.
  pub nand_read_contents :
      (fuel addr len : ℕ) (h : History)
      → IsGood chip
      → Holds
      → len < fuel
      → (0 < len → addr % 2048 ≡ 0)
      → addr + len ≤ 2 ^ 32
      → (h' : History) × (nand_read chip fuel addr len h ≡ some (cells cell addr len, h'))
  unfolding nand_read
  nand_read_contents zero addr len h g c k aligned fits = absurd (omega arith)
  nand_read_contents (suc fuel) addr zero h g c k aligned fits = (h, refl)
  nand_read_contents (suc fuel) addr (suc len) h g c k aligned fits =
      let (h₁, e) = skips_none chip fuel addr h g in
      let part = read_page_part chip 2048 (suc len) (found addr h₁) in
      let n = min 2048 (suc len) in
      let size : length part.0 ≡ n = length-read_page_part chip 2048 (suc len) (found addr h₁) in
      let a' = (addr + length part.0) % 2 ^ 32 in
      let r = suc len - length part.0 in
      let (h₄, done) =
        nand_read_contents fuel a' r (Op.deselect ∷ part.1) g c (omega (arith, size))
          (λ more. omega (arith, size, more, aligned (omega arith))) (omega (arith, size)) in
      (
        h₄,
        read_round chip fuel addr (suc len) h h₁ (found addr h₁) h₄ _ (omega arith) e
              (start_at fuel addr h₁ g) done
            ∙ ap (λ bs. some (bs, h₄))
                (ap (λ bs. bs ++ cells cell a' r)
                    (part_cells 2048 (suc len) addr (found addr h₁)
                      (λ i l. c addr i h₁ (omega arith) (aligned (omega arith)) l))
                  ∙ ap (λ bs. cells cell addr n ++ bs)
                      (cells_at cell a' (addr + n) r (λ more. omega (arith, size, more)))
                  ∙ sym (cells_add cell addr n r)
                  ∙ ap (cells cell addr) {x = n + r} {y = suc len} (omega (arith, size))),
      )
