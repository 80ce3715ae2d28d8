-- ===== src/Nand/Read.antt =====
-- drivers/nand.c: the bad block test and the read of a range.
use mine_os.Prelude.{
  ℕ, zero, suc, ◌+◌, ◌-◌, ◌%◌, ◌^◌, ◌<◌, ◌==◌, ◌≡◌, ◌≢◌, refl, ap, ◌∙◌, Bool, true, false, not,
  ◌&&◌, some, List, [], ◌∷◌, ◌++◌, length, length-append, min, arith, bit_and, Bool-cases, inl, inr,
  ==_false,
}
use mine_os.Nand.{
  Op, History, Chip, nand_wait_ready, nand_is_bad_block, nand_page, nand_col, block_to_page,
  start_read, read_page_part, skips_block, nand_read,
}

-- n reads of NFSTAT.
abbrev pub polls : ℕ → History → History
polls zero h = h
polls (suc n) h = polls n (Op.poll ∷ h)

-- After the history h the chip is ready at the read n of NFSTAT, counted from 0, and not before.
pub record ReadyAt (chip : Chip) (n : ℕ) (h : History) : Type 0 where
  pub busy : (i : ℕ) → i < n → chip.is_ready (polls i h) ≡ false
  pub ready : chip.is_ready (polls n h) ≡ true

module _ (chip : Chip) where
  pub nand_wait_ready_lem :
      (n fuel : ℕ) (h : History)
      → n < fuel
      → ReadyAt chip n h
      → nand_wait_ready chip fuel h ≡ some (polls (suc n) h)
  unfolding nand_wait_ready
  nand_wait_ready_lem n zero h k r = absurd (omega arith)
  nand_wait_ready_lem zero (suc fuel) h k r = rw r.ready
  nand_wait_ready_lem (suc n) (suc fuel) h k r = rw (r.busy 0 (omega arith)) (
      nand_wait_ready_lem n fuel (Op.poll ∷ h) (omega arith)
        (record { busy = λ i l. r.busy (suc i) (omega arith); ready = r.ready }))

  -- nand_is_bad_block reads the first two spare bytes of the first page of the block, as soon as
  -- the chip is ready, and the block is bad exactly when one of them is not 0xff.
  nand_is_bad_block_lem :
      (n fuel block_number : ℕ) (h : History)
      → n < fuel
      → let asked =
          Op.command 0x30
          ∷ nand_page
              (block_to_page block_number)
              (nand_col 2048 (Op.command 0x00 ∷ Op.select ∷ h)) in
        ReadyAt chip n asked
        → let h' = polls (suc n) asked in
          (bad : Bool) × (nand_is_bad_block chip fuel block_number h
            ≡ some (bad, Op.deselect ∷ Op.receive ∷ Op.receive ∷ h'))
          × (bad ≡ not (chip.nfdata h' == 0xff && chip.nfdata (Op.receive ∷ h') == 0xff))
  unfolding nand_is_bad_block
  nand_is_bad_block_lem n fuel block_number h k r =
      (_, rw (nand_is_bad_block, nand_wait_ready_lem n fuel _ k r), refl)

  pub length-read_page_part :
      (n len : ℕ) (h : History) → length (read_page_part chip n len h).0 ≡ min n len
  unfolding read_page_part
  length-read_page_part zero len h = omega arith
  length-read_page_part (suc n) zero h = omega arith
  length-read_page_part (suc n) (suc len) h =
      omega (arith, length-read_page_part n len (Op.receive ∷ h))

  -- What the driver sends to ask for the marks of a block.
  abbrev pub asked : ℕ → History → History
  asked block_number h =
      Op.command 0x30
      ∷ nand_page (block_to_page block_number) (nand_col 2048 (Op.command 0x00 ∷ Op.select ∷ h))

  -- The chip is ready at once, and the marks of every block are 0xff.
  pub record IsGood : Type 0 where
    pub ready : (h : History) → chip.is_ready h ≡ true
    pub mark : (n : ℕ) (h : History) → chip.nfdata (polls 1 (asked n h)) ≡ 0xff
    pub mark₂ : (n : ℕ) (h : History) → chip.nfdata (Op.receive ∷ polls 1 (asked n h)) ≡ 0xff

  pub ready_now : IsGood → (h : History) → ReadyAt chip 0 h
  ready_now g h = record { busy = λ i k. absurd (omega arith); ready = g.ready h }

  pub skips_none :
      (fuel addr : ℕ) (h : History)
      → IsGood
      → (h' : History) × (skips_block chip (suc fuel) addr h ≡ some (false, h'))
  unfolding skips_block
  skips_none fuel addr h g = elim (Bool-cases (bit_and addr 0x1_ffff == 0)) [
    | inr b ↦ (h, rw b)
    | inl b ↦
        let h' : History = Op.deselect ∷ Op.receive ∷ Op.receive ∷ polls 1 (asked addr h) in
        let (bad, done, is) =
          nand_is_bad_block_lem 0 (suc fuel) addr h (omega arith) (ready_now g (asked addr h)) in
        let good : bad ≡ false = is ∙ rw (g.mark addr h, g.mark₂ addr h) in
        (h', rw (skips_block, b) (done ∙ ap (λ (x : Bool). some (x, h')) good))
  ]

  start_now :
      (fuel addr : ℕ) (h : History)
      → IsGood
      → (h' : History) × (start_read chip (suc fuel) addr h ≡ some h')
  unfolding start_read
  start_now fuel addr h g = (_, nand_wait_ready_lem 0 (suc fuel) _ (omega arith) (ready_now g _))

  pub read_round :
      (fuel addr len : ℕ) (h h₁ h₂ h₄ : History) (rest : List ℕ)
      → len ≢ 0
      → skips_block chip (suc fuel) addr h ≡ some (false, h₁)
      → start_read chip (suc fuel) addr h₁ ≡ some h₂
      → let part = read_page_part chip 2048 len h₂ in
        nand_read chip fuel
            ((addr + length part.0) % 2 ^ 32)
            (len - length part.0)
            (Op.deselect ∷ part.1)
          ≡ some (rest, h₄)
        → nand_read chip (suc fuel) addr len h ≡ some (part.0 ++ rest, h₄)
  unfolding nand_read
  read_round fuel addr len h h₁ h₂ h₄ rest ne e f g = rw (nand_read, ==_false len 0 ne, e, f, g)

  -- With a chip that is ready at once and blocks that are all marked good, nand_read ends and
  -- stores exactly `len` bytes; fuel above `len` is enough.
  nand_read_lem :
      (fuel addr len : ℕ) (h : History)
      → IsGood
      → len < fuel
      → (bytes : List ℕ) × (h' : History) × (nand_read chip fuel addr len h ≡ some (bytes, h'))
        × (length bytes ≡ len)
  unfolding nand_read
  nand_read_lem zero addr len h g k = absurd (omega arith)
  nand_read_lem (suc fuel) addr zero h g k = ([], h, refl, refl)
  nand_read_lem (suc fuel) addr (suc len) h g k =
      let (h₁, e) = skips_none fuel addr h g in
      let (h₂, f) = start_now fuel addr h₁ g in
      let part = read_page_part chip 2048 (suc len) h₂ in
      let size : length part.0 ≡ min 2048 (suc len) = length-read_page_part 2048 (suc len) h₂ in
      let (rest, h₄, done, all) =
        nand_read_lem fuel ((addr + length part.0) % 2 ^ 32) (suc len - length part.0)
          (Op.deselect ∷ part.1) g (omega (arith, size)) in
      (
        part.0 ++ rest,
        h₄,
        read_round fuel addr (suc len) h h₁ h₂ h₄ rest (omega arith) e f done,
        omega (arith, length-append part.0 rest, size, all),
      )
