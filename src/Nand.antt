-- ===== src/Nand.antt =====
-- drivers/nand.c: the NAND flash of 2048 bytes and 64 spare bytes a page, and 64 pages a block.
--
-- What the driver does on the bus is a history, the latest operation first. The chip is hardware:
-- what it answers is a function of the history. The loops that wait for it run on fuel, and `none`
-- means that the fuel ran out.
pub mod Address
pub mod Write
pub mod Read
pub mod Contents
use mine_os.Prelude.{
  ℕ, zero, suc, ◌+◌, ◌-◌, ◌*◌, ◌/◌, ◌%◌, ◌^◌, Bool, true, false, not, ◌&&◌, Option, none, some,
  List, [], ◌∷◌, ◌++◌, length, take, ltb, ◌==◌, if◌then◌else◌, bit_and,
}
use mine_os.Prelude.Int.{ℤ, pos, negsuc}

-- `poll` is a read of NFSTAT, and `receive` one of NFDATA.
pub data Op : Type 0 where
  select : Op
  deselect : Op
  command : ℕ → Op
  address : ℕ → Op
  send : ℕ → Op
  receive : Op
  poll : Op

abbrev pub History : Type 0
History = List Op

-- nfdata is what the next read of NFDATA returns, and is_ready the bit 0 of NFSTAT.
pub record Chip : Type 0 where
  pub nfdata : History → ℕ
  pub is_ready : History → Bool

unfoldable pub nand_page : ℕ → History → History
nand_page page h =
    Op.address (page / 2 ^ 16 % 256) ∷ Op.address (page / 2 ^ 8 % 256) ∷ Op.address (page % 256) ∷ h

unfoldable pub nand_col : ℕ → History → History
nand_col col h = Op.address (col / 2 ^ 8 % 256) ∷ Op.address (col % 256) ∷ h

-- The five cycles of an address of 32 bits.
unfoldable pub nand_addr : ℕ → History → History
nand_addr addr h =
    let col = addr % 2048 in
    let page = addr / 2048 in
    Op.address (page / 2 ^ 16 % 256)
    ∷ Op.address (page / 2 ^ 8 % 256)
    ∷ Op.address (page % 256)
    ∷ Op.address (col / 2 ^ 8 % 256)
    ∷ Op.address (col % 256)
    ∷ h

abbrev pub block_to_page : ℕ → ℕ
block_to_page n = n * 2 ^ 6

-- nand_write_data of each byte.
abbrev pub send_all : List ℕ → History → History
send_all [] h = h
send_all (b ∷ bs) h = send_all bs (Op.send b ∷ h)

-- nand_write_data of one byte, n times.
abbrev pub send_same : ℕ → ℕ → History → History
send_same b zero h = h
send_same b (suc n) h = send_same b n (Op.send b ∷ h)

-- What is written: a buffer pointer that may be null.
abbrev pub send_buffer : Option (List ℕ) → History → History
send_buffer none h = h
send_buffer (some bs) h = send_all bs h

-- The return value after the status: -2 for a failure.
abbrev pub result_of : ℕ → ℤ
result_of stat = if bit_and stat 0x1 == 0 then pos 1 else negsuc 1

module _ (chip : Chip) where
  unfoldable pub nand_wait_ready : ℕ → History → Option History
  nand_wait_ready zero h = none
  nand_wait_ready (suc fuel) h =
      let rest = nand_wait_ready fuel (Op.poll ∷ h) in
      if chip.is_ready h then some (Op.poll ∷ h) else rest

  unfoldable pub nand_reset : ℕ → History → Option History
  nand_reset fuel h = elim (nand_wait_ready fuel (Op.command 0xff ∷ Op.select ∷ h)) [
    | none ↦ none
    | some h' ↦ some (Op.deselect ∷ h')
  ]

  -- nand_read_data, n times.
  unfoldable pub receive_n : ℕ → History → List ℕ × History
  receive_n zero h = ([], h)
  receive_n (suc n) h = let (bs, h') = receive_n n (Op.receive ∷ h) in (chip.nfdata h ∷ bs, h')

  -- do { stat = nand_read_data(); } while (!(stat & 0x40));
  unfoldable pub read_status : ℕ → History → Option (ℕ × History)
  read_status zero h = none
  read_status (suc fuel) h =
      let rest = read_status fuel (Op.receive ∷ h) in
      if bit_and (chip.nfdata h) 0x40 == 0 then rest else some (chip.nfdata h, Op.receive ∷ h)

  -- The end of the writes and of the erasure, from the command that starts it.
  unfoldable pub finish : ℕ → ℕ → History → Option (ℤ × History)
  finish fuel cmd h = elim (read_status fuel (Op.command 0x70 ∷ Op.command cmd ∷ h)) [
    | none ↦ none
    | some (stat, h') ↦ some (result_of stat, Op.deselect ∷ h')
  ]

  -- The start of a page read.
  unfoldable pub start_read : ℕ → ℕ → History → Option History
  start_read fuel addr h =
      nand_wait_ready fuel (Op.command 0x30 ∷ nand_addr addr (Op.command 0x00 ∷ Op.select ∷ h))

  -- `true` is 1: a bad block.
  unfoldable pub nand_is_bad_block : ℕ → ℕ → History → Option (Bool × History)
  nand_is_bad_block fuel block_number h =
      let page = block_to_page block_number in
      let h₁ = nand_page page (nand_col 2048 (Op.command 0x00 ∷ Op.select ∷ h)) in
      elim (nand_wait_ready fuel (Op.command 0x30 ∷ h₁)) [
        | none ↦ none
        | some h₂ ↦
            let val1 = chip.nfdata h₂ in
            let val2 = chip.nfdata (Op.receive ∷ h₂) in
            some (not (val1 == 0xff && val2 == 0xff), Op.deselect ∷ Op.receive ∷ Op.receive ∷ h₂)
      ]

  -- The bytes that one round of nand_read stores, when n places of the page and `len` bytes of the
  -- request are left.
  unfoldable pub read_page_part : ℕ → ℕ → History → List ℕ × History
  read_page_part zero len h = ([], h)
  read_page_part (suc n) zero h = ([], h)
  read_page_part (suc n) (suc len) h =
      let (bs, h') = read_page_part n len (Op.receive ∷ h) in (chip.nfdata h ∷ bs, h')

  -- The test at the start of a round: whether the block is skipped.
  unfoldable pub skips_block : ℕ → ℕ → History → Option (Bool × History)
  skips_block fuel addr h =
      if bit_and addr 0x1_ffff == 0 then nand_is_bad_block fuel addr h else some (false, h)

  -- The loop of nand_read with `len` bytes left; it returns the bytes in order.
  unfoldable pub nand_read : ℕ → ℕ → ℕ → History → Option (List ℕ × History)
  nand_read zero addr len h = none
  nand_read (suc fuel) addr len h =
      if len == 0 then some ([], h) else elim (skips_block (suc fuel) addr h) [
        | none ↦ none
        | some (true, h₁) ↦ nand_read fuel ((addr + 2 ^ 17) % 2 ^ 32) len h₁
        | some (false, h₁) ↦ elim (start_read (suc fuel) addr h₁) [
          | none ↦ none
          | some h₂ ↦
              let (bs, h₃) = read_page_part 2048 len h₂ in
              elim (nand_read fuel ((addr + length bs) % 2 ^ 32) (len - length bs)
                (Op.deselect ∷ h₃)) [ none ↦ none | some (rest, h₄) ↦ some (bs ++ rest, h₄) ]
        ]
      ]

  -- The 2048 bytes of a page, of which those before buf_len are stored; n are left, from i on.
  unfoldable pub read_main : ℕ → ℕ → ℕ → History → List ℕ × History
  read_main buf_len zero i h = ([], h)
  read_main buf_len (suc n) i h =
      let (bs, h') = read_main buf_len n (i + 1) (Op.receive ∷ h) in
      ((if ltb i buf_len then chip.nfdata h ∷ bs else bs), h')

  -- A null `buf` stores nothing, as a length of 0 does; likewise a null `spare`.
  unfoldable pub nand_read_page : ℕ → ℕ → ℕ → ℕ → History → Option (List ℕ × List ℕ × History)
  nand_read_page fuel page buf_len spare_len h = elim (start_read fuel (page * 2 ^ 11 % 2 ^ 32) h) [
    | none ↦ none
    | some h₁ ↦
        let (buf, h₂) = read_main buf_len 2048 0 h₁ in
        let (spare, h₃) = receive_n spare_len h₂ in some (buf, spare, Op.deselect ∷ h₃)
  ]

  unfoldable pub nand_read_with_oob : ℕ → ℕ → ℕ → ℕ → History → Option (List ℕ × List ℕ × History)
  nand_read_with_oob fuel page buf_len oob_len h =
      elim (start_read fuel (page * 2 ^ 11 % 2 ^ 32) h) [
        | none ↦ none
        | some h₁ ↦
            let (buf, h₂) = read_main buf_len 2048 0 h₁ in
            let (skipped, h₃) = receive_n 20 h₂ in
            let (oob, h₄) = receive_n oob_len h₃ in some (buf, oob, Op.deselect ∷ h₄)
      ]

  -- buf holds `len` bytes, of which at most a page is written.
  unfoldable pub nand_write : ℕ → List ℕ → ℕ → History → Option (ℤ × History)
  nand_write fuel buf addr h = elim (nand_is_bad_block fuel addr h) [
    | none ↦ none
    | some (true, h₁) ↦ some (negsuc 0, h₁)
    | some (false, h₁) ↦
        finish fuel 0x10
          (send_all (take 2048 buf) (nand_addr addr (Op.command 0x80 ∷ Op.select ∷ h₁)))
  ]

  -- The start of the page writes: the buffer, and the move to the spare bytes after a short one.
  abbrev pub write_main : ℕ → Option (List ℕ) → ℕ → History → History
  write_main page buf buf_len h =
      let h₁ =
        send_buffer buf (nand_addr (page * 2 ^ 11 % 2 ^ 32) (Op.command 0x80 ∷ Op.select ∷ h)) in
      if ltb buf_len 2048 then nand_col 2048 (Op.command 0x85 ∷ h₁) else h₁

  unfoldable pub nand_write_page :
      ℕ → ℕ → Option (List ℕ) → ℕ → Option (List ℕ) → History → Option (ℤ × History)
  nand_write_page fuel page buf buf_len spare h =
      finish fuel 0x10 (send_buffer spare (write_main page buf buf_len h))

  unfoldable pub nand_write_with_oob :
      ℕ → ℕ → Option (List ℕ) → ℕ → Option (List ℕ) → History → Option (ℤ × History)
  nand_write_with_oob fuel page buf buf_len oob h =
      finish fuel 0x10 (send_buffer oob (send_same 0xff 20 (write_main page buf buf_len h)))

  unfoldable pub nand_mark_bad_block : ℕ → ℕ → History → Option (ℤ × History)
  nand_mark_bad_block fuel block_number h =
      nand_write_page fuel (block_to_page block_number) none 2048 (some (0xff ∷ 0xff ∷ [])) h

  unfoldable pub nand_erase_block : ℕ → ℕ → History → Option (ℤ × History)
  nand_erase_block fuel block_number h =
      finish fuel 0xd0 (nand_page (block_number * 2 ^ 6) (Op.command 0x60 ∷ Op.select ∷ h))
