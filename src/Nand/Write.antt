-- ===== src/Nand/Write.antt =====
-- drivers/nand.c: writing, erasing and marking, with the whole history of the bus.
use mine_os.Prelude.{
  ◌/◌, ◌∙◌, refl, ap, [], if◌then◌else◌, ℕ, zero, suc, ◌*◌, ◌%◌, ◌^◌, ◌<◌, ◌==◌, ◌≡◌, true, false,
  some, List, ◌∷◌, length, arith, bit_and, lt→ltb,
}
use mine_os.Prelude.Int.{pos, negsuc}
use mine_os.Bits.{test_bit, bit_and_pow}
use mine_os.Nand.{
  Op, History, Chip, nand_addr, nand_page, nand_col, block_to_page, send_all, result_of,
  read_status, finish, nand_write_page, nand_mark_bad_block, nand_erase_block,
}

-- The history in which the bytes are written to the data register, the first one first.
abbrev pub bytes_written : List ℕ → History → History
bytes_written [] h = h
bytes_written (b ∷ bs) h = bytes_written bs (Op.send b ∷ h)

send_all_lem : (bs : List ℕ) (h : History) → send_all bs h ≡ bytes_written bs h
send_all_lem [] h = refl
send_all_lem (b ∷ bs) h = send_all_lem bs (Op.send b ∷ h)

-- n reads of the status.
abbrev pub receives : ℕ → History → History
receives zero h = h
receives (suc n) h = receives n (Op.receive ∷ h)

-- After the history h the chip answers n times that it is busy, and then stat.
pub record Busy (chip : Chip) (n stat : ℕ) (h : History) : Type 0 where
  pub busy : (i : ℕ) → i < n → (bit_and (chip.nfdata (receives i h)) 0x40 == 0) ≡ true
  pub ready : (bit_and stat 0x40 == 0) ≡ false
  pub answer : chip.nfdata (receives n h) ≡ stat

module _ (chip : Chip) where
  read_status_lem :
      (n fuel stat : ℕ) (h : History)
      → n < fuel
      → Busy chip n stat h
      → read_status chip fuel h ≡ some (stat, receives (suc n) h)
  unfolding read_status
  read_status_lem n zero stat h k b = absurd (omega arith)
  read_status_lem zero (suc fuel) stat h k b = rw (b.answer, b.ready)
  read_status_lem (suc n) (suc fuel) stat h k b = rw (b.busy 0 (omega arith)) (
      read_status_lem n fuel stat (Op.receive ∷ h) (omega arith)
        (record { busy = λ i l. b.busy (suc i) (omega arith); ready = b.ready; answer = b.answer }))

  abbrev pub finished : ℕ → ℕ → History → History
  finished n cmd h = Op.deselect ∷ receives (suc n) (Op.command 0x70 ∷ Op.command cmd ∷ h)

  finish_lem :
      (n fuel stat cmd : ℕ) (h : History)
      → n < fuel
      → Busy chip n stat (Op.command 0x70 ∷ Op.command cmd ∷ h)
      → finish chip fuel cmd h ≡ some (result_of stat, finished n cmd h)
  unfolding finish
  finish_lem n fuel stat cmd h k b = rw (finish, read_status_lem n fuel stat _ k b)

  -- What a page write with a short buffer sends before the command that starts it: the command
  -- 0x80, column 0 in two cycles, the page in three, the buffer, the command 0x85, column 2048, and
  -- the spare bytes.
  abbrev pub page_sent : ℕ → List ℕ → List ℕ → History → History
  page_sent page buf spare h = bytes_written spare (
      Op.address 8
      ∷ Op.address 0
      ∷ Op.command 0x85
      ∷ bytes_written buf (
          Op.address (page / 2 ^ 16)
          ∷ Op.address (page / 2 ^ 8 % 256)
          ∷ Op.address (page % 256)
          ∷ Op.address 0
          ∷ Op.address 0
          ∷ Op.command 0x80
          ∷ Op.select
          ∷ h))

  address_cycles :
      (page : ℕ) (h : History)
      → page < 2 ^ 21
      → nand_addr (page * 2 ^ 11 % 2 ^ 32) h
        ≡ Op.address (page / 2 ^ 16)
          ∷ Op.address (page / 2 ^ 8 % 256)
          ∷ Op.address (page % 256)
          ∷ Op.address 0
          ∷ Op.address 0
          ∷ h
  unfolding nand_addr
  address_cycles page h small =
      let whole : page * 2 ^ 11 % 2 ^ 32 ≡ page * 2 ^ 11 = omega (arith, small) in
      let col : page * 2 ^ 11 % 2048 ≡ 0 = omega arith in
      let row : page * 2 ^ 11 / 2048 ≡ page = omega arith in
      let top : page / 2 ^ 16 % 256 ≡ page / 2 ^ 16 = omega (arith, small) in
      ap (λ a. nand_addr a h) whole ∙ rw (nand_addr, col, row, top) refl

  coded_page_sent :
      (page : ℕ) (buf spare : List ℕ) (h : History)
      → page < 2 ^ 21
      → send_all spare (
          nand_col 2048 (
            Op.command 0x85
            ∷ send_all buf (nand_addr (page * 2 ^ 11 % 2 ^ 32) (Op.command 0x80 ∷ Op.select ∷ h))))
        ≡ page_sent page buf spare h
  unfolding nand_col
  coded_page_sent page buf spare h small =
      send_all_lem spare _
      ∙ ap (λ t. bytes_written spare (Op.address 8 ∷ Op.address 0 ∷ Op.command 0x85 ∷ t))
          (send_all_lem buf _
            ∙ ap (bytes_written buf) (address_cycles page (Op.command 0x80 ∷ Op.select ∷ h) small))

  result_lem : (stat : ℕ) → result_of stat ≡ (if test_bit stat 0 then negsuc 1 else pos 1)
  result_lem stat = rw (bit_and_pow stat 0) (ground arith)

  -- nand_write_page of one of the first 2 ^ 21 pages, with a buffer shorter than the page: the chip
  -- gets the command 0x80, column 0 and the page, lowest byte first, the buffer in order, the move to
  -- column 2048, the spare bytes, the start and the request of the status; the driver waits as long
  -- as the chip is busy, deselects it, and returns -2 where bit 0 of the status is set, and else 1.
  pub nand_write_page_lem :
      (n fuel stat page : ℕ) (buf spare : List ℕ) (h : History)
      → length buf < 2048
      → page < 2 ^ 21
      → n < fuel
      → Busy chip n stat (Op.command 0x70 ∷ Op.command 0x10 ∷ page_sent page buf spare h)
      → nand_write_page chip fuel page (some buf) (length buf) (some spare) h
        ≡ some (
          if test_bit stat 0 then negsuc 1 else pos 1,
          finished n 0x10 (page_sent page buf spare h),
        )
  unfolding nand_write_page
  nand_write_page_lem n fuel stat page buf spare h short small k b =
      rw (lt→ltb (length buf) 2048 short) (
        ap (finish chip fuel 0x10) (coded_page_sent page buf spare h small)
        ∙ finish_lem n fuel stat 0x10 _ k b
        ∙ ap (λ r. some (r, finished n 0x10 (page_sent page buf spare h))) (result_lem stat))

  -- nand_erase_block sends the page number of the block in three cycles and returns -2 exactly when
  -- bit 0 of the status is set.
  pub nand_erase_block_lem :
      (n fuel stat block_number : ℕ) (h : History)
      → n < fuel
      → let sent = nand_page (block_number * 2 ^ 6) (Op.command 0x60 ∷ Op.select ∷ h) in
        Busy chip n stat (Op.command 0x70 ∷ Op.command 0xd0 ∷ sent)
        → nand_erase_block chip fuel block_number h ≡ some (result_of stat, finished n 0xd0 sent)
  unfolding nand_erase_block
  nand_erase_block_lem n fuel stat block_number h k b = finish_lem n fuel stat 0xd0 _ k b

  -- nand_mark_bad_block sends two bytes 0xff at column 0 of the first page of the block, with no
  -- move to the spare bytes: no byte other than 0xff is sent.
  nand_mark_bad_block_lem :
      (n fuel stat block_number : ℕ) (h : History)
      → n < fuel
      → let sent =
          Op.send 0xff
          ∷ Op.send 0xff
          ∷ nand_addr
              (block_to_page block_number * 2 ^ 11 % 2 ^ 32)
              (Op.command 0x80 ∷ Op.select ∷ h) in
        Busy chip n stat (Op.command 0x70 ∷ Op.command 0x10 ∷ sent)
        → nand_mark_bad_block chip fuel block_number h ≡ some (result_of stat, finished n 0x10 sent)
  unfolding nand_mark_bad_block nand_write_page
  nand_mark_bad_block_lem n fuel stat block_number h k b = finish_lem n fuel stat 0x10 _ k b
