-- ===== src/Tests/Flash.antt =====
-- The theorems on drivers/spi/spi_flash.c, drivers/usbslave/buff.c and drivers/nand.c, the last with a chip that is always ready and answers 0xff.
use mine_os.Prelude.{
  ℕ, zero, suc, ◌+◌, ◌%◌, ◌^◌, ◌∙◌, ap, ltb, if◌then◌else◌, ◌*◌, ◌≡◌, refl, [], ◌∷◌, some, arith,
  true,
}
use mine_os.Prelude.Int.{negsuc}
use mine_os.Nand.{Op, History, Chip, nand_read, nand_write_page}
use mine_os.Nand.Write.{Busy, finished, page_sent, nand_write_page_lem}
use mine_os.Nand.Read.{IsGood, ReadyAt}
use mine_os.Nand.Contents.{receives, found, cells, Holds, nand_read_contents}
use mine_os.SpiFlash.{SpiHistory, Flash}
use mine_os.SpiFlash.Program.{BusyFor}
use mine_os.UsbBuffer.{UsbBuf}

abbrev chip : Chip
chip = record { nfdata = λ h. 0xff; is_ready = λ h. true }

at_once : (h : History) → Busy chip 0 0xff h
at_once h = record { busy = λ i k. absurd (omega arith); ready = refl; answer = refl }

ready_now : (h : History) → ReadyAt chip 0 h
ready_now h = record { busy = λ i k. absurd (omega arith); ready = refl }

nand_write_page_example :
    nand_write_page chip 1 5 (some (1 ∷ 2 ∷ [])) 2 (some (3 ∷ [])) []
    ≡ some (negsuc 1, finished chip 0 0x10 (page_sent chip 5 (1 ∷ 2 ∷ []) (3 ∷ []) []))
nand_write_page_example =
    nand_write_page_lem chip 0 1 0xff 5 (1 ∷ 2 ∷ []) (3 ∷ []) [] (omega arith) (omega arith)
      (omega arith) (at_once _)

chip-IsGood : IsGood chip
chip-IsGood = record { ready = λ h. refl; mark = λ n h. refl; mark₂ = λ n h. refl }

-- A chip that is always ready, with the byte a % 251 at the address a and 0xff in the spare bytes:
-- what it gives after k reads.
answer : ℕ → History → ℕ
answer k (Op.receive ∷ h) = answer (k + 1) h
answer k
      (Op.poll
        ∷ Op.command c
        ∷ Op.address p₂
        ∷ Op.address p₁
        ∷ Op.address p₀
        ∷ Op.address c₁
        ∷ Op.address c₀
        ∷ h) =
    if ltb (c₁ * 256 + c₀) 2048
    then ((p₂ * 2 ^ 16 + p₁ * 2 ^ 8 + p₀) * 2048 + (c₁ * 256 + c₀ + k)) % 251
    else 0xff
answer k h = 0xff

abbrev stored_chip : Chip
stored_chip = record { nfdata = answer 0; is_ready = λ h. true }

stored_chip-IsGood : IsGood stored_chip
unfolding answer mine_os.Nand.nand_page mine_os.Nand.nand_col
stored_chip-IsGood = record { ready = λ h. refl; mark = λ n h. refl; mark₂ = λ n h. refl }

answer-receives : (n k : ℕ) (h : History) → answer k (receives n h) ≡ answer (k + n) h
unfolding answer
answer-receives zero k h = ap (λ j. answer j h) {x = k} {y = k + 0} (omega arith)
answer-receives (suc n) k h =
    answer-receives n k (Op.receive ∷ h)
    ∙ ap (λ j. answer j h) {x = k + n + 1} {y = k + suc n} (omega arith)

stored_chip-Holds : Holds stored_chip (λ a. a % 251)
unfolding answer mine_os.Nand.nand_addr
stored_chip-Holds addr k h small aligned l =
    answer-receives k 0 (found stored_chip (λ a. a % 251) addr h) ∙ ground arith

nand_read_contents_example :
    (h' : History) × (nand_read stored_chip 5000 0x2_0000 3000 []
      ≡ some (cells (λ a. a % 251) 0x2_0000 3000, h'))
nand_read_contents_example =
    nand_read_contents stored_chip (λ a. a % 251) 5000 0x2_0000 3000 [] stored_chip-IsGood
      stored_chip-Holds (omega arith) (λ l. omega arith) (omega arith)

-- A flash that is not busy.
abbrev idle : Flash
idle h = 0

idle-BusyFor : (h : SpiHistory) → BusyFor idle 0 h
idle-BusyFor h = record { busy = λ i k. absurd (omega arith); idle = refl }

abbrev usb : UsbBuf
usb = record { buf = λ i. i * 10; size = 5; count = 2 }
