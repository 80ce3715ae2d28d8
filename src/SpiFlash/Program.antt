-- ===== src/SpiFlash/Program.antt =====
-- drivers/spi/spi_flash.c: programming, erasing and the protection bits.
use mine_os.Prelude.{
  ℕ, zero, suc, ◌+◌, ◌*◌, ◌/◌, ◌%◌, ◌^◌, ◌<◌, ◌==◌, ◌≡◌, refl, true, false, some, List, ◌∷◌, arith,
  bit_and,
}
use mine_os.Bits.Clear.{bit_and_mask}
use mine_os.SpiFlash.{
  SpiOp, SpiHistory, Flash, spi_flash_send_addr, spi_flash_write_enable, send_bytes,
  read_status_reg, spi_flash_read_status_reg1, spi_flash_wait_when_busy, spi_flash_program,
}

-- The three bytes of an address of 24 bits, the highest first.
pub spi_flash_send_addr_lem :
    (addr : ℕ) (h : SpiHistory)
    → addr < 2 ^ 24
    → (b₂ : ℕ) × (b₁ : ℕ) × (b₀ : ℕ) × (spi_flash_send_addr addr h
        ≡ SpiOp.send_byte b₀ ∷ SpiOp.send_byte b₁ ∷ SpiOp.send_byte b₂ ∷ h)
      × (65536 * b₂ + 256 * b₁ + b₀ ≡ addr)
unfolding spi_flash_send_addr
spi_flash_send_addr_lem addr h b = (
  addr / 2 ^ 16 % 256,
  addr / 2 ^ 8 % 256,
  bit_and addr 0xff % 256,
  refl,
  omega (arith, bit_and_mask addr 8),
)

module _ (flash : Flash) where
  -- n reads of the first status register.
  abbrev pub asked : ℕ → SpiHistory → SpiHistory
  asked zero h = h
  asked (suc n) h = asked n (read_status_reg flash 0x05 h).1

  -- The answer to the read of the status after the history h.
  abbrev pub status_after : SpiHistory → ℕ
  status_after h = (read_status_reg flash 0x05 h).0

  -- After the history h the flash answers n times that it is busy, and then that it is not.
  pub record BusyFor (n : ℕ) (h : SpiHistory) : Type 0 where
    pub busy : (i : ℕ) → i < n → (bit_and (status_after (asked i h)) 1 == 0) ≡ false
    pub idle : (bit_and (status_after (asked n h)) 1 == 0) ≡ true

  wait_lem :
      (n fuel : ℕ) (h : SpiHistory)
      → n < fuel
      → BusyFor n h
      → spi_flash_wait_when_busy flash fuel h ≡ some (asked (suc n) h)
  unfolding spi_flash_wait_when_busy spi_flash_read_status_reg1
  wait_lem n zero h k b = absurd (omega arith)
  wait_lem zero (suc fuel) h k b = rw b.idle
  wait_lem (suc n) (suc fuel) h k b = rw (b.busy 0 (omega arith)) (
      wait_lem n fuel (asked 1 h) (omega arith)
        (record { busy = λ i l. b.busy (suc i) (omega arith); idle = b.idle }))

  -- The history after a program command.
  abbrev pub programmed : ℕ → List ℕ → SpiHistory → SpiHistory
  programmed addr buf h =
      SpiOp.chip_select 1
      ∷ send_bytes buf (
          spi_flash_send_addr addr (
            SpiOp.send_byte 0x02
            ∷ SpiOp.chip_select 0
            ∷ SpiOp.chip_select 1
            ∷ SpiOp.send_byte 0x06
            ∷ SpiOp.chip_select 0
            ∷ h))

  -- SPIFlashProgram enables writing, sends the command, the address and the buffer while the flash
  -- is selected, and reads the status until the flash is no longer busy.
  spi_flash_program_lem :
      (n fuel addr : ℕ) (buf : List ℕ) (h : SpiHistory)
      → n < fuel
      → BusyFor n (programmed addr buf h)
      → spi_flash_program flash fuel addr buf h ≡ some (asked (suc n) (programmed addr buf h))
  unfolding spi_flash_program spi_flash_write_enable
  spi_flash_program_lem n fuel addr buf h k b = wait_lem n fuel (programmed addr buf h) k b
