-- ===== src/SpiFlash.antt =====
-- drivers/spi/spi_flash.c: the commands of the SPI flash.
--
-- What the driver does on the bus is a history, the latest operation first, and what the flash
-- answers is a function of the history. The wait for the end of a write runs on fuel, and `none`
-- means that the fuel ran out.
pub mod Program
use mine_os.Prelude.{
  ℕ, zero, suc, ◌+◌, ◌*◌, ◌/◌, ◌%◌, ◌^◌, Bool, true, false, Option, none, some, List, [], ◌∷◌, ◌==◌,
  if◌then◌else◌, bit_and,
}
use mine_os.Bits.Clear.{complement}

-- `chip_select` is the level of the pin, low for a selected flash.
pub data SpiOp : Type 0 where
  chip_select : ℕ → SpiOp
  send_byte : ℕ → SpiOp
  recv_byte : SpiOp

abbrev pub SpiHistory : Type 0
SpiHistory = List SpiOp

-- The answer to a SPIRecvByte after a history.
abbrev pub Flash : Type 0
Flash = SpiHistory → ℕ

-- SPISendByte takes a byte.
abbrev pub spi_send_byte : ℕ → SpiHistory → SpiHistory
spi_send_byte val h = SpiOp.send_byte (val % 256) ∷ h

unfoldable pub spi_flash_send_addr : ℕ → SpiHistory → SpiHistory
spi_flash_send_addr addr h =
    spi_send_byte (bit_and addr 0xff)
      (spi_send_byte (addr / 2 ^ 8) (spi_send_byte (addr / 2 ^ 16) h))

unfoldable pub spi_flash_write_enable : Bool → SpiHistory → SpiHistory
spi_flash_write_enable enable h =
    if enable
    then SpiOp.chip_select 1 ∷ spi_send_byte 0x06 (SpiOp.chip_select 0 ∷ h)
    else SpiOp.chip_select 1 ∷ spi_send_byte 0x04 (SpiOp.chip_select 0 ∷ h)

-- The loop that sends a buffer.
abbrev pub send_bytes : List ℕ → SpiHistory → SpiHistory
send_bytes [] h = h
send_bytes (b ∷ bs) h = send_bytes bs (spi_send_byte b h)

module _ (flash : Flash) where
  unfoldable pub spi_flash_read_id : SpiHistory → ℕ × ℕ × SpiHistory
  spi_flash_read_id h =
      let h₁ = spi_flash_send_addr 0 (spi_send_byte 0x90 (SpiOp.chip_select 0 ∷ h)) in
      let h₂ : SpiHistory = SpiOp.recv_byte ∷ h₁ in
      (flash h₁, flash h₂, SpiOp.chip_select 1 ∷ SpiOp.recv_byte ∷ h₂)

  abbrev pub read_status_reg : ℕ → SpiHistory → ℕ × SpiHistory
  read_status_reg cmd h =
      let h₁ = spi_send_byte cmd (SpiOp.chip_select 0 ∷ h) in
      (flash h₁, SpiOp.chip_select 1 ∷ SpiOp.recv_byte ∷ h₁)

  unfoldable pub spi_flash_read_status_reg1 : SpiHistory → ℕ × SpiHistory
  spi_flash_read_status_reg1 h = read_status_reg 0x05 h

  unfoldable pub spi_flash_read_status_reg2 : SpiHistory → ℕ × SpiHistory
  spi_flash_read_status_reg2 h = read_status_reg 0x35 h

  unfoldable pub spi_flash_wait_when_busy : ℕ → SpiHistory → Option SpiHistory
  unfolding spi_flash_read_status_reg1
  spi_flash_wait_when_busy zero h = none
  spi_flash_wait_when_busy (suc fuel) h =
      let (val, h') = spi_flash_read_status_reg1 h in
      let rest = spi_flash_wait_when_busy fuel h' in if bit_and val 1 == 0 then some h' else rest

  unfoldable pub spi_flash_write_status_reg : ℕ → ℕ → ℕ → SpiHistory → Option SpiHistory
  spi_flash_write_status_reg fuel reg1 reg2 h =
      let h₁ : SpiHistory = SpiOp.chip_select 0 ∷ spi_flash_write_enable true h in
      spi_flash_wait_when_busy fuel
        (SpiOp.chip_select 1 ∷ spi_send_byte reg2 (spi_send_byte reg1 (spi_send_byte 0x01 h₁)))

  unfoldable pub spi_flash_clear_protect_for_status_reg : ℕ → SpiHistory → Option SpiHistory
  spi_flash_clear_protect_for_status_reg fuel h =
      let (reg1, h₁) = spi_flash_read_status_reg1 h in
      let (reg2, h₂) = spi_flash_read_status_reg2 h₁ in
      spi_flash_write_status_reg fuel (bit_and reg1 (complement (2 ^ 7)))
        (bit_and reg2 (complement (2 ^ 0))) h₂

  unfoldable pub spi_flash_clear_protect_for_data : ℕ → SpiHistory → Option SpiHistory
  spi_flash_clear_protect_for_data fuel h =
      let (reg1, h₁) = spi_flash_read_status_reg1 h in
      let (reg2, h₂) = spi_flash_read_status_reg2 h₁ in
      spi_flash_write_status_reg fuel (bit_and reg1 (complement (7 * 2 ^ 2)))
        (bit_and reg2 (complement (2 ^ 6))) h₂

  unfoldable pub spi_flash_erase_sector : ℕ → ℕ → SpiHistory → Option SpiHistory
  spi_flash_erase_sector fuel addr h =
      let h₁ : SpiHistory = SpiOp.chip_select 0 ∷ spi_flash_write_enable true h in
      spi_flash_wait_when_busy fuel
        (SpiOp.chip_select 1 ∷ spi_flash_send_addr addr (spi_send_byte 0x20 h₁))

  unfoldable pub spi_flash_program : ℕ → ℕ → List ℕ → SpiHistory → Option SpiHistory
  spi_flash_program fuel addr buf h =
      let h₁ : SpiHistory = SpiOp.chip_select 0 ∷ spi_flash_write_enable true h in
      spi_flash_wait_when_busy fuel
        (SpiOp.chip_select 1 ∷ send_bytes buf (spi_flash_send_addr addr (spi_send_byte 0x02 h₁)))

  -- The loop that receives n bytes.
  unfoldable pub recv_bytes : ℕ → SpiHistory → List ℕ × SpiHistory
  recv_bytes zero h = ([], h)
  recv_bytes (suc n) h = let (bs, h') = recv_bytes n (SpiOp.recv_byte ∷ h) in (flash h ∷ bs, h')

  unfoldable pub spi_flash_read : ℕ → ℕ → SpiHistory → List ℕ × SpiHistory
  spi_flash_read addr len h =
      let (buf, h') =
        recv_bytes len (spi_flash_send_addr addr (spi_send_byte 0x03 (SpiOp.chip_select 0 ∷ h))) in
      (buf, SpiOp.chip_select 1 ∷ h')

  unfoldable pub spi_flash_init : ℕ → SpiHistory → Option SpiHistory
  spi_flash_init fuel h = elim (spi_flash_clear_protect_for_status_reg fuel h) [
    | none ↦ none
    | some h' ↦ spi_flash_clear_protect_for_data fuel h'
  ]
