-- ===== src/Irq.antt =====
-- kernel/irq.c: the masks and acknowledgements of the S3C2440's interrupt controller, whose lines
-- are the main ones 0 to 31 (the bits of INTMSK), the external ones 32 to 51 (the bits 4 to 23 of
-- EINTMASK) and the sub-interrupts 54 to 68 (the bits 0 to 14 of INTSUBMSK).
--
-- The registers are hardware: D is the machine, with a read and a write of each register.
pub mod Ffs
pub mod Demux
pub mod Pending
pub mod Parent
pub mod Table
pub mod Init
pub mod Flows
pub mod Dispatch
pub mod Entry
use mine_os.Prelude.{
  ℕ, ◌+◌, ◌-◌, ◌*◌, ◌/◌, ◌^◌, Bool, true, false, not, ◌&&◌, Option, none, some, ltb, leb, ◌==◌,
  if◌then◌else◌, bit_and, bit_or,
}
use mine_os.Bits.Clear.{complement, all_but}

pub data Register : Type 0 where
  srcpnd : Register
  intmod : Register
  intmsk : Register
  intpnd : Register
  subsrcpnd : Register
  intsubmsk : Register
  eintmask : Register
  eintpend : Register

pub record Machine (D : Type 0) : Type 0 where
  pub read : Register → D → ℕ
  pub write : Register → ℕ → D → D

abbrev pub irq_eint4t7 : ℕ
irq_eint4t7 = 4

abbrev pub irq_eint8t23 : ℕ
irq_eint8t23 = 5

abbrev pub irq_adcparent : ℕ
irq_adcparent = 31

abbrev pub irq_eint7 : ℕ
irq_eint7 = 35

-- EXTINT_OFF, which is IRQ_EINT4 - 4.
abbrev pub extint_off : ℕ
extint_off = 28

-- IRQ_S3CUART_RX0
abbrev pub irq_rx0 : ℕ
irq_rx0 = 54

abbrev pub nr_irqs : ℕ
nr_irqs = 69

-- lo ≤ n ≤ hi, a case range.
abbrev pub between : ℕ → ℕ → ℕ → Bool
between lo hi n = leb lo n && leb n hi

-- The switch of the sub-interrupt functions: the bits of INTSUBMSK that share a parent, and the
-- parent's line. `none` is the default, an assertion.
unfoldable pub sub_parent : ℕ → Option (ℕ × ℕ)
sub_parent irq =
    if between 54 56 irq
    then some (7, 28)
    else (if between 57 59 irq
        then some (7 * 2 ^ 3, 23)
        else (if between 60 62 irq
            then some (7 * 2 ^ 6, 15)
            else (if between 63 64 irq
                then some (3 * 2 ^ 9, 31)
                else (if between 65 66 irq
                    then some (3 * 2 ^ 11, 6)
                    else (if between 67 68 irq then some (3 * 2 ^ 13, 9) else none)))))

module _ {D : Type 0} (m : Machine D) where
  unfoldable pub s3c_irq_mask : ℕ → D → D
  s3c_irq_mask irq d = m.write Register.intmsk (bit_or (m.read Register.intmsk d) (2 ^ irq)) d

  unfoldable pub s3c_irq_unmask : ℕ → D → D
  s3c_irq_unmask irq d =
      m.write Register.intmsk (bit_and (m.read Register.intmsk d) (all_but irq)) d

  unfoldable pub s3c_irq_ack : ℕ → D → D
  s3c_irq_ack irq d = m.write Register.intpnd (2 ^ irq) (m.write Register.srcpnd (2 ^ irq) d)

  unfoldable pub s3c_irqext_mask : ℕ → D → D
  s3c_irqext_mask irq d =
      let mask = bit_or (m.read Register.eintmask d) (2 ^ (irq - extint_off)) in
      let d' = m.write Register.eintmask mask d in
      if leb irq irq_eint7
      then (if bit_and mask 0xf0 == 0xf0 then s3c_irq_mask irq_eint4t7 d' else d')
      else (if mask / 2 ^ 8 == 0xffff then s3c_irq_mask irq_eint8t23 d' else d')

  unfoldable pub s3c_irqext_unmask : ℕ → D → D
  s3c_irqext_unmask irq d =
      let mask = bit_and (m.read Register.eintmask d) (all_but (irq - extint_off)) in
      let d' = m.write Register.eintmask mask d in
      if leb irq irq_eint7
      then (if bit_and mask 0xf0 == 0xf0 then d' else s3c_irq_unmask irq_eint4t7 d')
      else (if mask / 2 ^ 8 == 0xffff then d' else s3c_irq_unmask irq_eint8t23 d')

  unfoldable pub s3c_irqext_ack : ℕ → D → D
  s3c_irqext_ack irq d =
      let mask = m.read Register.eintmask d in
      let d' = m.write Register.eintpend (2 ^ (irq - extint_off)) d in
      let req = bit_and (m.read Register.eintpend d') (complement mask) in
      if leb irq irq_eint7
      then (if bit_and req 0xf0 == 0 then s3c_irq_ack irq_eint4t7 d' else d')
      else (if req / 2 ^ 8 == 0 then s3c_irq_ack irq_eint8t23 d' else d')

  unfoldable pub s3c_irqsub_mask : ℕ → D → Option D
  s3c_irqsub_mask irq d =
      let mask = m.read Register.intmsk d in
      let submask = bit_or (m.read Register.intsubmsk d) (2 ^ (irq - irq_rx0)) in
      elim (sub_parent irq) [
        | none ↦ none
        | some (subcheck, parent) ↦
            let d' =
              (if bit_and submask subcheck == subcheck
                then m.write Register.intmsk (bit_or mask (2 ^ parent)) d
                else d) in
            some (m.write Register.intsubmsk submask d')
      ]

  -- The source does not set `parentbit` here: it is whatever the stack holds.
  unfoldable pub s3c_irqsub_unmask : ℕ → ℕ → D → D
  s3c_irqsub_unmask parentbit irq d =
      let mask = m.read Register.intmsk d in
      let submask = bit_and (m.read Register.intsubmsk d) (all_but (irq - irq_rx0)) in
      m.write Register.intmsk (bit_and mask (complement parentbit))
        (m.write Register.intsubmsk submask d)

  unfoldable pub s3c_irqsub_ack : ℕ → D → Option D
  s3c_irqsub_ack irq d =
      let d' = m.write Register.subsrcpnd (2 ^ (irq - irq_rx0)) d in
      elim (sub_parent irq) [
        | none ↦ none
        | some (subcheck, parent) ↦
            some (m.write Register.intpnd (2 ^ parent) (m.write Register.srcpnd (2 ^ parent) d'))
      ]
