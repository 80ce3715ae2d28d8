-- ===== src/Nand/Address.antt =====
-- drivers/nand.c: the address cycles.
use mine_os.Prelude.{ℕ, ◌+◌, ◌*◌, ◌/◌, ◌%◌, ◌^◌, ◌<◌, ◌≡◌, refl, ◌∷◌, arith}
use mine_os.Nand.{Op, History, nand_addr}

-- The five cycles of nand_addr are bytes that hold the address: two of the column and then three of
-- the page, the lowest first.
nand_addr_lem :
    (addr : ℕ) (h : History)
    → addr < 2 ^ 32
    → (c₀ : ℕ) × (c₁ : ℕ) × (p₀ : ℕ) × (p₁ : ℕ) × (p₂ : ℕ) × (nand_addr addr h
        ≡ Op.address p₂ ∷ Op.address p₁ ∷ Op.address p₀ ∷ Op.address c₁ ∷ Op.address c₀ ∷ h)
      × (c₀ + 256 * c₁ + 2048 * (p₀ + 256 * p₁ + 65536 * p₂) ≡ addr)
      × ((c₀ < 256) × (c₁ < 256) × (p₀ < 256) × (p₁ < 256) × (p₂ < 256))
unfolding nand_addr
nand_addr_lem addr h b = (
  addr % 2048 % 256,
  addr % 2048 / 2 ^ 8 % 256,
  addr / 2048 % 256,
  addr / 2048 / 2 ^ 8 % 256,
  addr / 2048 / 2 ^ 16 % 256,
  refl,
  omega arith,
  (omega arith, omega arith, omega arith, omega arith, omega arith),
)
