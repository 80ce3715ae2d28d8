-- ===== src/Ds18b20/Errors.antt =====
-- drivers/sensors/ds18b20/ds18b20.c: a thermometer that does not answer.
use mine_os.Prelude.{
  ℕ, zero, suc, ◌≡◌, refl, Bool, true, false, none, Bool-cases, inl, inr, List, ◌∷◌,
}
use mine_os.Ds18b20.{
  Op, ds18b20_initialization, ds18b20_wait_when_processing, ds18b20_start_convert,
  ds18b20_read_temperature, ds18b20_read_bit,
}
use mine_os.Ds18b20.Slots.{sampled}

-- The pin where the master looks for the answer to the reset.
abbrev pub presence : (List Op → Bool) → List Op → Bool
presence line h = line (Op.udelay 80 ∷ Op.data_release ∷ Op.set_val_for_time 0 500 ∷ h)

module _ (line : List Op → Bool) where
  wait_fails :
      (n : ℕ) (h : List Op)
      → ((g : List Op) → sampled line g ≡ false)
      → (ds18b20_wait_when_processing line n h).0 ≡ false
  unfolding ds18b20_wait_when_processing ds18b20_read_bit
  wait_fails zero h f = refl
  wait_fails (suc n) h f = rw (f h) (wait_fails n _ f)

  convert_fails :
      (h : List Op)
      → ((g : List Op) → sampled line g ≡ false)
      → (ds18b20_start_convert line h).0 ≡ false
  unfolding ds18b20_start_convert ds18b20_initialization
  convert_fails h f = elim (Bool-cases (presence line h)) [
    | inl e ↦ rw e refl
    | inr e ↦ rw e (wait_fails 1000000 _ f)
  ]

  -- Without an answer to the reset no byte is sent, and no temperature is returned; nor is one
  -- where the conversion is not done in time, and there the wait ends.
  ds18b20_read_temperature_fails :
      (h : List Op)
      → (presence line h ≡ true → (ds18b20_read_temperature line h).0 ≡ none)
        × (((g : List Op) → sampled line g ≡ false) → (ds18b20_read_temperature line h).0 ≡ none)
  unfolding ds18b20_read_temperature ds18b20_start_convert ds18b20_initialization
  ds18b20_read_temperature_fails h = (
    λ e. rw (ds18b20_start_convert, ds18b20_initialization, e) refl,
    λ f. rw (convert_fails h f) refl,
  )
