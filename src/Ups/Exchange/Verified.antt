-- ===== src/Ups/Exchange/Verified.antt =====
-- A model whose registers begin with a NUL, to `srt_detect` of src/ups/ups_srt.c.
use airies_ups_c.Base.{
  ℕ, ◌≡◌, refl, Bool, true, false, none, if◌then◌else◌, some, List, ◌∷◌, length, ◌==◌,
}
use airies_ups_c.Base.Text.{strstr, starts_with}
use airies_ups_c.Ups.RegisterText.{c_string, high_byte}
use airies_ups_c.Ups.Blocks.{whole}
use airies_ups_c.Ups.Exchange.{srt_detect, raw_bytes, names_srt}

first_nul : (r : ℕ) (regs : List ℕ) → high_byte r ≡ 0 → names_srt (some (r ∷ regs)) ≡ false
unfolding names_srt raw_bytes c_string strstr starts_with
first_nul r regs h = rw h refl

-- Whatever the model is, it is not detected if the first byte of its registers is a NUL.
pub padded_undetected :
    (r : ℕ) (regs : List ℕ) → high_byte r ≡ 0 → srt_detect (some (r ∷ regs)) ≡ false
unfolding srt_detect whole
padded_undetected r regs h = either (length (r ∷ regs) == 16)
  where
    either : (b : Bool) → names_srt (if b then some (r ∷ regs) else none) ≡ false
    either true = first_nul r regs h
    either false = refl
