-- ===== src/Base/Double.antt =====
-- What the program uses of `double`: the comparisons, the sum, the difference and the
-- conversion from `int`. The values are
-- abstract, NaN among them, so no law is assumed.
use airies_ups_c.Base.{Bool}
use airies_ups_c.Base.Int.{ℤ}

pub record Double : Type 1 where
  pub Real : Type 0
  pub lt_real : Real → Real → Bool
  pub le_real : Real → Real → Bool
  pub eq_real : Real → Real → Bool
  pub add_real : Real → Real → Real
  pub sub_real : Real → Real → Real
  pub of_int : ℤ → Real
  pub nan : Real
