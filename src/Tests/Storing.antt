-- ===== src/Tests/Storing.antt =====
-- Instances for src/ups/ups_smt.c.
use airies_ups_c.Base.{◌≡◌, refl, List, [], ◌∷◌, ◌++◌, replicate, arith}
use airies_ups_c.Base.Text.{bytes}
use airies_ups_c.Ups.Modbus.{monotonic_ms, Call, pace, paced, spans}
use airies_ups_c.Ups.Modbus.Gap.{Spaced, spans-Spaced}
use airies_ups_c.Ups.RegisterText.{smt_str_decode, strip_trailing}
use airies_ups_c.Ups.RegisterText.Decoded.{registers, text_comes_back}

-- One zero register, "SMT15" and three blanks.
text_comes_back_example :
    smt_str_decode (replicate 1 0 ++ registers ((83, 77) ∷ (84, 49) ∷ (53, 32) ∷ (32, 0) ∷ [])) 33
    ≡ bytes "SMT15"
unfolding strip_trailing
text_comes_back_example =
    text_comes_back 1 83 77 33 ((84, 49) ∷ (53, 32) ∷ (32, 0) ∷ []) (bytes "SMT15")
      (32 ∷ 32 ∷ 0 ∷ []) (omega arith) (omega arith) (omega arith) (omega arith)
      (omega arith, omega arith, (omega arith, omega arith, (omega arith, omega arith, tt))) refl
      (refl, (refl, (refl, tt))) refl (omega arith)

-- Three operations: one at once, one after 10 ms, one after a second.
abbrev operations : List Call
operations =
    record { idle = 1; takes = 20000000 }
    ∷ record { idle = 10000000; takes = 30000000 }
    ∷ record { idle = 1000000000; takes = 5000000 }
    ∷ []

spans-Spaced_example : Spaced 5999999 (spans 5999999 operations)
spans-Spaced_example =
    spans-Spaced operations 5999999 (omega arith) (omega arith)
      (unfold spans paced pace monotonic_ms in (omega arith, (omega arith, (omega arith, tt))))
