-- ===== src/Calendar/Order.antt =====
-- The order of `datetime.date`.
use eu_ai_act_compliance.Prelude.{arith}
use eu_ai_act_compliance.Prelude.Sort.{IsStrictWeak}
use eu_ai_act_compliance.Calendar.{lt}

pub lt-IsStrictWeak : IsStrictWeak lt
unfolding lt
lt-IsStrictWeak = record { asym = λ x y h. ground arith; not_lt_trans = λ x y z h k. ground arith }
