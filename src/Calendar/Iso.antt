-- ===== src/Calendar/Iso.antt =====
-- `date.isoformat()`
use eu_ai_act_compliance.Prelude.{ℕ, zero, suc, ◌/◌, ◌%◌, String, ◌+s◌}
use eu_ai_act_compliance.Calendar.{Date}

digit : ℕ → String
digit zero = "0"
digit (suc zero) = "1"
digit (suc (suc zero)) = "2"
digit (suc (suc (suc zero))) = "3"
digit (suc (suc (suc (suc zero)))) = "4"
digit (suc (suc (suc (suc (suc zero))))) = "5"
digit (suc (suc (suc (suc (suc (suc zero)))))) = "6"
digit (suc (suc (suc (suc (suc (suc (suc zero))))))) = "7"
digit (suc (suc (suc (suc (suc (suc (suc (suc zero)))))))) = "8"
digit _ = "9"

-- the last two decimal digits
two_digits : ℕ → String
unfolding digit
two_digits n = digit (n / 10 % 10) +s digit (n % 10)

unfoldable pub isoformat : Date → String
unfolding two_digits
isoformat d =
    two_digits (d.year / 100)
    +s two_digits d.year
    +s "-"
    +s two_digits d.month
    +s "-"
    +s two_digits d.day
