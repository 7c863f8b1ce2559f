-- ===== src/Common/Texts.antt =====
-- Texts put together: `s + t`, `"\n".join(...)`, f-strings and decimal numbers.
use Prim.Native.String.{String}
use mathlib.Core.List.{List, [], ◌∷◌}
use Prim.Native.Nat.{ℕ, zero, suc, ◌/◌, ◌%◌}
use local_ai_coding_agent.Common.Tests.{ltb, if◌then◌else◌}

-- `s + t`
unfoldable pub text_append : String → String → String
text_append String.[] t = t
text_append (String.◌∷◌ c s) t = String.◌∷◌ c (text_append s t)

-- `separator.join(texts)`
unfoldable pub join : String → List String → String
unfolding text_append
join separator [] = ""
join separator (s ∷ []) = s
join separator (s ∷ t ∷ ss) = text_append s (text_append separator (join separator (t ∷ ss)))

-- The texts one after another, as an f-string puts them.
unfoldable pub concat : List String → String
unfolding text_append
concat [] = ""
concat (s ∷ ss) = text_append s (concat ss)

abbrev pub digit : ℕ → String
digit zero = "0"
digit (suc zero) = "1"
digit (suc (suc zero)) = "2"
digit (suc (suc (suc zero))) = "3"
digit (suc (suc (suc (suc zero)))) = "4"
digit (suc (suc (suc (suc (suc zero))))) = "5"
digit (suc (suc (suc (suc (suc (suc zero)))))) = "6"
digit (suc (suc (suc (suc (suc (suc (suc zero))))))) = "7"
digit (suc (suc (suc (suc (suc (suc (suc (suc zero)))))))) = "8"
digit n = "9"

-- `str(n)`; the rounds are at least the number of digits.
unfoldable pub decimal_within : ℕ → ℕ → String
unfolding text_append
decimal_within zero n = digit n
decimal_within (suc rounds) n =
    let front = decimal_within rounds (n / 10) in
    if ltb n 10 then digit n else text_append front (digit (n % 10))

unfoldable pub decimal : ℕ → String
unfolding decimal_within
decimal n = decimal_within n n
