-- ===== src/Base/Text.antt =====
-- Text: blank texts as the Go library trims them, and the decimal form of `%d`.
use Prim.Native.Nat.{ℕ, zero, suc, ◌/◌, ◌%◌}
use Prim.Native.Char.{code}
use Prim.Native.String.{String, ◌++◌ as append}
use mathlib.Core.Bool.{Bool, true, ◌&&◌, ◌||◌}
use threadmill_agent_teams.Base.Tests.{if◌then◌else◌, ◌==◌, nat_eq, ltb, leb}

infixr 65 ◌^^◌
abbrev pub ◌^^◌ : String → String → String
s ^^ t = append s t

-- Go's unicode.IsSpace.
unfoldable pub is_space : ℕ → Bool
is_space c =
    (leb 9 c && leb c 13)
    || c == 0x20
    || c == 0x85
    || c == 0xa0
    || c == 0x1680
    || (leb 0x2000 c && leb c 0x200a)
    || c == 0x2028
    || c == 0x2029
    || c == 0x202f
    || c == 0x205f
    || c == 0x3000

-- strings.TrimSpace(s) == ""
unfoldable pub is_blank : String → Bool
unfolding is_space
is_blank String.[] = true
is_blank (String.◌∷◌ c s) = is_space (code c) && is_blank s

digit : ℕ → String
digit zero = "0"
digit (suc zero) = "1"
digit (suc (suc zero)) = "2"
digit (suc (suc (suc zero))) = "3"
digit (suc (suc (suc (suc zero)))) = "4"
digit (suc (suc (suc (suc (suc zero))))) = "5"
digit (suc (suc (suc (suc (suc (suc zero)))))) = "6"
digit (suc (suc (suc (suc (suc (suc (suc zero))))))) = "7"
digit (suc (suc (suc (suc (suc (suc (suc (suc zero)))))))) = "8"
digit _ = "9"

-- Each round divides by ten, so as many rounds as the number itself are more than enough.
decimal_rounds : ℕ → ℕ → String → String
unfolding digit
decimal_rounds zero n rest = rest
decimal_rounds (suc f) n rest =
    let here = digit (n % 10) ^^ rest in
    let more = decimal_rounds f (n / 10) here in if ltb n 10 then here else more

-- fmt.Sprintf("%d", n)
unfoldable pub decimal : ℕ → String
unfolding decimal_rounds
decimal n = decimal_rounds (suc n) n ""
