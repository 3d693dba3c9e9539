-- ===== src/Base/Strings.antt =====
-- Go's strings package on text: trimming, prefixes, suffixes and contained texts.
use Prim.Native.Nat.{ℕ, zero, suc}
use Prim.Native.Char.{code}
use Prim.Native.String.{String}
use mathlib.Core.Bool.{Bool, true, false, ◌&&◌, ◌||◌}
use threadmill_agent_teams.Base.Tests.{if◌then◌else◌, ◌==◌, string_eq, nat_eq}
use threadmill_agent_teams.Base.Text.{is_space}

trim_left : String → String
trim_left String.[] = String.[]
trim_left (String.◌∷◌ c s) = if is_space (code c) then trim_left s else String.◌∷◌ c s

trim_right : String → String
trim_right String.[] = String.[]
trim_right (String.◌∷◌ c s) =
    let rest = trim_right s in if is_space (code c) && rest == "" then "" else String.◌∷◌ c rest

-- strings.TrimSpace
unfoldable pub trim_space : String → String
unfolding trim_left trim_right is_space
trim_space s = trim_right (trim_left s)

-- strings.HasPrefix, the prefix last as in Go.
unfoldable pub has_prefix : String → String → Bool
has_prefix s String.[] = true
has_prefix String.[] (String.◌∷◌ d prefix) = false
has_prefix (String.◌∷◌ c s) (String.◌∷◌ d prefix) = code c == code d && has_prefix s prefix

-- strings.HasSuffix
unfoldable pub has_suffix : String → String → Bool
has_suffix String.[] suffix = suffix == ""
has_suffix (String.◌∷◌ c s) suffix = String.◌∷◌ c s == suffix || has_suffix s suffix

-- strings.Contains
unfoldable pub contains : String → String → Bool
unfolding has_prefix
contains String.[] part = part == ""
contains (String.◌∷◌ c s) part = has_prefix (String.◌∷◌ c s) part || contains s part

-- Whether some character of the text, by its code point, passes the test.
unfoldable pub any_char : (ℕ → Bool) → String → Bool
any_char p String.[] = false
any_char p (String.◌∷◌ c s) = p (code c) || any_char p s

-- strings.ContainsAny
unfoldable pub contains_any : String → String → Bool
unfolding any_char
contains_any s chars = any_char (λ c. any_char (λ d. c == d) chars) s

-- The number of characters, which for ASCII is Go's number of bytes.
unfoldable pub characters : String → ℕ
characters String.[] = zero
characters (String.◌∷◌ c s) = suc (characters s)
