-- ===== src/Base/TextOrder.antt =====
-- The order of texts is a strict total order.
use Prim.Native.Nat.{Ordering}
use Prim.Native.String.{String, compare}
use Prim.Native.String.compare
use mathlib.Core.Bool.{true, false}
use mathlib.Core.Logic.{◌⊎◌}
use mathlib.Core.Path.{◌≡◌, sym, ◌∙◌}
use native.Mathlib.Omega.{arith}
use text.Mathlib.TextEquality.{path_by_compare}
use text.Mathlib.TextPositions.{compare_refl}
use threadmill_agent_teams.Base.Sort.{text_lt}

compare_trans :
    (s t u : String)
    → compare s t ≡ Ordering.lt
    → compare t u ≡ Ordering.lt
    → compare s u ≡ Ordering.lt
compare_trans String.[] String.[] String.[] h k = h
compare_trans String.[] (String.◌∷◌ d t) String.[] h k = cc (sym (compare.cons-nil d t) ∙ k)
compare_trans String.[] t (String.◌∷◌ e u) h k = compare.nil-cons e u
compare_trans (String.◌∷◌ c s) String.[] u h k = cc (sym (compare.cons-nil c s) ∙ h)
compare_trans (String.◌∷◌ c s) (String.◌∷◌ d t) String.[] h k = cc (sym (compare.cons-nil d t) ∙ k)
compare_trans (String.◌∷◌ c s) (String.◌∷◌ d t) (String.◌∷◌ e u) h k =
    let first = sym (compare.cons-cons c d s t) ∙ h in
    let second = sym (compare.cons-cons d e t u) ∙ k in
    compare.cons-cons c e s u ∙ ground (arith, compare_trans s t u)

compare_swap : (s t : String) → compare s t ≡ Ordering.gt → compare t s ≡ Ordering.lt
compare_swap String.[] String.[] h = cc (sym (compare_refl "") ∙ h)
compare_swap String.[] (String.◌∷◌ d t) h = cc (sym (compare.nil-cons d t) ∙ h)
compare_swap (String.◌∷◌ c s) String.[] h = compare.nil-cons c s
compare_swap (String.◌∷◌ c s) (String.◌∷◌ d t) h =
    let first = sym (compare.cons-cons c d s t) ∙ h in
    compare.cons-cons d c t s ∙ ground (arith, compare_swap s t)

pub text_lt_trans : (s t u : String) → text_lt s t ≡ true → text_lt t u ≡ true → text_lt s u ≡ true
text_lt_trans s t u h k = ground (arith, compare_trans s t u)

pub text_lt_irrefl : (s : String) → text_lt s s ≡ false
text_lt_irrefl s = ground (arith, compare_refl s)

-- Of two texts one is below the other, or they are one text.
pub text_lt_cases : (s t : String) → (text_lt s t ≡ true) ⊎ ((s ≡ t) ⊎ (text_lt t s ≡ true))
text_lt_cases s t = ground (arith, path_by_compare s t, compare_swap s t)
