-- ===== src/Base/Maps.antt =====
-- Go's maps as association lists with their keys in the order of insertion, which is one of the
-- orders in which `range` may visit them.
use mathlib.Core.Bool.{Bool, true, false}
use mathlib.Core.List.{List, [], ◌∷◌}
use mathlib.Core.Logic.{◌≢◌}
use mathlib.Core.Option.{Option, none, some}
use mathlib.Core.Path.{◌≡◌, refl}
use native.Mathlib.Omega.{arith}
use threadmill_agent_teams.Base.Tests.{Eq, ◌==◌, if◌then◌else◌}

module _ {ℓ κ} {K : Type ℓ} {V : Type κ} ⦃e : Eq K⦄ where
  unfoldable pub lookup : K → List (K × V) → Option V
  lookup key [] = none
  lookup key ((here, held) ∷ others) = if here == key then some held else lookup key others

  unfoldable pub insert : K → V → List (K × V) → List (K × V)
  insert key new [] = (key, new) ∷ []
  insert key new ((here, held) ∷ others) =
      if here == key then (key, new) ∷ others else (here, held) ∷ insert key new others

  -- A write is seen at its key and nowhere else.
  pub lookup-insert :
      (written read : K) (new : V) (m : List (K × V))
      → lookup read (insert written new m) ≡ (if written == read then some new else lookup read m)
  unfolding lookup insert
  lookup-insert written read new [] = refl
  lookup-insert written read new (entry ∷ others) =
      ground (arith, lookup-insert written read new others)

  pub lookup-insert_self : (k : K) (v : V) (m : List (K × V)) → lookup k (insert k v m) ≡ some v
  lookup-insert_self k v m = ground (arith, lookup-insert k k v m)

  pub lookup-insert_ne :
      (k j : K) (v : V) (m : List (K × V)) → k ≢ j → lookup j (insert k v m) ≡ lookup j m
  lookup-insert_ne k j v m h = ground (arith, lookup-insert k j v m)

  -- Go's delete.
  unfoldable pub delete : K → List (K × V) → List (K × V)
  delete key [] = []
  delete key ((here, held) ∷ others) =
      let rest = delete key others in if here == key then rest else (here, held) ∷ rest

  pub lookup-delete :
      (gone read : K) (m : List (K × V))
      → lookup read (delete gone m) ≡ (if gone == read then none else lookup read m)
  unfolding lookup delete
  lookup-delete gone read [] = ground arith
  lookup-delete gone read (entry ∷ others) = ground (arith, lookup-delete gone read others)

module _ {ℓ} {K : Type ℓ} ⦃e : Eq K⦄ where
  -- A key of a set, which Go writes as a map to the empty struct.
  unfoldable pub mem : K → List K → Bool
  mem k [] = false
  mem k (j ∷ s) = if j == k then true else mem k s
