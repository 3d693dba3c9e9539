-- ===== src/Base/Sort.antt =====
-- Go's sort.Slice and sort.SliceStable as a stable insertion sort, and the order of strings.
use Prim.Native.Nat.{Ordering}
use Prim.Native.String.{String, compare}
use mathlib.Core.Bool.{Bool, true, false}
use mathlib.Core.List.{List, [], ◌∷◌, Perm}
use mathlib.Core.List.Perm
use mathlib.Core.Logic.{inl, inr}
use threadmill_agent_teams.Base.Tests.{if◌then◌else◌, if_cases}
use threadmill_agent_teams.Base.Lists.{In}

-- Go's `<` on strings.
abbrev pub text_lt : String → String → Bool
text_lt s t = elim (compare s t) [ Ordering.lt ↦ true | _ ↦ false ]

module _ {ℓ} {A : Type ℓ} (less : A → A → Bool) where
  unfoldable pub sort_insert : A → List A → List A
  sort_insert a [] = a ∷ []
  sort_insert a (b ∷ bs) = if less b a then b ∷ sort_insert a bs else a ∷ b ∷ bs

  unfoldable pub sort : List A → List A
  unfolding sort_insert
  sort [] = []
  sort (a ∷ rest) = sort_insert a (sort rest)

  sort_insert-perm : (a : A) (xs : List A) → Perm (sort_insert a xs) (a ∷ xs)
  unfolding sort_insert
  sort_insert-perm a [] = Perm.rfl
  sort_insert-perm a (x ∷ xs) =
      if_cases (λ l. Perm l (a ∷ x ∷ xs)) (less x a)
        (Perm.trans (Perm.cons x (sort_insert-perm a xs)) (Perm.swap a x xs)) Perm.rfl

  -- Sorting rearranges.
  pub sort-perm : (xs : List A) → Perm (sort xs) xs
  unfolding sort
  sort-perm [] = Perm.rfl
  sort-perm (x ∷ xs) = Perm.trans (sort_insert-perm x (sort xs)) (Perm.cons x (sort-perm xs))

module _ {A : Type 0} (less : A → A → Bool) where
  pub sort_insert-In : (y a : A) (xs : List A) → In y (sort_insert less a xs) → In y (a ∷ xs)
  unfolding sort_insert
  sort_insert-In y a [] m = m
  sort_insert-In y a (x ∷ xs) m =
      if_cases (λ l. In y l → In y (a ∷ x ∷ xs)) (less x a)
        (λ k. elim k [
          | inl e ↦ inr (inl e)
          | inr r ↦ elim (sort_insert-In y a xs r) [ inl e ↦ inl e | inr t ↦ inr (inr t) ]
        ])
        (λ k. k) m

  -- What stands in a sorted list stood in the list.
  pub sort-In : (y : A) (xs : List A) → In y (sort less xs) → In y xs
  unfolding sort
  sort-In y [] m = m
  sort-In y (x ∷ xs) m = elim (sort_insert-In y x (sort less xs) m) [
    | inl e ↦ inl e
    | inr k ↦ inr (sort-In y xs k)
  ]

  sort_insert-keeps : (y a : A) (xs : List A) → In y (a ∷ xs) → In y (sort_insert less a xs)
  unfolding sort_insert
  sort_insert-keeps y a [] m = m
  sort_insert-keeps y a (x ∷ xs) m =
      if_cases (λ l. In y (a ∷ x ∷ xs) → In y l) (less x a)
        (λ k. elim k [
          | inl e ↦ inr (sort_insert-keeps y a xs (inl e))
          | inr r ↦ elim r [ inl e ↦ inl e | inr t ↦ inr (sort_insert-keeps y a xs (inr t)) ]
        ])
        (λ k. k) m

  -- What stood in the list stands in the sorted one.
  pub In-sort : (y : A) (xs : List A) → In y xs → In y (sort less xs)
  unfolding sort
  In-sort y [] m = m
  In-sort y (x ∷ xs) m =
      sort_insert-keeps y x (sort less xs) (elim m [ inl e ↦ inl e | inr k ↦ inr (In-sort y xs k) ])
