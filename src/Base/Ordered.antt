-- ===== src/Base/Ordered.antt =====
-- What sorting by an order gives: a list in order, and of one set of elements one list.
use mathlib.Core.Bool.{Bool, true, false}
use mathlib.Core.List.{List, [], ◌∷◌}
use mathlib.Core.Logic.{◌⊎◌, inl, inr}
use mathlib.Core.Path.{◌≡◌, refl, sym, subst}
use native.Mathlib.Omega.{arith}
use threadmill_agent_teams.Base.Tests.{if_split}
use threadmill_agent_teams.Base.Lists.{In, All, All-In, All-of_In, All-map}
use threadmill_agent_teams.Base.Sort.{sort, sort_insert, sort_insert-In, sort-In}

abbrev pub NoDup : {A : Type 0} → List A → Type 0
NoDup [] = Unit
NoDup (x ∷ xs) = (In x xs → ⊥) × NoDup xs

module _ {A : Type 0} (less : A → A → Bool) where
  -- No element is below one before it.
  abbrev pub InOrder : List A → Type 0
  InOrder [] = Unit
  InOrder (x ∷ xs) = All (λ y. less y x ≡ false) xs × InOrder xs

  -- Every element is above those before it.
  abbrev pub Increasing : List A → Type 0
  Increasing [] = Unit
  Increasing (x ∷ xs) = All (λ y. less x y ≡ true) xs × Increasing xs

  module _ (asym : (x y : A) → less x y ≡ true → less y x ≡ false)
      (between : (x y z : A) → less x z ≡ true → (less x y ≡ true) ⊎ (less y z ≡ true)) where
    sort_insert-InOrder : (a : A) (xs : List A) → InOrder xs → InOrder (sort_insert less a xs)
    unfolding sort_insert
    sort_insert-InOrder a [] o = (tt, tt)
    sort_insert-InOrder a (b ∷ bs) o =
        if_split InOrder (less b a)
          (λ lower. (
            All-of_In (λ y. less y b ≡ false) (sort_insert less a bs)
                (λ y m. elim (sort_insert-In less y a bs m) [
                  | inl e ↦ subst (λ x. less x b ≡ false) e (asym b a lower)
                  | inr k ↦ All-In (λ x. less x b ≡ false) y bs o.0 k
                ]),
            sort_insert-InOrder a bs o.1,
          ))
          (λ higher. (
            (
              higher,
              All-map (λ y. less y b ≡ false) (λ y. less y a ≡ false)
                  (λ y h. ground (arith, between y b a)) bs o.0,
            ),
            o,
          ))

    pub sort-InOrder : (xs : List A) → InOrder (sort less xs)
    unfolding sort
    sort-InOrder [] = tt
    sort-InOrder (x ∷ xs) = sort_insert-InOrder x (sort less xs) (sort-InOrder xs)

  module _ (trans : (x y z : A) → less x y ≡ true → less y z ≡ true → less x z ≡ true)
      (irrefl : (x : A) → less x x ≡ false)
      (cases : (x y : A) → (less x y ≡ true) ⊎ ((x ≡ y) ⊎ (less y x ≡ true))) where
    sort_insert-Increasing :
        (a : A) (xs : List A) → (In a xs → ⊥) → Increasing xs → Increasing (sort_insert less a xs)
    unfolding sort_insert
    sort_insert-Increasing a [] apart o = (tt, tt)
    sort_insert-Increasing a (b ∷ bs) apart o =
        if_split Increasing (less b a)
          (λ lower. (
            All-of_In (λ y. less b y ≡ true) (sort_insert less a bs)
                (λ y m. elim (sort_insert-In less y a bs m) [
                  | inl e ↦ subst (λ x. less b x ≡ true) e lower
                  | inr k ↦ All-In (λ x. less b x ≡ true) y bs o.0 k
                ]),
            sort_insert-Increasing a bs (λ m. apart (inr m)) o.1,
          ))
          (λ higher.
            let below : less a b ≡ true = elim (cases a b) [
              | inl l ↦ l
              | inr (inl e) ↦ absurd (apart (inl (sym e)))
              | inr (inr g) ↦ cc
            ] in
            (
              (
                below,
                All-map (λ y. less b y ≡ true) (λ y. less a y ≡ true) (λ y h. trans a b y below h)
                    bs o.0,
              ),
              o,
            ))

    pub sort-Increasing : (xs : List A) → NoDup xs → Increasing (sort less xs)
    unfolding sort
    sort-Increasing [] d = tt
    sort-Increasing (x ∷ xs) d =
        sort_insert-Increasing x (sort less xs) (λ m. d.0 (sort-In less x xs m))
          (sort-Increasing xs d.1)

    -- An element of both tails stands in one where it stands in the other.
    tail-In :
        (x r : A) (xs ys : List A)
        → All (λ y. less x y ≡ true) xs
        → In r xs
        → In r (x ∷ ys)
        → In r ys
    tail-In x r xs ys above m (inl e) =
        let over = All-In (λ y. less x y ≡ true) r xs above m in
        absurd (cc (subst (λ z. less x z ≡ true) (sym e) over, irrefl x))
    tail-In x r xs ys above m (inr k) = k

    -- Two increasing lists with the same elements are one.
    pub Increasing-unique :
        (xs ys : List A)
        → Increasing xs
        → Increasing ys
        → ((r : A) → In r xs → In r ys)
        → ((r : A) → In r ys → In r xs)
        → xs ≡ ys
    Increasing-unique [] [] o p f g = refl
    Increasing-unique [] (y ∷ ys) o p f g = absurd (g y (inl refl))
    Increasing-unique (x ∷ xs) [] o p f g = absurd (f x (inl refl))
    Increasing-unique (x ∷ xs) (y ∷ ys) o p f g =
        let same : x ≡ y = elim (f x (inl refl)) [
          | inl e ↦ sym e
          | inr in_ys ↦ elim (g y (inl refl)) [
            | inl e ↦ e
            | inr in_xs ↦
                let lower = All-In (λ z. less y z ≡ true) x ys p.0 in_ys in
                let higher = All-In (λ z. less x z ≡ true) y xs o.0 in_xs in
                absurd (cc (trans x y x higher lower, irrefl x))
          ]
        ] in
        let rest =
          Increasing-unique xs ys o.1 p.1
            (λ r m. tail-In x r xs ys o.0 m (subst (λ h. In r (h ∷ ys)) (sym same) (f r (inr m))))
            (λ r m. tail-In y r ys xs p.0 m (subst (λ h. In r (h ∷ xs)) same (g r (inr m)))) in
        cc
