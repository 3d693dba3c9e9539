-- ===== src/Scheduler/Fitting.antt =====
-- What the greedy loop of `Select` in internal/scheduler/scheduler.go takes of a list.
use threadmill_agent_teams.Base.{
  ◌^◌, ◌<◌, ◌≡◌, ◌⊎◌, inl, inr, List, [], ◌∷◌, In, All, if_cases, ℤ, pos, above, ◌+ℤ◌, ◌≤ℤ◌, ◌<ℤ◌,
  ltb_ℤ, int64, int64-Fits, +ℤ_lem, one_side, int_eq, arith, Bool-cases, subst,
}
use threadmill_agent_teams.Coordination.Types.{endpoint_id_eq}
use threadmill_agent_teams.Coordination.Runtime.Port.{RuntimeCandidate}
use threadmill_agent_teams.Scheduler.Select.{take_fitting}

-- The capacity that candidates take together.
unfoldable pub total_cost : List RuntimeCandidate → ℤ
unfolding ◌+ℤ◌
total_cost [] = pos 0
total_cost (c ∷ cs) = c.capacity_cost +ℤ total_cost cs

abbrev pub Costed : ℤ → RuntimeCandidate → Type 0
Costed limit c = (pos 1 ≤ℤ c.capacity_cost) × (c.capacity_cost ≤ℤ limit)

-- Below 2 ^ 62 the sum does not wrap.
no_wrap :
    (limit used cost : ℤ)
    → above limit < 2 ^ 62
    → pos 0 ≤ℤ used
    → used ≤ℤ limit
    → pos 1 ≤ℤ cost
    → cost ≤ℤ limit
    → int64 (used +ℤ cost) ≡ used +ℤ cost
no_wrap limit used cost small at_least at_most one fits =
    let sum = +ℤ_lem used cost in
    let side = one_side (used +ℤ cost) in
    int64-Fits (used +ℤ cost) (grind (arith, sum, side), grind (arith, sum, side))

-- What the loop takes of a list, from the capacity that is used, and what it leaves.
pub record Taken (limit used : ℤ) (cs ts : List RuntimeCandidate) : Type 0 where
  pub fits : used +ℤ total_cost ts ≤ℤ limit
  pub counted : pos 0 ≤ℤ total_cost ts
  pub left :
      (c : RuntimeCandidate)
      → In c cs
      → In c ts ⊎ (limit <ℤ used +ℤ total_cost ts +ℤ c.capacity_cost)

pub take_fitting-Taken :
    (limit used : ℤ) (cs : List RuntimeCandidate)
    → above limit < 2 ^ 62
    → pos 0 ≤ℤ used
    → used ≤ℤ limit
    → All (Costed limit) cs
    → Taken limit used cs (take_fitting limit used cs)
unfolding take_fitting total_cost
take_fitting-Taken limit used [] small at_least at_most all = record {
  fits = omega (arith, +ℤ_lem used (pos 0));
  counted = omega arith;
  left = λ c m. absurd m;
}
take_fitting-Taken limit used (c ∷ cs) small at_least at_most all =
    let next = used +ℤ c.capacity_cost in
    let exact = no_wrap limit used c.capacity_cost small at_least at_most all.0.0 all.0.1 in
    let sum = +ℤ_lem used c.capacity_cost in
    elim (Bool-cases (ltb_ℤ limit next)) [
      | inl over ↦
          let rest = take_fitting-Taken limit used cs small at_least at_most all.1 in
          let same : take_fitting limit used cs ≡ take_fitting limit used (c ∷ cs) =
            ground (arith, exact) in
          let total = total_cost (take_fitting limit used cs) in
          let past = +ℤ_lem used total in
          let all_past = +ℤ_lem (used +ℤ total) c.capacity_cost in
          let counted = rest.counted in
          let beyond : limit <ℤ next = ground arith in
          subst (Taken limit used (c ∷ cs)) same (record {
            fits = rest.fits;
            counted = rest.counted;
            left = λ d m. elim m [
              | inl here ↦ inr (
                  subst (λ (x : RuntimeCandidate). limit <ℤ used +ℤ total +ℤ x.capacity_cost) here
                    (omega (arith, sum, past, all_past, counted, beyond)))
              | inr there ↦ rest.left d there
            ];
          })
      | inr room ↦
          let below_limit : next ≤ℤ limit = ground arith in
          let rest =
            take_fitting-Taken limit next cs small (omega (arith, sum, all.0)) below_limit all.1 in
          let same : c ∷ take_fitting limit next cs ≡ take_fitting limit used (c ∷ cs) =
            ground (arith, exact) in
          let total = total_cost (take_fitting limit next cs) in
          let whole = +ℤ_lem c.capacity_cost total in
          let with_used = +ℤ_lem used (c.capacity_cost +ℤ total) in
          let with_next = +ℤ_lem next total in
          let fits = rest.fits in
          let counted = rest.counted in
          subst (Taken limit used (c ∷ cs)) same (record {
            fits = omega (arith, sum, whole, with_used, with_next, fits);
            counted = omega (arith, whole, counted, all.0);
            left = λ d m. elim m [
              | inl here ↦ inl (inl here)
              | inr there ↦ elim (rest.left d there) [
                | inl taken ↦ inl (inr taken)
                | inr full ↦ inr (
                    omega (
                      arith,
                      sum,
                      whole,
                      with_used,
                      with_next,
                      full,
                      +ℤ_lem (used +ℤ (c.capacity_cost +ℤ total)) d.capacity_cost,
                      +ℤ_lem (next +ℤ total) d.capacity_cost,
                    ))
              ]
            ];
          })
    ]

pub take_fitting-In :
    (limit used : ℤ) (c : RuntimeCandidate) (cs : List RuntimeCandidate)
    → In c (take_fitting limit used cs)
    → In c cs
unfolding take_fitting
take_fitting-In limit used c [] m = m
take_fitting-In limit used c (d ∷ cs) m =
    if_cases (λ l. In c l → In c (d ∷ cs)) (ltb_ℤ limit (int64 (used +ℤ d.capacity_cost)))
      (λ k. inr (take_fitting-In limit used c cs k))
      (λ k. elim k [
        | inl e ↦ inl e
        | inr r ↦ inr (take_fitting-In limit (int64 (used +ℤ d.capacity_cost)) c cs r)
      ])
      m
