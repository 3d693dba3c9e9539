-- ===== src/MergeQueue/Evidence.antt =====
-- dedupeEvidence of internal/mergequeue/store.go: a list of references as the set that it stands for.
use threadmill_agent_teams.Base.{
  ◌≡◌, ◌≢◌, ◌↔◌, inl, inr, refl, subst, false, ◌==◌, ◌||◌, List, [], ◌∷◌, String, string_eq, mem,
  In, sort-In, In-sort, text_lt, text_lt_trans, text_lt_irrefl, text_lt_cases, NoDup, Increasing,
  sort-Increasing, Increasing-unique, arith, Bool-cases,
}
use threadmill_agent_teams.MergeQueue.Checks.{unseen, dedupe_evidence}

record Kept (seen refs : List String) (r : String) : Type 0 where
  listed : In r refs
  named : r ≢ ""
  new : mem r seen ≡ false

unseen-Kept : (seen refs : List String) (r : String) → In r (unseen seen refs) → Kept seen refs r
unfolding unseen mem
unseen-Kept seen [] r m = absurd m
unseen-Kept seen (x ∷ refs) r m = elim (Bool-cases (x == "" || mem x seen)) [
  | inl skip ↦
      let rest = unseen-Kept seen refs r (subst (λ l. In r l) (ground arith) m) in
      record { listed = inr rest.listed; named = rest.named; new = rest.new }
  | inr keep ↦
      let shape : unseen seen (x ∷ refs) ≡ x ∷ unseen (x ∷ seen) refs = ground arith in
      elim (subst (λ l. In r l) shape m) [
        | inl e ↦ record {
          listed = inl e;
          named = ground arith;
          new = subst (λ k. mem k seen ≡ false) e (ground arith);
        }
        | inr k ↦
            let rest = unseen-Kept (x ∷ seen) refs r k in
            let new = rest.new in
            record { listed = inr rest.listed; named = rest.named; new = ground arith }
      ]
]

Kept-unseen : (seen refs : List String) (r : String) → Kept seen refs r → In r (unseen seen refs)
unfolding unseen mem
Kept-unseen seen [] r k = absurd k.listed
Kept-unseen seen (x ∷ refs) r k =
    let named = k.named in
    let new = k.new in
    elim (Bool-cases (x == "" || mem x seen)) [
      | inl skip ↦
          let there : In r refs = elim k.listed [ inl e ↦ absurd (ground arith) | inr m ↦ m ] in
          let shape : unseen seen refs ≡ unseen seen (x ∷ refs) = ground arith in
          subst (λ l. In r l) shape
            (Kept-unseen seen refs r (record { listed = there; named = k.named; new = k.new }))
      | inr keep ↦
          let shape : x ∷ unseen (x ∷ seen) refs ≡ unseen seen (x ∷ refs) = ground arith in
          subst (λ l. In r l) shape
            (elim (string_eq.dec x r) [
              | yes e ↦ inl e
              | no apart ↦
                  let there : In r refs = elim k.listed [ inl e ↦ absurd (apart e) | inr m ↦ m ] in
                  inr (
                    Kept-unseen (x ∷ seen) refs r
                      (record { listed = there; named = k.named; new = ground arith }))
            ])
    ]

unseen-NoDup : (seen refs : List String) → NoDup (unseen seen refs)
unfolding unseen mem
unseen-NoDup seen [] = tt
unseen-NoDup seen (x ∷ refs) = elim (Bool-cases (x == "" || mem x seen)) [
  | inl skip ↦
      let shape : unseen seen refs ≡ unseen seen (x ∷ refs) = ground arith in
      subst NoDup shape (unseen-NoDup seen refs)
  | inr keep ↦
      let shape : x ∷ unseen (x ∷ seen) refs ≡ unseen seen (x ∷ refs) = ground arith in
      subst NoDup shape (
        (λ m. let new = (unseen-Kept (x ∷ seen) refs x m).new in ground arith),
        unseen-NoDup (x ∷ seen) refs,
      )
]

-- A reference stands in the result just where it stands in the list and is not the empty text.
pub dedupe_evidence-In :
    (refs : List String) (r : String)
    → (In r (dedupe_evidence refs) → In r refs × (r ≢ ""))
      × (In r refs → r ≢ "" → In r (dedupe_evidence refs))
unfolding dedupe_evidence mem
dedupe_evidence-In refs r = (
  (λ m.
      let k = unseen-Kept [] refs r (sort-In text_lt r (unseen [] refs) m) in (k.listed, k.named)),
  (λ m named.
      In-sort text_lt r (unseen [] refs)
        (Kept-unseen [] refs r (record { listed = m; named = named; new = refl }))),
)

-- The result is increasing, and so has no reference twice.
pub dedupe_evidence-Increasing : (refs : List String) → Increasing text_lt (dedupe_evidence refs)
unfolding dedupe_evidence
dedupe_evidence-Increasing refs =
    sort-Increasing text_lt text_lt_trans text_lt_irrefl text_lt_cases (unseen [] refs)
      (unseen-NoDup [] refs)

-- The list is the set of the references that are not the empty text: increasing, and so without a
-- repetition, with each of those references and nothing else.
pub record SetOf (refs l : List String) : Type 0 where
  pub increasing : Increasing text_lt l
  pub sound : (r : String) → In r l → In r refs × (r ≢ "")
  pub complete : (r : String) → In r refs → r ≢ "" → In r l

dedupe_evidence-SetOf : (refs : List String) → SetOf refs (dedupe_evidence refs)
dedupe_evidence-SetOf refs = record {
  increasing = dedupe_evidence-Increasing refs;
  sound = λ r. (dedupe_evidence-In refs r).0;
  complete = λ r. (dedupe_evidence-In refs r).1;
}

-- A list is the result just where it is strictly increasing in the order of texts and has as members
-- exactly the references, the empty text left out.
pub dedupe_evidence-canonical : (refs l : List String) → (dedupe_evidence refs ≡ l) ↔ SetOf refs l
dedupe_evidence-canonical refs l =
    let is = dedupe_evidence-SetOf refs in
    (
      λ same. subst (SetOf refs) same is,
      λ it.
          Increasing-unique text_lt text_lt_trans text_lt_irrefl text_lt_cases
            (dedupe_evidence refs) l is.increasing it.increasing
            (λ r m. let (listed, named) = is.sound r m in it.complete r listed named)
            (λ r m. let (listed, named) = it.sound r m in is.complete r listed named),
    )
