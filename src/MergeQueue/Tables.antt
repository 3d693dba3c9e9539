-- ===== src/MergeQueue/Tables.antt =====
-- The maps of candidates and of operations that internal/mergequeue/store.go keeps, and when they are
-- in order.
use threadmill_agent_teams.Base.{
  ◌≡◌, ◌≢◌, inl, inr, refl, ap, subst, true, false, ◌==◌, none, some, List, [], ◌∷◌, String,
  string_eq, lookup, insert, In, is_blank, arith, lookup-insert, if_split,
}
use threadmill_agent_teams.MergeQueue.Model.{
  Candidate, MergeOperation, status_eq, operation_status_eq,
}
use threadmill_agent_teams.MergeQueue.Moves.{Table}
use threadmill_agent_teams.MergeQueue.Store.{is_active, active_operation, claimable, waiting}

-- No key stands twice.
abbrev pub Distinct : {V : Type 0} → List (String × V) → Type 0
Distinct [] = Unit
Distinct ((k, v) ∷ m) = (lookup k m ≡ none) × Distinct m

Distinct-insert :
    {V : Type 0} (at : String) (v : V) (m : List (String × V))
    → Distinct m
    → Distinct (insert at v m)
unfolding insert lookup
Distinct-insert at v [] d = (refl, tt)
Distinct-insert at v ((k, w) ∷ m) d =
    let free = d.0 in
    if_split Distinct (k == at) (λ same. (ground arith, d.1))
      (λ apart. (ground (arith, lookup-insert at k v m), Distinct-insert at v m d.1))

pub record Tabled (m : Table) : Type 0 where
  pub keyed : (id : String) (c : Candidate) → lookup id m ≡ some c → c.id ≡ id
  pub distinct : Distinct m

pub Tabled-insert :
    (at : String) (d : Candidate) (m : Table) → d.id ≡ at → Tabled m → Tabled (insert at d m)
Tabled-insert at d m own t = record {
  keyed = λ id c h.
      let before = t.keyed id c in
      elim (string_eq.dec at id) [
        | yes here ↦ ground (arith, lookup-insert at id d m)
        | no apart ↦ before (ground (arith, lookup-insert at id d m))
      ];
  distinct = Distinct-insert at d m t.distinct;
}

-- A candidate that waits is found under a key.
pub waiting-lookup :
    (repository : String) (c : Candidate) (m : Table)
    → Distinct m
    → In c (waiting repository m)
    → (id : String) × (lookup id m ≡ some c) × (claimable repository c ≡ true)
unfolding waiting lookup
waiting-lookup repository c [] d h = absurd h
waiting-lookup repository c ((k, v) ∷ m) d h =
    let later : In c (waiting repository m)
        → (id : String) × (lookup id ((k, v) ∷ m) ≡ some c) × (claimable repository c ≡ true) =
      λ there.
        let (id, found, may) = waiting-lookup repository c m d.1 there in
        (id, ground (arith, d.0), may) in
    if_split
      (λ l.
        In c l
        → (id : String) × (lookup id ((k, v) ∷ m) ≡ some c) × (claimable repository c ≡ true))
      (claimable repository v)
      (λ may here. elim here [
        | inl e ↦ (k, ground arith, subst (λ x. claimable repository x ≡ true) e may)
        | inr there ↦ later there
      ])
      (λ not_it there. later there) h

-- And every candidate that may be claimed waits.
pub lookup-waiting :
    (repository id : String) (c : Candidate) (m : Table)
    → lookup id m ≡ some c
    → claimable repository c ≡ true
    → In c (waiting repository m)
unfolding waiting lookup
lookup-waiting repository id c [] h may = absurd (ground arith)
lookup-waiting repository id c ((k, v) ∷ m) h may = elim (string_eq.dec k id) [
  | yes here ↦
      let it : v ≡ c = ground arith in
      if_split (λ l. In c l) (claimable repository v) (λ t. inl it)
        (λ f. absurd (ground (arith, ap (claimable repository) it)))
  | no apart ↦
      let there = lookup-waiting repository id c m (ground arith) may in
      if_split (λ l. In c l) (claimable repository v) (λ t. inr there) (λ f. there)
]

-- The operations: each under its own identifier, with a revision to merge to, and at most one active
-- for a repository.
pub record Fenced (ops : List (String × MergeOperation)) : Type 0 where
  pub keyed : (id : String) (o : MergeOperation) → lookup id ops ≡ some o → o.id ≡ id
  pub revised :
      (id : String) (o : MergeOperation)
      → lookup id ops ≡ some o
      → is_blank o.expected_merged_revision ≡ false
  pub alone :
      (i j : String) (o p : MergeOperation)
      → lookup i ops ≡ some o
      → lookup j ops ≡ some p
      → is_active o.status ≡ true
      → is_active p.status ≡ true
      → o.target_repository ≡ p.target_repository
      → i ≡ j

-- No operation is found only where none is active for the repository.
pub active_operation-none :
    (ops : List (String × MergeOperation)) (repository id : String) (o : MergeOperation)
    → active_operation ops repository ≡ none
    → lookup id ops ≡ some o
    → is_active o.status ≡ true
    → o.target_repository ≢ repository
unfolding active_operation lookup
active_operation-none [] repository id o h found active = absurd (ground arith)
active_operation-none ((k, p) ∷ ops) repository id o h found active =
    let rest = active_operation-none ops repository id o in
    elim (string_eq.dec k id) [
      | yes here ↦ ground arith
      | no apart ↦ rest (ground arith) (ground arith) active
    ]

pub Fenced-new :
    (o : MergeOperation) (ops : List (String × MergeOperation))
    → active_operation ops o.target_repository ≡ none
    → is_blank o.expected_merged_revision ≡ false
    → Fenced ops
    → Fenced (insert o.id o ops)
Fenced-new o ops free revision f =
    let at = λ (id : String). lookup-insert o.id id o ops in
    let none_active = active_operation-none ops o.target_repository in
    record {
      keyed = λ id p h. ground (arith, at id, f.keyed id p);
      revised = λ id p h. ground (arith, at id, f.revised id p);
      alone = λ i j p q h k a b same.
          ground (arith, at i, at j, f.alone i j p q, none_active i p free, none_active j q free);
    }

-- An active operation may change its status, and what is no part of its identity.
pub Fenced-change :
    (at : String) (o o' : MergeOperation) (ops : List (String × MergeOperation))
    → lookup at ops ≡ some o
    → is_active o.status ≡ true
    → o'.id ≡ o.id
    → o'.target_repository ≡ o.target_repository
    → o'.expected_merged_revision ≡ o.expected_merged_revision
    → Fenced ops
    → Fenced (insert at o' ops)
Fenced-change at o o' ops found active own repository revision f =
    let look = λ (id : String). lookup-insert at id o' ops in
    record {
      keyed = λ id p h. ground (arith, look id, f.keyed id p, f.keyed at o found);
      revised = λ id p h. ground (arith, look id, f.revised id p, f.revised at o found);
      alone = λ i j p q h k a b same.
          ground (arith, look i, look j, f.alone i j p q, f.alone at j o q found, f.alone i at p o);
    }
