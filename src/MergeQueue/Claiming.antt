-- ===== src/MergeQueue/Claiming.antt =====
-- ClaimNext of internal/mergequeue/store.go: which candidate is claimed, and when.
use threadmill_agent_teams.Base.{
  ℕ, ◌≢◌, ◌≡◌, inl, inr, refl, sym, subst, true, false, ◌||◌, if◌then◌else◌, if_cases, Option, none,
  some, List, [], ◌∷◌, String, string_eq, nat_eq, lookup, insert, In, All-In, sort, sort-In,
  In-sort, InOrder, sort-InOrder, arith, lookup-insert_self,
}
use threadmill_agent_teams.Kernel.Errors.{ok, >>=-eq-ok, ok-injective}
use threadmill_agent_teams.MergeQueue.Model.{
  MergeOperation, Status, Candidate, Claim, MergeStore, status_eq,
}
use threadmill_agent_teams.MergeQueue.Checks.{Host, normalize_target_repository}
use threadmill_agent_teams.MergeQueue.Store.{
  claim_next, claim_first, claim_of, older, waiting, begun, given, is_active, active_operation,
}
use threadmill_agent_teams.MergeQueue.Moves.{Move, Moved-same}
use threadmill_agent_teams.MergeQueue.Tables.{
  Tabled, waiting-lookup, lookup-waiting, active_operation-none, Fenced,
}
use threadmill_agent_teams.MergeQueue.Effects.{Effect, Effect-put, Effect-same}
use threadmill_agent_teams.MergeQueue.Order.{
  Open, NotAfter, older_asym, older_irrefl, older_between, claimable-Open, Open-claimable,
  older-NotAfter,
}

claim_first-some :
    (s : MergeStore) (repository : String) (now later : ℕ) (l : List Candidate) (c : Candidate)
    → In c l
    → (s' : MergeStore) × (claim : Claim) × (claim_first s repository now later l
        ≡ (s', some claim))
unfolding claim_first
claim_first-some s repository now later [] c m = absurd m
claim_first-some s repository now later (first ∷ l) c m = (_, _, refl)

-- A claim of the repository, made where no operation is active and no claim is held. Its candidate is
-- the oldest of those that may be claimed, is being checked from now on, and the claim is held.
pub record Claimed (s s' : MergeStore) (repository : String) (now : ℕ) (claim : Claim)
    : Type 0 where
  pub idle :
      (j : String) (o : MergeOperation)
      → lookup j s.operations ≡ some o
      → is_active o.status ≡ true
      → o.target_repository ≢ repository
  pub free : lookup repository s.repo_claims ≡ none
  pub id : String
  pub before : Candidate
  pub found : lookup id s.candidates ≡ some before
  pub may : Open repository before
  pub oldest :
      (j : String) (d : Candidate)
      → lookup j s.candidates ≡ some d
      → Open repository d
      → NotAfter before d
  pub begins : claim.candidate ≡ begun before now
  pub held : lookup repository s'.repo_claims ≡ some claim
  pub stored : lookup id s'.candidates ≡ some claim.candidate

module _ (s : MergeStore) (tabled : Tabled s.candidates) (repository : String) (now later : ℕ) where
  claim_first-Claimed :
      (s' : MergeStore) (claim : Claim) (l : List Candidate)
      → active_operation s.operations repository ≡ none
      → lookup repository s.repo_claims ≡ none
      → InOrder older l
      → ((c : Candidate) → In c l → In c (waiting repository s.candidates))
      → ((c : Candidate) → In c (waiting repository s.candidates) → In c l)
      → claim_first s repository now later l ≡ (s', some claim)
      → Claimed s s' repository now claim
  unfolding claim_first claim_of
  claim_first-Claimed s' claim [] idle free order sound complete h = cc
  claim_first-Claimed s' claim (c ∷ l) idle free order sound complete h =
      let (id, found, may) =
        waiting-lookup repository c s.candidates tabled.distinct (sound c (inl refl)) in
      let own = tabled.keyed id c found in
      let made : claim_of (begun c now) later ≡ claim = ground arith in
      record {
        idle = λ j o. active_operation-none s.operations repository j o idle;
        free = free;
        id = id;
        before = c;
        found = found;
        may = claimable-Open repository c may;
        oldest = λ j d at open_too.
            let waits =
              lookup-waiting repository j d s.candidates at
                (Open-claimable repository d open_too) in
            older-NotAfter c d (elim (complete d waits) [
              | inl e ↦ subst (λ x. older x c ≡ false) e (older_irrefl c)
              | inr m ↦ All-In (λ y. older y c ≡ false) d l order.0 m
            ]);
        begins = ground arith;
        held = ground (arith, lookup-insert_self repository claim s.repo_claims);
        stored = ground (arith, lookup-insert_self c.id (begun c now) s.candidates);
      }

  claim_first-Effect :
      (l : List Candidate)
      → Fenced s.operations
      → ((c : Candidate) → In c l → In c (waiting repository s.candidates))
      → Effect s (claim_first s repository now later l).0
  unfolding claim_first claim_of
  claim_first-Effect [] fenced sound = record {
    moved = Moved-same s.candidates s.candidates refl;
    tabled = tabled;
    fenced = fenced;
  }
  claim_first-Effect (c ∷ l) fenced sound =
      let (id, found, may) =
        waiting-lookup repository c s.candidates tabled.distinct (sound c (inl refl)) in
      let own = tabled.keyed id c found in
      let s' = (claim_first s repository now later (c ∷ l)).0 in
      let c' = record c { status = Status.merge_check; updated_at = now } in
      elim (status_eq.dec c.status Status.queued) [
        | yes first ↦
            let put : s'.candidates ≡ insert id c' s.candidates = ground arith in
            let ops : s'.operations ≡ s.operations = ground arith in
            Effect-put s tabled fenced s' id c c' found (Move.check now first refl) refl put
              (subst Fenced (sym ops) fenced)
        | no again ↦ Effect-same s tabled fenced s' (ground arith) (ground arith)
      ]

  -- A claim that ClaimNext returns is of the oldest candidate of the repository that may be claimed,
  -- and is made where nothing is active or claimed.
  claim_next-Claimed_at :
      (host : Host) (target : String) (s' : MergeStore) (claim : Claim)
      → normalize_target_repository host target ≡ ok repository
      → claim_next host s target now later ≡ ok (s', some claim)
      → Claimed s s' repository now claim
  unfolding claim_next
  claim_next-Claimed_at host target s' claim named h =
      let l = sort older (waiting repository s.candidates) in
      let idle : active_operation s.operations repository ≡ none = ground arith in
      let free : lookup repository s.repo_claims ≡ none = ground arith in
      claim_first-Claimed s' claim l idle free
        (sort-InOrder older older_asym older_between (waiting repository s.candidates))
        (λ c m. sort-In older c (waiting repository s.candidates) m)
        (λ c m. In-sort older c (waiting repository s.candidates) m) (ground arith)

  claim_next-Effect_at :
      (host : Host) (target : String) (s' : MergeStore) (claim : Option Claim)
      → Fenced s.operations
      → normalize_target_repository host target ≡ ok repository
      → claim_next host s target now later ≡ ok (s', claim)
      → Effect s s'
  unfolding claim_next
  claim_next-Effect_at host target s' claim fenced named h =
      let l = sort older (waiting repository s.candidates) in
      let effect =
        claim_first-Effect l fenced (λ c m. sort-In older c (waiting repository s.candidates) m) in
      let open_at =
        given (active_operation s.operations repository)
        || given (lookup repository s.repo_claims) in
      let done : ok (if open_at then (s, none) else claim_first s repository now later l)
          ≡ ok (s', claim) =
        ground arith in
      if_cases (λ (r : MergeStore × Option Claim). r ≡ (s', claim) → Effect s s') open_at
        (λ e. Effect-same s tabled fenced s' (ground arith) (ground arith))
        (λ e. subst (λ (r : MergeStore × Option Claim). Effect s r.0) e effect) (ok-injective done)

-- In a store that has each candidate once, under its own identifier, a claim that ClaimNext returns is
-- of the oldest candidate that may be claimed of the repository that the requested target names once it
-- is normalized, and is made where no operation of that repository is active and no claim of it is held;
-- the claim is held afterwards, and its candidate is being checked.
pub claim_next-Claimed :
    (host : Host) (s s' : MergeStore) (target : String) (now later : ℕ) (claim : Claim)
    → Tabled s.candidates
    → claim_next host s target now later ≡ ok (s', some claim)
    → (repository : String) × (normalize_target_repository host target ≡ ok repository)
      × Claimed s s' repository now claim
unfolding claim_next
claim_next-Claimed host s s' target now later claim tabled h =
    let (repository, named, _) = >>=-eq-ok (normalize_target_repository host target) _ h in
    (
      repository,
      named,
      claim_next-Claimed_at s tabled repository now later host target s' claim named h,
    )

pub claim_next-Effect :
    (host : Host) (s s' : MergeStore) (target : String) (now later : ℕ) (claim : Option Claim)
    → Tabled s.candidates
    → Fenced s.operations
    → claim_next host s target now later ≡ ok (s', claim)
    → Effect s s'
unfolding claim_next
claim_next-Effect host s s' target now later claim tabled fenced h =
    let (repository, named, _) = >>=-eq-ok (normalize_target_repository host target) _ h in
    claim_next-Effect_at s tabled repository now later host target s' claim fenced named h

-- Where a candidate of the repository may be claimed, no operation of it is active and no claim of it
-- is held, ClaimNext returns a claim.
pub claim_next-progress :
    (host : Host) (s : MergeStore) (target repository id : String) (now later : ℕ) (c : Candidate)
    → normalize_target_repository host target ≡ ok repository
    → active_operation s.operations repository ≡ none
    → lookup repository s.repo_claims ≡ none
    → lookup id s.candidates ≡ some c
    → Open repository c
    → (s' : MergeStore) × (claim : Claim) × (claim_next host s target now later
        ≡ ok (s', some claim))
unfolding claim_next
claim_next-progress host s target repository id now later c named idle free found may =
    let l = waiting repository s.candidates in
    let some_first = claim_first-some s repository now later (sort older l) c (
      In-sort older c l
        (lookup-waiting repository id c s.candidates found (Open-claimable repository c may))) in
    (some_first.0, some_first.1, ground (arith, some_first.2))
