-- ===== src/MergeQueue/Order.antt =====
-- The order in which ClaimNext of internal/mergequeue/store.go takes candidates.
use threadmill_agent_teams.Base.{
  ◌<◌, ◌≡◌, ◌⊎◌, true, false, String, string_eq, nat_eq, text_lt_trans, text_lt_irrefl,
  text_lt_cases, text_lt, arith,
}
use threadmill_agent_teams.MergeQueue.Model.{Status, Candidate, status_eq}
use threadmill_agent_teams.MergeQueue.Store.{older, claimable}

pub older_asym : (a b : Candidate) → older a b ≡ true → older b a ≡ false
unfolding older
older_asym a b h = ground (arith, text_lt_trans a.id b.id a.id, text_lt_irrefl a.id)

pub older_irrefl : (a : Candidate) → older a a ≡ false
unfolding older
older_irrefl a = ground (arith, text_lt_irrefl a.id)

pub older_between : (a b c : Candidate) → older a c ≡ true → (older a b ≡ true) ⊎ (older b c ≡ true)
unfolding older
older_between a b c h = ground (arith, text_lt_cases a.id b.id, text_lt_trans b.id a.id c.id)

-- A candidate of the repository whose merge has not ended.
abbrev pub Open : String → Candidate → Type 0
Open repository c =
    (c.target_repository ≡ repository)
    × ((c.status ≡ Status.queued)
        ⊎ ((c.status ≡ Status.merge_check) ⊎ (c.status ≡ Status.targeted_verify)))

-- The first was made before the second, or at one time with an identifier that is not above.
abbrev pub NotAfter : Candidate → Candidate → Type 0
NotAfter c d =
    (c.created_at < d.created_at) ⊎ ((c.created_at ≡ d.created_at) × (text_lt d.id c.id ≡ false))

pub claimable-Open :
    (repository : String) (c : Candidate) → claimable repository c ≡ true → Open repository c
unfolding claimable
claimable-Open repository c h = ground arith

pub Open-claimable :
    (repository : String) (c : Candidate) → Open repository c → claimable repository c ≡ true
unfolding claimable
Open-claimable repository c h = ground arith

pub older-NotAfter : (c d : Candidate) → older d c ≡ false → NotAfter c d
unfolding older
older-NotAfter c d h = ground arith
