-- ===== src/Kernel/Revision.antt =====
-- internal/kernel/revision.go. A revision is a uint64, and `next` wraps like Go's `+`.
use threadmill_agent_teams.Base.{
  ℕ, ◌+◌, ◌%◌, ◌^◌, ◌<◌, ◌≡◌, ◌≢◌, Bool, true, [], ◌∷◌, ◌==◌, ◌!=◌, nat_eq, ◌^^◌, decimal, arith,
}
use threadmill_agent_teams.Kernel.Errors.{Error, Result, ok, ◌>>◌, reject_if, revision_conflict}

abbrev pub Revision : Type 0
Revision = ℕ

abbrev pub latest_revision : Revision
latest_revision = 0

abbrev pub u64 : ℕ → ℕ
u64 n = n % 2 ^ 64

unfoldable pub is_latest_read : Revision → Bool
is_latest_read r = r == latest_revision

unfoldable pub next : Revision → Revision
next r = u64 (r + 1)

unfoldable pub revision_conflict_error : Revision → Revision → Error
revision_conflict_error expected actual = record {
  code = revision_conflict;
  message = "revision conflict: expected " ^^ decimal expected ^^ ", actual " ^^ decimal actual;
  recoverable = true;
  details = ("expected_revision", decimal expected) ∷ ("actual_revision", decimal actual) ∷ [];
}

unfoldable pub check_expected_revision : Revision → Revision → Result (Unit {0})
check_expected_revision expected actual = do
  reject_if (expected == latest_revision) (revision_conflict_error expected actual)
  reject_if (expected != actual) (revision_conflict_error expected actual)

-- The check passes only for the current revision, and never for the reserved one.
pub check_expected_revision-eq-ok :
    (expected actual : Revision)
    → check_expected_revision expected actual ≡ ok tt
    → (expected ≡ actual) × (expected ≢ latest_revision)
unfolding check_expected_revision
check_expected_revision-eq-ok expected actual h = ground arith

pub next-gt : (r : Revision) → r + 1 < 2 ^ 64 → next r ≡ r + 1
unfolding next
next-gt r h = omega arith
