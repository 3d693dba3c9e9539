-- ===== src/Coordination/Reconcile/Run.antt =====
-- Computations on one project's state, as the methods of internal/coordination/runtime.go make them of
-- the store's methods. What an error leaves written stays written.
use threadmill_agent_teams.Base.{List, [], ◌∷◌}
use threadmill_agent_teams.Kernel.Errors.{Error, Result, ok, err}
use threadmill_agent_teams.Coordination.Store.Project.{ProjectState}
use threadmill_agent_teams.Coordination.Runtime.Commands.{with_runtime}
use threadmill_agent_teams.Coordination.Runtime.Writes.{RuntimeWrite, written}

abbrev pub Run : Type 0 → Type 0
Run A = ProjectState → ProjectState × Result A

abbrev pub pure : {A : Type 0} → A → Run A
pure a p = (p, ok a)

abbrev pub raise : {A : Type 0} → Error → Run A
raise e p = (p, err e)

abbrev pub after :
    {A : Type 0} {B : Type 0} → (A → Run B) → ProjectState × Result A → ProjectState × Result B
after f (p, err e) = (p, err e)
after f (p, ok a) = f a p

infixl 5 ◌>>=◌
abbrev pub ◌>>=◌ : {A : Type 0} {B : Type 0} → Run A → (A → Run B) → Run B
(m >>= f) p = after f (m p)

infixl 5 ◌>>◌
abbrev pub ◌>>◌ : {B : Type 0} → Run (Unit {0}) → Run B → Run B
m >> n = m >>= λ _. n

-- A write of the store, and what its method answers.
abbrev pub perform : {A : Type 0} → RuntimeWrite → (ProjectState → Result A) → Run A
perform w answer p = (with_runtime p (written p w), answer p)

-- What is read of the project as it is.
abbrev pub read : {A : Type 0} → (ProjectState → A) → Run A
read f p = (p, ok (f p))

abbrev pub outcome : {A : Type 0} → Result A → Result (Unit {0})
outcome (err e) = err e
outcome (ok a) = ok tt

-- A loop that carries a value.
unfoldable pub each_with : {A : Type 0} {S : Type 0} → (S → A → Run S) → S → List A → Run S
each_with f s [] = pure s
each_with f s (a ∷ rest) = f s a >>= λ t. each_with f t rest

unfoldable pub each_run : {A : Type 0} → (A → Run (Unit {0})) → List A → Run (Unit {0})
each_run f [] = pure tt
each_run f (a ∷ rest) = f a >> each_run f rest
