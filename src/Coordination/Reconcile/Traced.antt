-- ===== src/Coordination/Reconcile/Traced.antt =====
-- A reconcile of internal/coordination/runtime.go as a sequence of writes of the store.
use threadmill_agent_teams.Base.{
  ℕ, ◌≡◌, refl, sym, ◌∙◌, ap, Bool, true, false, ◌&&◌, ◌||◌, not, ◌==◌, if◌then◌else◌, if_cases,
  Option, none, some, List, [], ◌∷◌, ◌++◌, String, string_eq,
}
use threadmill_agent_teams.Kernel.Errors.{
  Error, Result, ok, err, executor_unavailable, stale_command, lease_conflict, stale_checkpoint,
  command_conflict, error_code_eq,
}
use threadmill_agent_teams.Coordination.Types.{
  ObservationKind, PhaseEndpoint, PhaseCommand, CommandRecord, PhaseLease, PhaseObservation,
  CommandAction,
}
use threadmill_agent_teams.Coordination.Store.Project.{ProjectState}
use threadmill_agent_teams.Coordination.Runtime.Commands.{with_runtime}
use threadmill_agent_teams.Coordination.Runtime.Writes.{RuntimeWrite, written}
use threadmill_agent_teams.Coordination.Runtime.View.{
  RuntimeView, unfolded_observations, active_leases, has_command_for_lease, has_remote_observation,
  revision_ref,
}
use threadmill_agent_teams.Coordination.Reconcile.Run.{Run, pure, after, ◌>>=◌, each_with, each_run}
use threadmill_agent_teams.Coordination.Reconcile.Fold.{
  load, observe, complete, fold_kind, fold_observations, stop_of, release_orphan, repair_lease,
  stranded, quarantine, repair_command, repair_decision_pairs,
}
use threadmill_agent_teams.Coordination.Reconcile.Dispatch.{
  Stopping, stop_lease, must_stop, delivered, deliver,
}
use threadmill_agent_teams.Coordination.Reconcile.Claims.{
  Claims, claimed_as, settled, claim_with, claim_action, claim_run, reject_endpoint, claim_endpoint,
}

-- A project after some writes to its runtime.
unfoldable pub performed : ProjectState → List RuntimeWrite → ProjectState
performed p [] = p
performed p (w ∷ ws) = performed (with_runtime p (written p w)) ws

performed-append :
    (p : ProjectState) (ws vs : List RuntimeWrite)
    → performed p (ws ++ vs) ≡ performed (performed p ws) vs
unfolding performed
performed-append p [] vs = refl
performed-append p (w ∷ ws) vs = performed-append (with_runtime p (written p w)) ws vs

abbrev pub Trace : ProjectState → ProjectState → Type 0
Trace p p' = (ws : List RuntimeWrite) × (p' ≡ performed p ws)

abbrev pub Traced : {A : Type 0} → Run A → Type 0
Traced m = (p : ProjectState) → Trace p (m p).0

Trace-join : (p q r : ProjectState) → Trace p q → Trace q r → Trace p r
Trace-join p q r (ws, e) (vs, f) =
    (ws ++ vs, f ∙ ap (λ x. performed x vs) e ∙ sym (performed-append p ws vs))

pub nothing : (p : ProjectState) → Trace p p
unfolding performed
nothing p = ([], refl)

pub one : (w : RuntimeWrite) (p : ProjectState) → Trace p (with_runtime p (written p w))
unfolding performed
one w p = (w ∷ [], refl)

pub after-Trace :
    {A : Type 0} {B : Type 0} (f : A → Run B) (p : ProjectState) (r : ProjectState × Result A)
    → ((a : A) → Traced (f a))
    → Trace p r.0
    → Trace p (after f r).0
after-Trace f p (q, err e) t first = first
after-Trace f p (q, ok a) t first = Trace-join p q (f a q).0 first (t a q)

pub then-Traced :
    {A : Type 0} {B : Type 0} (m : Run A) (f : A → Run B)
    → Traced m
    → ((a : A) → Traced (f a))
    → Traced (m >>= f)
then-Traced m f first rest p = after-Trace f p (m p) rest (first p)

if-Traced :
    {A : Type 0} (b : Bool) (m n : Run A) → Traced m → Traced n → Traced (if b then m else n)
if-Traced true m n s t = s
if-Traced false m n s t = t

pub each_with-Traced :
    {A : Type 0} {S : Type 0} (f : S → A → Run S) (s : S) (l : List A)
    → ((s : S) (a : A) → Traced (f s a))
    → Traced (each_with f s l)
unfolding each_with
each_with-Traced f s [] t = nothing
each_with-Traced f s (a ∷ l) t =
    then-Traced (f s a) (λ s'. each_with f s' l) (t s a) (λ s'. each_with-Traced f s' l t)

pub each_run-Traced :
    {A : Type 0} (f : A → Run (Unit {0})) (l : List A)
    → ((a : A) → Traced (f a))
    → Traced (each_run f l)
unfolding each_run
each_run-Traced f [] t = nothing
each_run-Traced f (a ∷ l) t =
    then-Traced (f a) (λ u. each_run f l) (t a) (λ u. each_run-Traced f l t)

fold_kind-Traced : (k : ObservationKind) (o : PhaseObservation) → Traced (fold_kind k o)
unfolding fold_kind observe complete
fold_kind-Traced ObservationKind.started o = one (RuntimeWrite.observe o)
fold_kind-Traced ObservationKind.output o = one (RuntimeWrite.complete o)
fold_kind-Traced ObservationKind.failed o = one (RuntimeWrite.complete o)
fold_kind-Traced ObservationKind.stopped o =
    if_cases Traced (o.checkpoint_ref == "" && not o.non_resumable) nothing
      (one (RuntimeWrite.complete o))
fold_kind-Traced ObservationKind.dispatch_rejected o = nothing
fold_kind-Traced (ObservationKind.other s) o = nothing

pub fold_observations-Traced : (view : RuntimeView) (now : ℕ) → Traced (fold_observations view now)
unfolding fold_observations
fold_observations-Traced view now =
    then-Traced
      (each_run (λ (o : PhaseObservation). fold_kind o.kind o) (unfolded_observations view))
      (λ u. load now)
      (each_run-Traced (λ (o : PhaseObservation). fold_kind o.kind o) (unfolded_observations view)
        (λ o. fold_kind-Traced o.kind o))
      (λ u. nothing)

repair_lease-Traced : (view : RuntimeView) (lease : PhaseLease) → Traced (repair_lease view lease)
unfolding repair_lease stop_of release_orphan
repair_lease-Traced view lease =
    if_cases Traced (has_command_for_lease view lease.lease_ref) nothing (
      if_cases Traced (has_remote_observation view lease)
        (one (RuntimeWrite.stop view.revision lease))
        (λ p.
          after-Trace (λ u. pure view) p (release_orphan lease.lease_ref p) (λ u. nothing)
            (one (RuntimeWrite.release lease.lease_ref) p)))

repair_command-Traced :
    (view : RuntimeView) (entry : String × CommandRecord) → Traced (repair_command view entry)
unfolding repair_command quarantine
repair_command-Traced view (id, r) =
    if_cases Traced (stranded view r) (one (RuntimeWrite.quarantine id)) nothing

pub repair_decision_pairs-Traced :
    (view : RuntimeView) (now : ℕ) → Traced (repair_decision_pairs view now)
unfolding repair_decision_pairs
repair_decision_pairs-Traced view now =
    then-Traced (each_with repair_lease view (active_leases view))
      (λ repaired. each_run (repair_command repaired) repaired.commands >>= λ u. load now)
      (each_with-Traced repair_lease view (active_leases view) repair_lease-Traced)
      (λ repaired.
        then-Traced (each_run (repair_command repaired) repaired.commands) (λ u. load now)
          (each_run-Traced (repair_command repaired) repaired.commands
            (repair_command-Traced repaired))
          (λ u. nothing))

pub stop_lease-Traced : (s : Stopping) (lease : PhaseLease) → Traced (stop_lease s lease)
unfolding stop_lease stop_of
stop_lease-Traced (view, commands) lease =
    if_cases Traced (not (must_stop view lease)) nothing
      (one (RuntimeWrite.stop view.revision lease))

delivered-Traced :
    (command : PhaseCommand) (answer : Option Error) → Traced (delivered command answer)
unfolding delivered quarantine
delivered-Traced command none = one (RuntimeWrite.accept command.id)
delivered-Traced command (some e) =
    if_cases Traced (e.code == executor_unavailable) (one (RuntimeWrite.retry command.id)) (
      if_cases Traced (e.code == stale_command || e.code == lease_conflict)
        (one (RuntimeWrite.reject command e.code))
        (if_cases Traced (e.code == stale_checkpoint) (one (RuntimeWrite.reject command e.code)) (
          if_cases Traced (e.code == command_conflict) (one (RuntimeWrite.quarantine command.id))
            (one (RuntimeWrite.retry command.id)))))

pub deliver-Traced :
    (controller : Option (PhaseCommand → Option Error)) (command : PhaseCommand)
    → Traced (deliver controller command)
unfolding deliver
deliver-Traced none command = one (RuntimeWrite.retry command.id)
deliver-Traced (some apply) command = delivered-Traced command (apply command)

claimed_as-Traced :
    (view : RuntimeView) (e : PhaseEndpoint) (now : ℕ) (action : Result CommandAction)
    → Traced (claimed_as view e now action)
unfolding claim_with
claimed_as-Traced view e now (err failure) = nothing
claimed_as-Traced view e now (ok action) =
    one (RuntimeWrite.claim now view.revision e action (revision_ref view.revision))

settled-Trace :
    (e : PhaseEndpoint) (claims : Claims) (p : ProjectState)
    (r : ProjectState × Result (PhaseCommand × Bool))
    → Trace p r.0
    → Trace p (settled e claims r).0
unfolding reject_endpoint
settled-Trace e (any_claim, commands) p (q, ok (command, claimed)) t = t
settled-Trace e (any_claim, commands) p (q, err failure) t =
    if_cases (λ (m : Run Claims). Trace p (m q).0) (failure.code == stale_checkpoint)
      (Trace-join p q _ t
        (one (RuntimeWrite.reject_endpoint e.ref e.generation e.binding_ref failure.code) q))
      t

pub claim_endpoint-Traced :
    (view : RuntimeView) (clock : PhaseEndpoint → ℕ) (claims : Claims) (e : PhaseEndpoint)
    → Traced (claim_endpoint view clock claims e)
unfolding claim_endpoint claim_run
claim_endpoint-Traced view clock claims e p =
    settled-Trace e claims p (claim_run view e (clock e) p)
      (claimed_as-Traced view e (clock e) (claim_action view e) p)
