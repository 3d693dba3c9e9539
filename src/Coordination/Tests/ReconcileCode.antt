-- ===== src/Coordination/Tests/ReconcileCode.antt =====
-- Every function of the reconcile loop, to compute with.
use threadmill_agent_teams.Coordination.Runtime.Port.{available}
use threadmill_agent_teams.Coordination.Reconcile.Run.{each_with, each_run}
use threadmill_agent_teams.Coordination.Reconcile.Fold.{
  observe, complete, fold_kind, fold_observations, stop_of, release_orphan, repair_lease, stranded,
  quarantine, repair_command, repair_decision_pairs,
}
use threadmill_agent_teams.Coordination.Reconcile.Dispatch.{
  stops, must_stop, stop_lease, not_suppressed, runnable_less, graph_runnable, runtime_candidate,
  runtime_candidates, first_of_id, unique_by_command_id, delivered, deliver,
}
use threadmill_agent_teams.Coordination.Reconcile.Claims.{
  claim_with, claim_action, claim_run, reject_endpoint, claim_endpoint, remove_selected_candidates,
  claim_rounds, select_runtime_endpoints, runtime_candidate_endpoints, fixed_capacity_selection,
}
use threadmill_agent_teams.Coordination.Reconcile.Loop.{
  scheduling_state, claim_all, dispatch, reconcile,
}

-- Unfolding this computes the code on concrete data.
unfoldable pub reconcile_code : Unit {0}
unfolding available each_with each_run observe complete fold_kind fold_observations stop_of
    release_orphan repair_lease stranded quarantine repair_command repair_decision_pairs stops
    must_stop stop_lease not_suppressed runnable_less graph_runnable runtime_candidate
    runtime_candidates first_of_id unique_by_command_id delivered deliver claim_with claim_action
    claim_run reject_endpoint claim_endpoint remove_selected_candidates claim_rounds
    select_runtime_endpoints runtime_candidate_endpoints fixed_capacity_selection scheduling_state
    claim_all dispatch reconcile
reconcile_code = tt
