-- ===== src/Coordination/Graph/Acyclic.antt =====
-- validateAcyclic of internal/coordination/validation.go: the depth-first search over the editable
-- edges and the fixed plan → execute → verify order of each task. A map to Go's `bool` is the list
-- of the keys that it maps to true. The recursion of `visit` takes fuel, and `none` means that it
-- ran out; `validate_acyclic` gives it `depth_bound`.
pub mod Order
pub mod Restores
pub mod Sound
pub mod Complete
pub mod Total
use threadmill_agent_teams.Base.{
  ℕ, zero, suc, Option, none, some, List, [], ◌∷◌, ◌++◌, String, ◌==◌, if◌then◌else◌, mem, length,
}
use threadmill_agent_teams.Kernel.Errors.{Result, ok, err, invalid_graph_error}
use threadmill_agent_teams.Coordination.Types.{
  EndpointId, PhaseEndpointRef, Task, Edge, GraphState, phase_endpoint_ref_eq,
}

abbrev pub at : String → EndpointId → PhaseEndpointRef
at task id = record { task_id = task; endpoint_id = id }

-- An adjacency as the list of its arrows, in the order in which they are appended.
abbrev pub Arrow : Type 0
Arrow = PhaseEndpointRef × PhaseEndpointRef

unfoldable pub edge_arrows : List Edge → List Arrow
edge_arrows [] = []
edge_arrows (edge ∷ edges) = (edge.from, edge.to) ∷ edge_arrows edges

unfoldable pub task_arrows : List (String × Task) → List Arrow
task_arrows [] = []
task_arrows ((id, task) ∷ tasks) =
    (at id EndpointId.plan, at id EndpointId.execute)
    ∷ (at id EndpointId.execute, at id EndpointId.verify)
    ∷ task_arrows tasks

unfoldable pub arrows : GraphState → List Arrow
unfolding edge_arrows task_arrows
arrows state = edge_arrows state.edges ++ task_arrows state.tasks

-- adjacent[ref]
unfoldable pub adjacent : List Arrow → PhaseEndpointRef → List PhaseEndpointRef
adjacent [] ref = []
adjacent ((source, target) ∷ rest) ref =
    if source == ref then target ∷ adjacent rest ref else adjacent rest ref

pub record Search : Type 0 where
  pub visiting : List PhaseEndpointRef
  pub visited : List PhaseEndpointRef

unfoldable pub remove : PhaseEndpointRef → List PhaseEndpointRef → List PhaseEndpointRef
remove ref [] = []
remove ref (x ∷ xs) = if x == ref then remove ref xs else x ∷ remove ref xs

-- visiting[ref] = true
abbrev pub enter : PhaseEndpointRef → Search → Search
enter ref s = record s { visiting = ref ∷ s.visiting }

-- visiting[ref] = false; visited[ref] = true
abbrev pub leave : PhaseEndpointRef → Search → Search
leave ref s = record { visiting = remove ref s.visiting; visited = ref ∷ s.visited }

-- A loop that visits each of a list, and returns the first error.
unfoldable pub visit_all :
    (PhaseEndpointRef → Search → Option (Result Search))
    → List PhaseEndpointRef
    → Search
    → Option (Result Search)
visit_all visit [] s = some (ok s)
visit_all visit (ref ∷ refs) s = elim (visit ref s) [
  | none ↦ none
  | some (err e) ↦ some (err e)
  | some (ok t) ↦ visit_all visit refs t
]

-- The end of `visit`, once its loop is over.
abbrev pub finish : PhaseEndpointRef → Option (Result Search) → Option (Result Search)
finish ref none = none
finish ref (some (err e)) = some (err e)
finish ref (some (ok s)) = some (ok (leave ref s))

unfoldable pub visit : List Arrow → ℕ → PhaseEndpointRef → Search → Option (Result Search)
unfolding adjacent remove visit_all
visit arcs zero ref s = none
visit arcs (suc fuel) ref s =
    let loop = finish ref (visit_all (visit arcs fuel) (adjacent arcs ref) (enter ref s)) in
    if mem ref s.visiting
    then some (err (invalid_graph_error "coordination graph cannot contain cycles"))
    else if mem ref s.visited
    then some (ok s)
    else loop

unfoldable pub keys {ℓ} : {V : Type ℓ} → List (PhaseEndpointRef × V) → List PhaseEndpointRef
keys [] = []
keys ((ref, v) ∷ m) = ref ∷ keys m

-- Two more than there are arrows.
unfoldable pub depth_bound : List Arrow → ℕ
depth_bound arcs = suc (suc (length arcs))

abbrev pub unvisited : Search
unvisited = record { visiting = []; visited = [] }

-- The answer of the search, without the maps that it leaves behind.
abbrev pub verdict : Option (Result Search) → Option (Result (Unit {0}))
verdict none = none
verdict (some (err e)) = some (err e)
verdict (some (ok s)) = some (ok tt)

unfoldable pub validate_acyclic : GraphState → Option (Result (Unit {0}))
unfolding arrows visit keys depth_bound visit_all
validate_acyclic state =
    verdict (
      visit_all (visit (arrows state) (depth_bound (arrows state))) (keys state.endpoints)
        unvisited)
