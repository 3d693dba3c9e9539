-- ===== src/Coordination/Graph/Acyclic/Order.antt =====
-- The order that internal/coordination/validation.go asks to be free of cycles: its arrows as a
-- relation, and paths of one or more of them.
use threadmill_agent_teams.Base.{
  In, ◌≡◌, refl, ap, ◌⊎◌, inl, inr, true, List, [], ◌∷◌, ◌++◌, String, mem, arith,
}
use threadmill_agent_teams.Coordination.Types.{
  EndpointId, PhaseEndpointRef, Task, Edge, GraphState, phase_endpoint_ref_eq,
}
use threadmill_agent_teams.Coordination.Graph.Acyclic.{
  Arrow, at, arrows, edge_arrows, task_arrows, adjacent,
}

-- `y` waits for `x`: by an edge of the graph, or as the next phase of a task of the graph.
pub data Precedes (state : GraphState) (x y : PhaseEndpointRef) : Type 0 where
  declared : (edge : Edge) → In edge state.edges → x ≡ edge.from → y ≡ edge.to → Precedes state x y
  executes :
      (entry : String × Task)
      → In entry state.tasks
      → x ≡ at entry.0 EndpointId.plan
      → y ≡ at entry.0 EndpointId.execute
      → Precedes state x y
  verifies :
      (entry : String × Task)
      → In entry state.tasks
      → x ≡ at entry.0 EndpointId.execute
      → y ≡ at entry.0 EndpointId.verify
      → Precedes state x y

pub data Chain (state : GraphState) : PhaseEndpointRef → PhaseEndpointRef → Type 0 where
  step : {x y : PhaseEndpointRef} → Precedes state x y → Chain state x y
  next :
      {x y : PhaseEndpointRef} (z : PhaseEndpointRef)
      → Precedes state x z
      → Chain state z y
      → Chain state x y

pub Chain-snoc :
    {state : GraphState} {x y : PhaseEndpointRef} (z : PhaseEndpointRef)
    → Chain state x y
    → Precedes state y z
    → Chain state x z
Chain-snoc z (step {y = y} p) q = next y p (step q)
Chain-snoc z (next w p r) q = next w p (Chain-snoc z r q)

-- The successors that the search walks through.
abbrev pub Succ : List Arrow → PhaseEndpointRef → PhaseEndpointRef → Type 0
Succ arcs x y = mem y (adjacent arcs x) ≡ true

Succ-In : (arcs : List Arrow) (x y : PhaseEndpointRef) → Succ arcs x y → In (x, y) arcs
unfolding adjacent mem
Succ-In [] x y h = cc
Succ-In ((a, b) ∷ arcs) x y h = ground (arith, Succ-In arcs x y)

In-Succ : (arcs : List Arrow) (x y : PhaseEndpointRef) → In (x, y) arcs → Succ arcs x y
unfolding adjacent mem
In-Succ [] x y h = absurd h
In-Succ ((a, b) ∷ arcs) x y (inl h) = ground arith
In-Succ ((a, b) ∷ arcs) x y (inr h) = ground (arith, In-Succ arcs x y h)

In-append : {A : Type 0} (a : A) (xs ys : List A) → In a (xs ++ ys) → In a xs ⊎ In a ys
In-append a [] ys h = inr h
In-append a (x ∷ xs) ys (inl h) = inl (inl h)
In-append a (x ∷ xs) ys (inr h) = elim (In-append a xs ys h) [ inl p ↦ inl (inr p) | inr q ↦ inr q ]

In-append_left : {A : Type 0} (a : A) (xs ys : List A) → In a xs → In a (xs ++ ys)
In-append_left a [] ys h = absurd h
In-append_left a (x ∷ xs) ys (inl h) = inl h
In-append_left a (x ∷ xs) ys (inr h) = inr (In-append_left a xs ys h)

In-append_right : {A : Type 0} (a : A) (xs ys : List A) → In a ys → In a (xs ++ ys)
In-append_right a [] ys h = h
In-append_right a (x ∷ xs) ys h = inr (In-append_right a xs ys h)

edge_arrows-Precedes :
    (edges : List Edge) (x y : PhaseEndpointRef)
    → In (x, y) (edge_arrows edges)
    → (edge : Edge) × In edge edges × (x ≡ edge.from) × (y ≡ edge.to)
unfolding edge_arrows
edge_arrows-Precedes [] x y h = absurd h
edge_arrows-Precedes (edge ∷ edges) x y (inl h) = (edge, inl refl, cc, cc)
edge_arrows-Precedes (edge ∷ edges) x y (inr h) =
    let (e, at_e, p, q) = edge_arrows-Precedes edges x y h in (e, inr at_e, p, q)

edge_arrows-In :
    (edges : List Edge) (edge : Edge) → In edge edges → In (edge.from, edge.to) (edge_arrows edges)
unfolding edge_arrows
edge_arrows-In [] edge h = absurd h
edge_arrows-In (e ∷ edges) edge (inl h) = inl (ap (λ (k : Edge). (k.from, k.to)) h)
edge_arrows-In (e ∷ edges) edge (inr h) = inr (edge_arrows-In edges edge h)

task_arrows-Precedes :
    (tasks : List (String × Task)) (x y : PhaseEndpointRef)
    → In (x, y) (task_arrows tasks)
    → (entry : String × Task) × In entry tasks
      × (((x ≡ at entry.0 EndpointId.plan) × (y ≡ at entry.0 EndpointId.execute))
          ⊎ ((x ≡ at entry.0 EndpointId.execute) × (y ≡ at entry.0 EndpointId.verify)))
unfolding task_arrows
task_arrows-Precedes [] x y h = absurd h
task_arrows-Precedes ((id, task) ∷ tasks) x y (inl h) = ((id, task), inl refl, inl (cc, cc))
task_arrows-Precedes ((id, task) ∷ tasks) x y (inr (inl h)) = ((id, task), inl refl, inr (cc, cc))
task_arrows-Precedes ((id, task) ∷ tasks) x y (inr (inr h)) =
    let (e, at_e, p) = task_arrows-Precedes tasks x y h in (e, inr at_e, p)

task_arrows-In :
    (tasks : List (String × Task)) (entry : String × Task)
    → In entry tasks
    → In (at entry.0 EndpointId.plan, at entry.0 EndpointId.execute) (task_arrows tasks)
      × In (at entry.0 EndpointId.execute, at entry.0 EndpointId.verify) (task_arrows tasks)
unfolding task_arrows
task_arrows-In [] entry h = absurd h
task_arrows-In (e ∷ tasks) entry (inl h) = (
  inl (ap (λ (k : String × Task). (at k.0 EndpointId.plan, at k.0 EndpointId.execute)) h),
  inr (inl (ap (λ (k : String × Task). (at k.0 EndpointId.execute, at k.0 EndpointId.verify)) h)),
)
task_arrows-In (e ∷ tasks) entry (inr h) =
    let (p, q) = task_arrows-In tasks entry h in (inr (inr p), inr (inr q))

-- The search's successors are the order's.
pub Succ-Precedes :
    (state : GraphState) (x y : PhaseEndpointRef) → Succ (arrows state) x y → Precedes state x y
unfolding arrows
Succ-Precedes state x y h =
    elim (In-append (x, y) (edge_arrows state.edges) (task_arrows state.tasks) (Succ-In _ x y h)) [
      | inl p ↦ let (e, at_e, q, r) = edge_arrows-Precedes state.edges x y p in declared e at_e q r
      | inr p ↦
          let (e, at_e, q) = task_arrows-Precedes state.tasks x y p in
          elim q [ inl r ↦ executes e at_e r.0 r.1 | inr r ↦ verifies e at_e r.0 r.1 ]
    ]

pub Precedes-Succ :
    {state : GraphState} {x y : PhaseEndpointRef} → Precedes state x y → Succ (arrows state) x y
unfolding arrows
Precedes-Succ {state} {x} {y} (declared edge h p q) =
    In-Succ _ x y (rw (p, q) (In-append_left _ _ _ (edge_arrows-In state.edges edge h)))
Precedes-Succ {state} {x} {y} (executes entry h p q) = In-Succ _ x y (
    rw (p, q)
      (In-append_right _ (edge_arrows state.edges) _ (task_arrows-In state.tasks entry h).0))
Precedes-Succ {state} {x} {y} (verifies entry h p q) = In-Succ _ x y (
    rw (p, q)
      (In-append_right _ (edge_arrows state.edges) _ (task_arrows-In state.tasks entry h).1))
