-- ===== src/Scenario/Safety/Gates.antt =====
-- Unlock actions stand behind their gates in the system graph.
use home_sentinel.Base.{
  ◌≡◌, refl, sym, ap, ◌∙◌, ◌<>◌, String, true, false, List, [], ◌∷◌, ◌++◌, map, Dict, lookup,
  if◌then◌else◌, Bool-cases, inl, inr,
}
use mathlib.Core.List.{append-nil, append_assoc, map-append}
use home_sentinel.Scenario.Model.{low, high, critical, ActionStep, Flow}
use home_sentinel.Scenario.Safety.{
  Descriptor, NodeKind, GraphNode, Analysis, node, point_last, add_node, add_nodes, is_unlock,
  is_siren,
}
use home_sentinel.Scenario.Safety.Walk.{
  gate_nodes, siren_nodes, action_risk, visit_action, visit_node, durable, apply_safety_pass,
}
use home_sentinel.Scenario.Safety.Chain.{Kept, Linked, apply_safety_pass_chains}
use home_sentinel.Scenario.Safety.Reach.{UnlockIn, apply_safety_pass-reaches}

-- A node without its edges.
abbrev pub core : GraphNode → GraphNode
core n = record n { next = [] }

point_last-core : (id : String) (ns : List GraphNode) → map core (point_last id ns) ≡ map core ns
unfolding point_last
point_last-core id [] = refl
point_last-core id (n ∷ []) = refl
point_last-core id (n ∷ m ∷ ns) =
    ap (λ (l : List GraphNode). core n ∷ l) (point_last-core id (m ∷ ns))

core-add_node :
    (n : GraphNode) (ns : List GraphNode) → map core (add_node n ns) ≡ map core ns ++ core n ∷ []
unfolding add_node
core-add_node n ns =
    map-append core (point_last n.id ns) (n ∷ [])
    ∙ ap (λ (l : List GraphNode). l ++ core n ∷ []) (point_last-core n.id ns)

core-add_nodes : (ms ns : List GraphNode) → map core (add_nodes ms ns) ≡ map core ns ++ map core ms
unfolding add_nodes
core-add_nodes [] ns = sym (append-nil (map core ns))
core-add_nodes (m ∷ ms) ns =
    core-add_nodes ms (add_node m ns)
    ∙ (ap (λ (l : List GraphNode). l ++ map core ms) (core-add_node m ns)
        ∙ append_assoc (map core ns) (core m ∷ []) (map core ms))

-- What an unlock needs around it: who may pass, one writer, a look at the state, the unlock itself,
-- and a look at what it did. All but the unlock belong to the system.
abbrev pub row : String → List GraphNode
row id =
    node ("system_safety_approval_" <> id) NodeKind.human_approval true critical
    ∷ node ("system_safety_lock_" <> id) NodeKind.resource_reservation true high
    ∷ node ("system_safety_read_" <> id) NodeKind.read_before_write true low
    ∷ node ("system_action_" <> id) NodeKind.action false critical
    ∷ node ("system_safety_verify_" <> id) NodeKind.verify_after_write true low
    ∷ []

-- These nodes for step `id` stand in a row, whatever their edges.
abbrev Rowed : String → List GraphNode → Type 0
Rowed id ns = (pre post : List GraphNode) × (map core ns ≡ pre ++ (row id ++ post))

Rowed-grow :
    (id : String) (ns ns' extra : List GraphNode)
    → map core ns' ≡ map core ns ++ extra
    → Rowed id ns
    → Rowed id ns'
Rowed-grow id ns ns' extra grown (pre, post, e) = (
  pre,
  post ++ extra,
  grown
      ∙ (ap (λ (l : List GraphNode). l ++ extra) e
          ∙ (append_assoc pre (row id ++ post) extra
              ∙ ap (λ (l : List GraphNode). pre ++ l) (append_assoc (row id) post extra))),
)

-- What a branch for an action appends to the system's nodes.
abbrev action_nodes : Dict Descriptor → String → ActionStep → List GraphNode
action_nodes resolved id a =
    if is_unlock a.capability.id
    then gate_nodes id
    else if is_siren a.capability.id
    then siren_nodes id
    else node id NodeKind.action false
        (action_risk a.capability.id (lookup a.capability.id resolved))
      ∷ []

core-visit_action :
    (resolved : Dict Descriptor) (id : String) (a : ActionStep) (s : Analysis)
    → map core (visit_action resolved id a s).system_nodes
      ≡ map core s.system_nodes ++ action_nodes resolved id a
unfolding visit_action
core-visit_action resolved id a s = elim (Bool-cases (is_unlock a.capability.id)) [
  | inl unlock ↦ rw unlock (core-add_nodes (gate_nodes id) s.system_nodes)
  | inr other ↦ elim (Bool-cases (is_siren a.capability.id)) [
    | inl siren ↦ rw (other, siren) (core-add_nodes (siren_nodes id) s.system_nodes)
    | inr plain ↦ rw (other, plain) (core-add_node (node id NodeKind.action false _) s.system_nodes)
  ]
]

Rowed-Kept :
    (resolved : Dict Descriptor) (id : String) → Kept resolved (λ s. Rowed id s.system_nodes)
unfolding visit_node durable
Rowed-Kept resolved id = record {
  keep_action = λ id' a s g.
      Rowed-grow id s.system_nodes _ (action_nodes resolved id' a)
        (core-visit_action resolved id' a s) g;
  keep_node = λ id' kind risk s g.
      Rowed-grow id s.system_nodes _ (node id' kind false risk ∷ [])
        (core-add_node (node id' kind false risk) s.system_nodes) g;
  keep_durable = λ r s g. g;
}

module _ (resolved : Dict Descriptor) where
  visit_action-Rowed :
      (id : String) (a : ActionStep) (s : Analysis)
      → is_unlock a.capability.id ≡ true
      → Rowed id (visit_action resolved id a s).system_nodes
  visit_action-Rowed id a s unlock = (
    map core s.system_nodes,
    [],
    core-visit_action resolved id a s
        ∙ rw unlock
            (ap (λ (l : List GraphNode). map core s.system_nodes ++ l) (sym (append-nil (row id)))),
  )

  apply_safety_pass-Rowed :
      (id : String) (f : Flow)
      → UnlockIn id f "flow" 0
      → Rowed id (apply_safety_pass resolved f).system_nodes
  apply_safety_pass-Rowed =
      apply_safety_pass-reaches resolved (λ id s. Rowed id s.system_nodes) (Rowed-Kept resolved)
        visit_action-Rowed

-- The same five nodes with their edges: each points at the next one alone, and the last at `onward`.
abbrev pub gates : String → (onward : List String) → List GraphNode
gates id onward =
    record (node ("system_safety_approval_" <> id) NodeKind.human_approval true critical) {
      next = ("system_safety_lock_" <> id) ∷ [];
    }
    ∷ record (node ("system_safety_lock_" <> id) NodeKind.resource_reservation true high) {
      next = ("system_safety_read_" <> id) ∷ [];
    }
    ∷ record (node ("system_safety_read_" <> id) NodeKind.read_before_write true low) {
      next = ("system_action_" <> id) ∷ [];
    }
    ∷ record (node ("system_action_" <> id) NodeKind.action false critical) {
      next = ("system_safety_verify_" <> id) ∷ [];
    }
    ∷ record (node ("system_safety_verify_" <> id) NodeKind.verify_after_write true low) {
      next = onward;
    }
    ∷ []

-- The nodes of step `id` stand in a graph as a stretch of the chain that the graph is: each node, in the
-- stretch and elsewhere, points at the node after it and at nothing else.
abbrev pub Gated : String → List GraphNode → Type 0
Gated id ns =
    ((pre post : List GraphNode) × (onward : List String) × (ns ≡ pre ++ (gates id onward ++ post)))
    × Linked ns

Linked-tail : (n : GraphNode) (ns : List GraphNode) → Linked (n ∷ ns) → Linked ns
Linked-tail n [] h = tt
Linked-tail n (m ∷ ns) h = h.1

point : (n c : GraphNode) (to : List String) → core n ≡ c → n.next ≡ to → n ≡ record c { next = to }
point n c to e f =
    ap (λ (m : GraphNode). record m { next = n.next }) e ∙ ap (λ x. record c { next = x }) f

-- Nodes that point at one another in turn, the last at `onward`.
abbrev pointed : List GraphNode → (onward : List String) → List GraphNode
pointed [] onward = []
pointed (c ∷ []) onward = record c { next = onward } ∷ []
pointed (c ∷ d ∷ cs) onward = record c { next = d.id ∷ [] } ∷ pointed (d ∷ cs) onward

heads : (n c : GraphNode) (ns cs : List GraphNode) → n ∷ ns ≡ c ∷ cs → (n ≡ c) × (ns ≡ cs)
heads n c ns cs e = (cc, cc)

-- In a chain, nodes that stand in a row have their edges.
edges_here :
    (c : GraphNode) (cs ns post : List GraphNode)
    → map core ns ≡ (c ∷ cs) ++ post
    → Linked ns
    → (rest : List GraphNode) × (onward : List String) × (ns ≡ pointed (c ∷ cs) onward ++ rest)
edges_here c cs [] post h l = absurd (cc)
edges_here c [] (n ∷ ns) post h l =
    (ns, n.next, ap (λ (m : GraphNode). m ∷ ns) (point n c n.next (heads _ c _ post h).0 refl))
edges_here c (d ∷ cs) (n ∷ []) post h l = absurd (cc)
edges_here c (d ∷ cs) (n ∷ m ∷ ns) post h (to, l) =
    let (here, there) = heads _ c _ ((d ∷ cs) ++ post) h in
    let (rest, onward, e) = edges_here d cs (m ∷ ns) post there l in
    let named = ap (λ (k : GraphNode). k.id) (heads _ d _ (cs ++ post) there).0 in
    (
      rest,
      onward,
      ap (λ (k : GraphNode). k ∷ m ∷ ns) (point n c (d.id ∷ []) here (to ∙ ap (λ x. x ∷ []) named))
          ∙ ap (λ (l : List GraphNode). record c { next = d.id ∷ [] } ∷ l) e,
    )

edges :
    (id : String) (ns pre post : List GraphNode)
    → map core ns ≡ pre ++ (row id ++ post)
    → Linked ns
    → (before rest : List GraphNode) × (onward : List String) × (ns
        ≡ before ++ (gates id onward ++ rest))
edges id ns [] post h l =
    let (rest, onward, e) =
      edges_here (node ("system_safety_approval_" <> id) NodeKind.human_approval true critical)
        (node ("system_safety_lock_" <> id) NodeKind.resource_reservation true high
          ∷ node ("system_safety_read_" <> id) NodeKind.read_before_write true low
          ∷ node ("system_action_" <> id) NodeKind.action false critical
          ∷ node ("system_safety_verify_" <> id) NodeKind.verify_after_write true low
          ∷ [])
        ns post h l in
    ([], rest, onward, e)
edges id [] (p ∷ pre) post h l = absurd (cc)
edges id (n ∷ ns) (p ∷ pre) post h l =
    let tail = (heads _ p _ (pre ++ (row id ++ post)) h).1 in
    let (before, rest, onward, e) = edges id ns pre post tail (Linked-tail n ns l) in
    (n ∷ before, rest, onward, ap (λ (l : List GraphNode). n ∷ l) e)

-- Each unlock action of the flow, in sequence or in a branch of an `if`, stands in the system graph
-- behind a human approval, a lock and a read, and in front of a verification, by the edges of the graph.
pub apply_safety_pass-Gated :
    (resolved : Dict Descriptor) (id : String) (f : Flow)
    → UnlockIn id f "flow" 0
    → Gated id (apply_safety_pass resolved f).system_nodes
apply_safety_pass-Gated resolved id f u =
    let (pre, post, e) = apply_safety_pass-Rowed resolved id f u in
    let chain = (apply_safety_pass_chains resolved f).1 in
    (edges id (apply_safety_pass resolved f).system_nodes pre post e chain, chain)
