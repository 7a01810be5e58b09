-- ===== src/Dag/Structure/Ports.antt =====
-- The loops of `try_into_graph` over the entry ports and the default values.
use nexus_sdk.Prelude.{
  ℕ, ◌≡◌, sym, ◌∙◌, ap, String, false, List, [], ◌∷◌, map, arith, ok, >>=-eq-ok, try_fold,
  try_fold_inv, Assoc, contains_key, All, concat, IsDistinct, add_all, add_all-append,
}
use nexus_sdk.Dag.Spec.{DagVertex, DagEntryPort}
use nexus_sdk.Dag.Node.{GraphNode, input_port, node_eq}
use nexus_sdk.Dag.Errors.{entry_port_redefined}
use nexus_sdk.Dag.Structure.{insert_new, check_entry_port, check_entry_ports}
use nexus_sdk.Dag.Structure.Vertices.{insert_new-eq-ok}

abbrev pub port_node : String → DagEntryPort → GraphNode
port_node owner port = input_port owner port.name

abbrev pub ports_of : DagVertex → List GraphNode
ports_of v = map (port_node v.name) v.entry_ports

module _ (nodes : Assoc GraphNode ℕ) where
  abbrev pub IsFree : String → DagEntryPort → Type 0
  IsFree owner port = contains_key (port_node owner port) nodes ≡ false

  check_entry_port-eq-ok :
      (owner : String) (seen seen' : List GraphNode) (port : DagEntryPort)
      → check_entry_port nodes owner seen port ≡ ok seen'
      → IsFree owner port
        × (insert_new seen (port_node owner port) (entry_port_redefined (port_node owner port))
            ≡ ok seen')
  unfolding check_entry_port
  check_entry_port-eq-ok owner seen seen' port h = ground arith

  inner-eq-ok :
      (owner : String) (seen seen' : List GraphNode) (ports : List DagEntryPort)
      → try_fold (check_entry_port nodes owner) seen ports ≡ ok seen'
      → All (IsFree owner) ports × (seen' ≡ add_all seen (map (port_node owner) ports))
  inner-eq-ok owner seen seen' [] h = (tt, ground arith)
  inner-eq-ok owner seen seen' (p ∷ ps) h =
      let (mid, first, rest) =
        >>=-eq-ok (check_entry_port nodes owner seen p)
          (λ t. try_fold (check_entry_port nodes owner) t ps) h in
      let (free, put) = check_entry_port-eq-ok owner seen mid p first in
      let (grown, _) =
        insert_new-eq-ok seen (port_node owner p) (entry_port_redefined (port_node owner p)) put in
      let (later, more) = inner-eq-ok owner mid seen' ps rest in
      ((free, later), more ∙ ap (λ s. add_all s (map (port_node owner) ps)) grown)

  skip_empty :
      (seen : List GraphNode) (v : DagVertex)
      → check_entry_ports nodes seen v ≡ try_fold (check_entry_port nodes v.name) seen v.entry_ports
  unfolding check_entry_ports
  skip_empty seen v = ground arith

  pub check_entry_ports-eq-ok :
      (seen seen' : List GraphNode) (vs : List DagVertex)
      → try_fold (check_entry_ports nodes) seen vs ≡ ok seen'
      → All (λ v. All (IsFree v.name) v.entry_ports) vs
        × (seen' ≡ add_all seen (concat (map ports_of vs)))
  check_entry_ports-eq-ok seen seen' [] h = (tt, ground arith)
  check_entry_ports-eq-ok seen seen' (v ∷ vs) h =
      let (mid, first, rest) =
        >>=-eq-ok (check_entry_ports nodes seen v) (λ t. try_fold (check_entry_ports nodes) t vs)
          h in
      let (free, grown) =
        inner-eq-ok v.name seen mid v.entry_ports (sym (skip_empty seen v) ∙ first) in
      let (later, more) = check_entry_ports-eq-ok mid seen' vs rest in
      (
        (free, later),
        more
            ∙ ap (λ s. add_all s (concat (map ports_of vs))) grown
            ∙ sym (add_all-append seen (ports_of v) (concat (map ports_of vs))),
      )

  port-IsDistinct :
      (owner : String) (seen seen' : List GraphNode) (port : DagEntryPort)
      → IsDistinct seen
      → check_entry_port nodes owner seen port ≡ ok seen'
      → IsDistinct seen'
  port-IsDistinct owner seen seen' port d h =
      let (_, put) = check_entry_port-eq-ok owner seen seen' port h in
      let (grown, fresh) =
        insert_new-eq-ok seen (port_node owner port) (entry_port_redefined (port_node owner port))
          put in
      rw grown (fresh, d)

  vertex-IsDistinct :
      (seen seen' : List GraphNode) (v : DagVertex)
      → IsDistinct seen
      → check_entry_ports nodes seen v ≡ ok seen'
      → IsDistinct seen'
  vertex-IsDistinct seen seen' v d h =
      try_fold_inv IsDistinct (check_entry_port nodes v.name) (port-IsDistinct v.name) seen seen'
        v.entry_ports d (sym (skip_empty seen v) ∙ h)

  pub check_entry_ports-IsDistinct :
      (seen seen' : List GraphNode) (vs : List DagVertex)
      → IsDistinct seen
      → try_fold (check_entry_ports nodes) seen vs ≡ ok seen'
      → IsDistinct seen'
  check_entry_ports-IsDistinct seen seen' vs d h =
      try_fold_inv IsDistinct (check_entry_ports nodes) vertex-IsDistinct seen seen' vs d h
