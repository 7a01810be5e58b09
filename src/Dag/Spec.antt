-- ===== src/Dag/Spec.antt =====
-- sdk/src/types/dag.rs, with the enums and structs of the Move interface that its fields have
-- (sdk/src/move_bindings/ir/interface.json and primitives.json).
use nexus_sdk.Prelude.{ℕ, ◌≡◌, ◌↔◌, Option, List, String, Bool, true, false, arith, Eq}
use nexus_sdk.ToolFqn.{ToolFqn}

pub data EdgeKind : Type 0 where
  normal for_each collect do_while break static : EdgeKind

pub data PostFailureAction : Type 0 where
  terminate transient_continue : PostFailureAction

pub data ToolVerifierMode : Type 0 where
  no_verifier registered_key external : ToolVerifierMode

pub record NexusData : Type 0 where
  pub storage : List ℕ
  pub one : List ℕ
  pub many : List (List ℕ)

pub data DagVertexKind : Type 0 where
  off_chain on_chain : ToolFqn → DagVertexKind

pub record DagEntryPort : Type 0 where
  pub name : String

pub record DagVertex : Type 0 where
  pub kind : DagVertexKind
  pub name : String
  pub entry_ports : List DagEntryPort
  pub post_failure_action : Option PostFailureAction
  pub verifier : Option ToolVerifierMode

pub record DagEntryGroup : Type 0 where
  pub name : String
  pub vertices : List String

pub record DagDefaultValue : Type 0 where
  pub vertex : String
  pub input_port : String
  pub value : NexusData

pub record DagOutput : Type 0 where
  pub vertex : String
  pub output_variant : String
  pub output_port : String

pub record DagInput : Type 0 where
  pub vertex : String
  pub input_port : String

pub record DagEdge : Type 0 where
  pub from : DagOutput
  pub to : DagInput
  pub kind : EdgeKind

pub record DagSpec : Type 0 where
  pub vertices : List DagVertex
  pub edges : List DagEdge
  pub default_values : List DagDefaultValue
  pub post_failure_action : Option PostFailureAction
  pub entry_groups : List DagEntryGroup
  pub outputs : List DagOutput

abbrev pub default_entry_group : String
default_entry_group = "_default_group"

abbrev pub kind_beq : EdgeKind → EdgeKind → Bool
kind_beq normal normal = true
kind_beq for_each for_each = true
kind_beq collect collect = true
kind_beq do_while do_while = true
kind_beq break break = true
kind_beq static static = true
kind_beq _ _ = false

pub kind_beq_iff : (a b : EdgeKind) → (kind_beq a b ≡ true) ↔ (a ≡ b)
kind_beq_iff a b = ground arith

instance abbrev pub kind_eq : Eq EdgeKind
kind_eq = record { same = kind_beq; same_iff = kind_beq_iff }
