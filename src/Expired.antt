-- ===== src/Expired.antt =====
-- sdk/src/nexus/workflow.rs, the resolution of walks whose timeout is over, with the walks of
-- sdk/src/move_bindings/extensions/workflow.rs. What is on chain is the parameter Chain, what BCS, SHA-256 and
-- the derivation of addresses do the parameter Encoding. Addresses and digests are numbers.
use nexus_sdk.Prelude.{
  ℕ, ◌+◌, Bool, true, false, ◌&&◌, Option, none, some, List, [], ◌∷◌, ◌++◌, any, leb, Assoc, Result,
  ok, err, ◌>>=◌, ok_or, saturating_add, saturating_mul, ◌==◌, nat_eq, list_eq,
}
use nexus_sdk.ToolFqn.{ToolFqn, FqnError, from_str, to_string}
pub mod Plan
pub mod Candidates
pub mod Aborts
pub mod Members
pub mod Walks
pub mod Abortable
pub mod Executable
pub mod Tests

abbrev pub Bytes : Type 0
Bytes = List ℕ

pub data RuntimeVertex : Type 0 where
  plain : ℕ → RuntimeVertex
  with_iterator : ℕ → ℕ → ℕ → RuntimeVertex

-- `RuntimeVertex::vertex`
abbrev pub vertex : RuntimeVertex → ℕ
vertex (plain v) = v
vertex (with_iterator v iteration out_of) = v

-- Of an active walk: the next vertex, its timeout, whether it needs a grant, and the time of creation.
pub data DagWalk : Type 0 where
  active : RuntimeVertex → ℕ → Bool → ℕ → DagWalk
  pending_settlement : RuntimeVertex → ℕ → Bool → ℕ → DagWalk
  successful : DagWalk
  failed : DagWalk
  consumed : RuntimeVertex → DagWalk
  aborted : RuntimeVertex → DagWalk
  pending_abort : RuntimeVertex → DagWalk
  cancelled : DagWalk

-- `clock_ms >= created_at.saturating_add(timeout_ms.saturating_mul(2))`
abbrev pub is_double_expired : ℕ → ℕ → ℕ → Bool
is_double_expired clock_ms timeout_ms created_at =
    leb (saturating_add 64 created_at (saturating_mul 64 timeout_ms 2)) clock_ms

abbrev pub if_expired : Bool → RuntimeVertex → Option RuntimeVertex
if_expired true next_vertex = some next_vertex
if_expired false next_vertex = none

-- `DAGWalk::timeout_expired_vertex`
unfoldable pub timeout_expired_vertex : DagWalk → ℕ → Option RuntimeVertex
timeout_expired_vertex (active next timeout grant created) clock_ms =
    if_expired (is_double_expired clock_ms timeout created) next
timeout_expired_vertex (pending_settlement next timeout grant created) clock_ms =
    if_expired (is_double_expired clock_ms timeout created) next
timeout_expired_vertex successful clock_ms = none
timeout_expired_vertex failed clock_ms = none
timeout_expired_vertex (consumed v) clock_ms = none
timeout_expired_vertex (aborted v) clock_ms = none
timeout_expired_vertex (pending_abort v) clock_ms = none
timeout_expired_vertex cancelled clock_ms = none

-- `DAGWalk::abortable_timeout_expired_vertex`
unfoldable pub abortable_timeout_expired_vertex : DagWalk → ℕ → Option RuntimeVertex
abortable_timeout_expired_vertex (active next timeout grant created) clock_ms =
    if_expired (is_double_expired clock_ms timeout created) next
abortable_timeout_expired_vertex (pending_settlement next timeout grant created) clock_ms = none
abortable_timeout_expired_vertex successful clock_ms = none
abortable_timeout_expired_vertex failed clock_ms = none
abortable_timeout_expired_vertex (consumed v) clock_ms = none
abortable_timeout_expired_vertex (aborted v) clock_ms = none
abortable_timeout_expired_vertex (pending_abort v) clock_ms = none
abortable_timeout_expired_vertex cancelled clock_ms = none

-- Both kinds of vertices name a tool by its text.
pub data VertexKind : Type 0 where
  on_chain : Bytes → VertexKind
  off_chain : Bytes → VertexKind

pub record ObjectReference : Type 0 where
  pub object_id : ℕ
  pub version : ℕ
  pub digest : ℕ

pub data ToolRef : Type 0 where
  http : ToolRef
  sui : ℕ → ToolRef

pub record OnchainToolResult : Type 0 where
  pub finalized : Bool
  pub stamps : Option (List ℕ)
  pub tag : Option ℕ
  pub named_payload : Option ℕ
  pub finalize_tx_digest : Option Bytes
  pub finalize_recipient : Option ℕ

pub record ExecutionPaymentVertexLock : Type 0 where
  pub vertex_key : Bytes
  pub tool_fqn : Bytes

pub record DagExecution : Type 0 where
  pub dag_id : ℕ
  pub walks : List DagWalk

pub data ExpiryError : Type 0 where
  -- of a request to the node, or of an encoding
  rpc : ℕ → ExpiryError
  encoding : ExpiryError
  vertex_missing : ℕ → ExpiryError
  tool_fqn_unparsed : FqnError → ExpiryError
  missing_finalize_tx_digest : ExpiryError
  not_eligible : ℕ → ExpiryError
  no_candidate : ExpiryError

-- The answers of the node, of an execution.
pub record Chain : Type 0 where
  pub execution : Result ExpiryError DagExecution
  -- the committed result of a walk, and the walks that could not be settled
  pub committed : ℕ → Result ExpiryError (Option ℕ)
  pub insufficient_settlement : Result ExpiryError (Option (List ℕ))
  pub result_id : ℕ → Result ExpiryError (Option ℕ)
  pub onchain_result : ℕ → Result ExpiryError (OnchainToolResult × ObjectReference)
  pub dag_vertices : ℕ → Result ExpiryError (Assoc ℕ VertexKind)
  pub locked_vertices : Result ExpiryError (List ExecutionPaymentVertexLock)
  pub tool : ℕ → Result ExpiryError ToolRef
  pub object_ref : ℕ → Result ExpiryError ObjectReference

pub record Encoding : Type 0 where
  pub sha256 : Bytes → Bytes
  pub address_to_bytes : ℕ → Result ExpiryError Bytes
  pub vertex_to_bytes : RuntimeVertex → Result ExpiryError Bytes
  pub derive_tool_id : ToolFqn → Result ExpiryError ℕ
  pub derive_tool_gas_id : ToolFqn → Result ExpiryError ℕ

abbrev pub fqn_or_error : Result FqnError ToolFqn → Result ExpiryError ToolFqn
fqn_or_error (ok fqn) = ok fqn
fqn_or_error (err e) = err (tool_fqn_unparsed e)

-- `VertexKind::tool_fqn`
abbrev pub tool_fqn : VertexKind → Result ExpiryError ToolFqn
tool_fqn (on_chain text) = fqn_or_error (from_str text)
tool_fqn (off_chain text) = fqn_or_error (from_str text)

-- "nexus.payment.vertex.v1"
abbrev pub payment_vertex_domain : Bytes
payment_vertex_domain =
    b'n' ∷ b'e' ∷ b'x' ∷ b'u' ∷ b's' ∷ b'.' ∷ b'p' ∷ b'a' ∷ b'y' ∷ b'm' ∷ b'e' ∷ b'n' ∷ b't' ∷ b'.'
    ∷ b'v' ∷ b'e' ∷ b'r' ∷ b't' ∷ b'e' ∷ b'x' ∷ b'.' ∷ b'v' ∷ b'1' ∷ []

module _ (E : Encoding) (execution_id : ℕ) where
  unfoldable pub payment_vertex_key : RuntimeVertex → ToolFqn → Result ExpiryError Bytes
  payment_vertex_key v fqn = do
    id_bytes ← E.address_to_bytes execution_id
    vertex_bytes ← E.vertex_to_bytes v
    ok (E.sha256 (payment_vertex_domain ++ id_bytes ++ vertex_bytes ++ to_string fqn))

abbrev pub is_lock_of : Bytes → Bytes → ExecutionPaymentVertexLock → Bool
is_lock_of key fqn_bytes lock = lock.vertex_key == key && lock.tool_fqn == fqn_bytes

-- `locks.iter().any(..)`
abbrev pub is_locked : List ExecutionPaymentVertexLock → Bytes → ToolFqn → Bool
is_locked locks key fqn = any (is_lock_of key (to_string fqn)) locks

pub record ToolGasAbortCandidateWalk : Type 0 where
  pub walk_index : ℕ
  pub runtime_vertex : RuntimeVertex
  pub payment_vertex_key : Bytes

pub record ToolGasAbortCandidate : Type 0 where
  pub fqn : ToolFqn
  pub tool_gas_ref : ObjectReference
  pub matching_walks : List ToolGasAbortCandidateWalk
