-- ===== src/Lib.antt =====
-- Verification library of the Nexus SDK. It models the core logic of the Rust crate in sdk/src and proves
-- what makes it correct. Paths are from the root of the repository.
--
-- Parts and their files.
--
-- - Dag: sdk/src/dag/validator.rs with the types of sdk/src/types/dag.rs. Dag.Spec holds the specification
--   (DagSpec and its parts), Dag.Node the nodes of the graph (GraphNode), Dag.Errors the reasons to refuse.
--   Dag.Build and Dag.Structure are try_into_graph, Dag.Order is has_correct_order_of_actions,
--   Dag.Concurrency is follows_concurrency_rules with get_net_concurrency_in_subgraph, Dag.ForEach is
--   validate_for_each_pairs, Dag.DoWhile is validate_do_while_nesting, and Dag.Validate composes them as
--   validate does. The library petgraph is a parameter: Dag.Petgraph has its operations as the record
--   DiGraph and what the validator relies on as the record IsDiGraph; Dag.ListGraph is a graph on lists that
--   meets it, on which Dag.Tests runs the validator.
-- - Tap: sdk/src/types/tap.rs with sdk/src/move_bindings/extensions/tap.rs. Tap.Budget has the quotes of a
--   priority payment, Tap.Requirements the checks of requirements, configurations and payment options,
--   Tap.Registry the lookups of skills and revisions in AgentRegistrySnapshot, and Tap.Commitment
--   tap_input_commitment_from_dag_inputs. Tap.Types has the data, the contract types after
--   sdk/src/move_bindings/ir.
-- - Ingestor: sdk/src/sui/events. Ingestor.Types has errors, pages, frames and the state of a run,
--   Ingestor.Frames is process_frame with send_page and advance_checkpoint, Ingestor.Driver is
--   replay_events, run_connection, run and start.
-- - RegisteredKey: sdk/src/nexus/registered_key.rs, the canonical inputs, nonces, signature messages and
--   auxiliary data of the verifier of registered keys.
-- - Nonce: the NonceAllocator of sdk/src/nexus/address_balance.rs.
-- - PriorityFee: the quotes of sdk/src/move_bindings/extensions/priority_fee_vault.rs.
-- - ToolFqn: the structured name of a tool, sdk/src/tool_fqn.rs, how it is read and printed.
-- - Scheduler: the request of an occurrence in sdk/src/nexus/scheduler.rs and the checks of its times.
-- - SignedHttp: requests and responses of sdk/src/signed_http/v2/wire.rs, how they are signed and verified.
--   Base64, SHA-256 and Ed25519 are the parameter Crypto, with the laws IsCrypto.
--   Prelude.Decimal models the text of a u64.
-- - Invoke: toolkit-rust/src/signed_http_warp.rs, the handler of a tool's invocations and its cache of replays.
--   Invoke has the cache (ReplayCache and ReplayReservation), Invoke.Handler handle_invoke in the part before
--   and the part after the tool runs, Invoke.Exclusive the steps of concurrent requests.
-- - Inspect: inspect_execution of sdk/src/nexus/workflow.rs. Inspect.Updates is fetch_execution_update_events,
--   Inspect.Poll the poller. Inspect.History says what it is that a node has the history of an object.
-- - Expired: the walks of an execution whose timeout is over, in sdk/src/nexus/workflow.rs. Expired.Plan is
--   inspect_expired_walk_resolution_at, which says what is to be done about one walk; Expired.Candidates has
--   the candidates for abort_expired_execution_with_tool_gas, up to its transaction.
-- - Leaders: the keys of leaders that a tool allows. Leaders has the file of leaders and the AllowedLeaders that
--   load it, sdk/src/signed_http/v2/wire.rs, and Leaders.Network the lookup of active keys and the file that
--   NetworkAuthReader exports, sdk/src/nexus/network_auth.rs. Leaders.Active says which key is active, and
--   Leaders.Authenticates joins the file with the authentication of requests.
-- - Prelude: what these share. Equality and Order are interfaces, as records of operations and laws; Results
--   models Result and `?`, Lists, Only, Distinct, Perms and Sort what is needed of lists, Maps association
--   lists, Machine the checked operations of machine integers, and Int signed integers.
--
-- How they interact. The invocation of a tool authenticates and signs by SignedHttp, which Invoke.Signed joins
-- with the leader's side; the keys by which it authenticates are those of Leaders. Expired reads the names of
-- tools by ToolFqn. The other parts share no state: an executor validates a DAG, quotes its payment, resolves
-- the skill to run and commits to its inputs; the ingestor reports what became of it. Within a part the
-- functions call each other as in the code, and a proof is a child of the module whose definitions it is
-- about.
--
-- How code is modelled. Functions that return an error return Result with a reason for each place that
-- fails; the texts of the errors are left out. Mutable variables are a state that is passed on, returned next
-- to an error where the code changes it before it fails. Hash maps and sets are lists of their entries in the
-- order in which they give them, and theorems do not depend on that order. Machine integers are natural
-- numbers, with their checks and casts written out; the concurrency of the validator, an isize that counts
-- edges, is an integer without bounds. Bytes and characters are numbers. A panic is none.
--
-- Bounds. The search of validate_for_each_pairs runs on fuel, since its loop ends only as the graph has no
-- cycle; it is shown to have a result for every fuel from some bound on, as the whole validator is. All
-- other loops are structural recursion. The driver of the ingestor runs over finite observations of the
-- node, the clock and the channel, and is waiting where these end. An inspection runs over finite observations
-- too, which end at its deadline; each time it follows the updates of an object it has fuel for one round more
-- than the number of the version, which is shown to be enough for a node that has the history.
--
-- Parameters. Besides petgraph: BCS and SHA-256, as functions on bytes, with what a theorem needs of them
-- (that an encoding is read back, or that different values have different encodings) as hypotheses; the
-- query's decode, the test of a digest and the channel of the ingestor; Base64 and Ed25519 for signed requests;
-- the bodies of errors and the values of headers that the tool kit's libraries make; for an inspection the node,
-- as Crawler; for expired walks the node as Chain, and BCS, SHA-256 and derived addresses as Encoding; for
-- leaders the node as Network, and hex. A hash is never taken to be
-- injective: a theorem that needs it names the collision.
--
-- Not modelled: the requests to a node and to other services, the builders of transactions, the generated
-- bindings and their generator, the command line, the routes of the tool kit's server, the reload of its
-- configuration and the parsing of JSON, since they are input and output, glue, or code of other libraries;
-- the metrics and the contents of the replay requests of the ingestor; the registration of keys, and how the
-- file of allowed leaders is read from a disk.
pub mod Dag
pub mod Expired
pub mod Ingestor
pub mod Inspect
pub mod Invoke
pub mod Leaders
pub mod Nonce
pub mod Prelude
pub mod PriorityFee
pub mod RegisteredKey
pub mod Scheduler
pub mod SignedHttp
pub mod Tap
pub mod ToolFqn
