-- ===== src/Tap/Types.antt =====
-- The data of sdk/src/types/tap.rs and the contract types it uses (sdk/src/move_bindings/ir/interface.json
-- and registry.json). An address is 32 bytes, read as a number; texts are lists of characters, given by
-- their code points.
use nexus_sdk.Prelude.{ℕ, ◌≡◌, ◌↔◌, Bool, true, Option, List, Eq, ◌==◌, nat_eq, ◌&&◌, ==_iff, arith}

abbrev pub Address : Type 0
Address = ℕ

abbrev pub AgentId : Type 0
AgentId = Address

abbrev pub SkillId : Type 0
SkillId = ℕ

abbrev pub Text : Type 0
Text = List ℕ

pub record InterfaceVersion : Type 0 where
  pub inner : ℕ

pub data SkillPaymentPolicy : Type 0 where
  user_funded : SkillPaymentPolicy
  agent_funded : ℕ → SkillPaymentPolicy

pub data SkillRecurrenceKind : Type 0 where
  once : SkillRecurrenceKind
  -- the least interval in milliseconds, and the most occurrences
  recursive : ℕ → Option ℕ → SkillRecurrenceKind

pub record SkillSchedulePolicy : Type 0 where
  pub recurrence : SkillRecurrenceKind
  pub allow_recursive : Bool

pub record FixedTool : Type 0 where
  pub tool_registry_id : Address
  pub tool_fqn : Text

pub record SkillRequirement : Type 0 where
  pub input_commitment : List ℕ
  pub payment_policy : SkillPaymentPolicy
  pub schedule_policy : SkillSchedulePolicy
  pub fixed_tools : List FixedTool

pub data SkillDagBinding : Type 0 where
  pinned : Address → SkillDagBinding
  runtime_selected : SkillDagBinding

pub record SkillRecord : Type 0 where
  pub description : List ℕ
  pub active : Bool
  pub dag_binding : SkillDagBinding
  pub requirements : SkillRequirement
  pub current_interface_revision : InterfaceVersion
  pub scheduled_task_count : ℕ

-- A skill record with the keys of the table that holds it.
pub record SkillRecordContext : Type 0 where
  pub agent_id : AgentId
  pub skill_id : SkillId
  pub skill_record : SkillRecord

pub version_same_iff : (v w : InterfaceVersion) → ((v.inner == w.inner) ≡ true) ↔ (v ≡ w)
version_same_iff v w = ground (arith, ==_iff v.inner w.inner)

instance abbrev pub interface_version_eq : Eq InterfaceVersion
interface_version_eq = record { same = λ v w. v.inner == w.inner; same_iff = version_same_iff }

pub record SkillRevisionLookupKey : Type 0 where
  pub agent_id : AgentId
  pub skill_id : SkillId
  pub interface_revision : InterfaceVersion

abbrev pub key_same : SkillRevisionLookupKey → SkillRevisionLookupKey → Bool
key_same j k =
    j.agent_id == k.agent_id
    && j.skill_id == k.skill_id
    && j.interface_revision == k.interface_revision

pub key_same_iff : (j k : SkillRevisionLookupKey) → (key_same j k ≡ true) ↔ (j ≡ k)
key_same_iff j k = ground (
  arith,
  ==_iff j.agent_id k.agent_id,
  ==_iff j.skill_id k.skill_id,
  ==_iff j.interface_revision.inner k.interface_revision.inner,
)

instance abbrev pub skill_revision_lookup_key_eq : Eq SkillRevisionLookupKey
skill_revision_lookup_key_eq = record { same = key_same; same_iff = key_same_iff }

pub record SkillRevisionContext : Type 0 where
  pub key : SkillRevisionLookupKey
  pub requirements : SkillRequirement

pub record DefaultDagExecutorTarget : Type 0 where
  pub agent_id : AgentId
  pub skill_id : SkillId

-- A table of skills is the object that holds it and its size; its entries are fetched apart.
pub record AgentRecord : Type 0 where
  pub active : Bool
  pub skills_table : Address
  pub skills_size : ℕ

pub record Agent : Type 0 where
  pub id : Address
  pub next_skill_id : ℕ
  pub registry_id : Option Address

pub record DefaultDagExecutor : Type 0 where
  pub agent : Agent
  pub skill_id : SkillId

-- `DefaultDagExecutor::target`
abbrev pub target : DefaultDagExecutor → DefaultDagExecutorTarget
target executor = record { agent_id = executor.agent.id; skill_id = executor.skill_id }

pub record AgentRegistrySnapshot : Type 0 where
  pub id : Address
  pub agents : List AgentRecord
  pub skills : List SkillRecordContext
  pub default_executor : Option DefaultDagExecutor

pub record ActiveSkillExecutionTarget : Type 0 where
  pub skill : SkillRecordContext
  pub skill_revision : SkillRevisionContext

pub record DefaultDagExecutorRecord : Type 0 where
  pub target : DefaultDagExecutorTarget
  pub skill : SkillRecordContext
  pub skill_revision : SkillRevisionContext
