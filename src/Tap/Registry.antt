-- ===== src/Tap/Registry.antt =====
-- The lookups of sdk/src/types/tap.rs in a snapshot of the agent registry.
use nexus_sdk.Prelude.{
  ℕ, Bool, true, false, ◌&&◌, Option, List, [], ◌∷◌, map, filter, length, Result, ok, err, ◌>>=◌,
  ◌>>◌, bail_if, ok_or, try_all, if◌then◌else◌, ◌==◌, nat_eq,
}
pub mod Resolve
pub mod Default
pub mod Agree
use nexus_sdk.Tap.Types.{
  AgentId, SkillId, SkillDagBinding, pinned, runtime_selected, SkillRecordContext,
  SkillRevisionLookupKey, skill_revision_lookup_key_eq, interface_version_eq, SkillRevisionContext,
  AgentRegistrySnapshot, DefaultDagExecutor, ActiveSkillExecutionTarget, DefaultDagExecutorRecord,
  target,
}
use nexus_sdk.Tap.Requirements.{TapValidationError, validate_requirements}

pub data SkillRevisionLookupError : Type 0 where
  missing_active_revision : AgentId → SkillId → SkillRevisionLookupError
  duplicate_active_revision : AgentId → SkillId → ℕ → SkillRevisionLookupError
  invalid_skill_revision : TapValidationError → SkillRevisionLookupError

-- What `anyhow` carries for these functions.
pub data RegistryError : Type 0 where
  invalid : TapValidationError → RegistryError
  lookup_failed : SkillRevisionLookupError → RegistryError
  revision_not_found : SkillRevisionLookupKey → RegistryError
  duplicate_revisions : SkillRevisionLookupKey → RegistryError
  missing_default_agent : RegistryError
  active_skill_not_found : AgentId → SkillId → RegistryError
  duplicate_active_skills : AgentId → SkillId → RegistryError
  not_runtime_selected : AgentId → SkillId → RegistryError

-- `map_err`
abbrev pub map_err {ℓ} : {E F : Type 0} {A : Type ℓ} → (E → F) → Result E A → Result F A
map_err f (ok a) = ok a
map_err f (err e) = err (f e)

-- `match matches.as_slice()` with the cases of none, one and more; the last gets their number.
abbrev pub exactly_one {ℓ} : {E : Type 0} {A : Type ℓ} → E → (ℕ → E) → List A → Result E A
exactly_one missing duplicate [] = err missing
exactly_one missing duplicate (x ∷ []) = ok x
exactly_one missing duplicate (x ∷ y ∷ rest) = err (duplicate (length (x ∷ y ∷ rest)))

-- The revision that a skill record stands for: `SkillRevisionContext::from_skill_record`.
abbrev pub from_skill_record : SkillRecordContext → SkillRevisionContext
from_skill_record skill = record {
  key = record {
    agent_id = skill.agent_id;
    skill_id = skill.skill_id;
    interface_revision = skill.skill_record.current_interface_revision;
  };
  requirements = skill.skill_record.requirements;
}

-- `SkillRevisionContext::validate`
abbrev pub validate_revision : SkillRevisionContext → Result TapValidationError (Unit {0})
validate_revision revision = validate_requirements revision.requirements

unfoldable pub skill_revision_records :
    AgentRegistrySnapshot → Result RegistryError (List SkillRevisionContext)
skill_revision_records registry =
    let records = map from_skill_record registry.skills in
    do try_all (λ record'. map_err invalid (validate_revision record')) records; ok records

unfoldable pub skill_revision_record :
    AgentRegistrySnapshot → SkillRevisionLookupKey → Result RegistryError SkillRevisionContext
skill_revision_record registry key = do
  records ← skill_revision_records registry
  exactly_one (revision_not_found key) (λ _. duplicate_revisions key)
      (filter (λ revision. revision.key == key) records)

-- The filter of every lookup of an active skill.
abbrev pub is_active_skill : AgentId → SkillId → SkillRecordContext → Bool
is_active_skill agent_id skill_id skill =
    skill.agent_id == agent_id && skill.skill_id == skill_id && skill.skill_record.active

-- The only active skill: one that matches is asked once more whether it is active.
abbrev pub active_one :
    AgentId → SkillId → List SkillRecordContext → Result SkillRevisionLookupError SkillRecordContext
active_one agent_id skill_id [] = err (missing_active_revision agent_id skill_id)
active_one agent_id skill_id (skill ∷ []) =
    if skill.skill_record.active then ok skill else err (missing_active_revision agent_id skill_id)
active_one agent_id skill_id (s ∷ t ∷ rest) =
    err (duplicate_active_revision agent_id skill_id (length (s ∷ t ∷ rest)))

unfoldable pub active_skill_revision_record :
    AgentRegistrySnapshot → AgentId → SkillId → Result RegistryError SkillRevisionContext
active_skill_revision_record registry agent_id skill_id = do
  skill ←
      map_err lookup_failed
        (active_one agent_id skill_id (filter (is_active_skill agent_id skill_id) registry.skills))
  map_err invalid (validate_revision (from_skill_record skill))
  ok (from_skill_record skill)

unfoldable pub default_dag_executor :
    AgentRegistrySnapshot → Result RegistryError DefaultDagExecutor
default_dag_executor registry = ok_or registry.default_executor missing_default_agent

-- The records of the revision that a skill has now.
abbrev pub is_current_revision :
    AgentId → SkillId → SkillRecordContext → SkillRevisionContext → Bool
is_current_revision agent_id skill_id skill revision =
    revision.key.agent_id == agent_id
    && revision.key.skill_id == skill_id
    && revision.key.interface_revision == skill.skill_record.current_interface_revision

unfoldable pub resolve_active_tap_skill_revision :
    List SkillRevisionContext
    → List SkillRecordContext
    → AgentId
    → SkillId
    → Result SkillRevisionLookupError SkillRevisionContext
resolve_active_tap_skill_revision records skills agent_id skill_id = do
  skill ← active_one agent_id skill_id (filter (is_active_skill agent_id skill_id) skills)
  revision ←
      exactly_one (missing_active_revision agent_id skill_id)
        (duplicate_active_revision agent_id skill_id)
        (filter (is_current_revision agent_id skill_id skill) records)
  map_err invalid_skill_revision (validate_revision revision)
  ok revision

unfoldable pub resolve_active_tap_skill_execution_target :
    AgentRegistrySnapshot → AgentId → SkillId → Result RegistryError ActiveSkillExecutionTarget
resolve_active_tap_skill_execution_target registry agent_id skill_id = do
  skill ←
      exactly_one (active_skill_not_found agent_id skill_id)
        (λ _. duplicate_active_skills agent_id skill_id)
        (filter (is_active_skill agent_id skill_id) registry.skills)
  revision ← active_skill_revision_record registry agent_id skill_id
  ok record { skill = skill; skill_revision = revision }

-- `binding != RuntimeSelected`
abbrev pub is_pinned : SkillDagBinding → Bool
is_pinned (pinned _) = true
is_pinned runtime_selected = false

unfoldable pub resolve_default_tap_dag_executor :
    AgentRegistrySnapshot → Result RegistryError DefaultDagExecutorRecord
resolve_default_tap_dag_executor registry = do
  executor ← default_dag_executor registry
  found ←
      resolve_active_tap_skill_execution_target registry (target executor).agent_id
        (target executor).skill_id
  bail_if (is_pinned found.skill.skill_record.dag_binding)
      (not_runtime_selected (target executor).agent_id (target executor).skill_id)
  ok record { target = target executor; skill = found.skill; skill_revision = found.skill_revision }
