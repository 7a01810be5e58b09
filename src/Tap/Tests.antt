-- ===== src/Tap/Tests.antt =====
-- Runs of the budget quotes and of the lookups in the agent registry.
use mathlib.Core.List.{Permᴰ}
use nexus_sdk.Prelude.{
  ℕ, ◌≡◌, ◌≢◌, refl, sym, ◌∙◌, ◌⊎◌, Bool, true, false, Option, none, some, List, [], ◌∷◌, map,
  arith, Result, ok, ◌==◌, ==_iff, nat_eq, list_eq, pair_eq, if◌then◌else◌,
}
use nexus_sdk.Tap.Budget
use nexus_sdk.Tap.Budget.Maximal
use nexus_sdk.Tap.Types
use nexus_sdk.Tap.Types.{skill_revision_lookup_key_eq}
use nexus_sdk.Tap.Requirements
use nexus_sdk.Tap.Requirements.Valid
use nexus_sdk.Tap.Registry
use nexus_sdk.Tap.Registry.Resolve
use nexus_sdk.Tap.Registry.Default
use nexus_sdk.Tap.Registry.Agree
use nexus_sdk.Tap.Commitment

abbrev derived : Budget.PriorityPaymentBudgetInput
derived = record { max_budget_mist = 1000; priority_fee_percentage = none; gas_budget_mist = none }

abbrev derived_quote : Budget.PriorityPaymentBudgetQuote
derived_quote = record {
  max_budget_mist = 1000;
  priority_fee_percentage = 20;
  gas_budget_mist = 834;
  priority_fee_reserve_mist = 166;
  reserved_budget_mist = 1000;
}

quotes_derived : Budget.quote_priority_payment_budget derived ≡ ok derived_quote
unfolding Budget.quote_priority_payment_budget Budget.effective_priority_fee_percentage
    Budget.gas_budget_of Budget.gas_budget_mist_for_max_budget_mist Budget.quote_for
    Budget.priority_fee_mist_for_gas_budget
quotes_derived = refl

quote_priority_payment_budget_iff_example : Maximal.IsQuote derived derived_quote
quote_priority_payment_budget_iff_example =
    (Maximal.quote_priority_payment_budget_iff derived derived_quote (omega arith) tt).0
      quotes_derived

quote_priority_payment_budget_derives_example :
    (quote : Budget.PriorityPaymentBudgetQuote) × (Budget.quote_priority_payment_budget derived
      ≡ ok quote)
quote_priority_payment_budget_derives_example =
    Maximal.quote_priority_payment_budget_derives derived 20 (omega arith) refl refl

abbrev version : ℕ → Types.InterfaceVersion
version n = record { inner = n }

abbrev requirements : Types.SkillRequirement
requirements = record {
  input_commitment = 7 ∷ [];
  payment_policy = Types.agent_funded 500;
  schedule_policy = record { recurrence = Types.once; allow_recursive = false };
  fixed_tools = record { tool_registry_id = 9; tool_fqn = 120 ∷ 46 ∷ 121 ∷ [] } ∷ [];
}

abbrev skill_of : Bool → ℕ → Types.SkillRecordContext
skill_of active n = record {
  agent_id = 1;
  skill_id = 2;
  skill_record = record {
    description = [];
    active = active;
    dag_binding = Types.runtime_selected;
    requirements = requirements;
    current_interface_revision = version n;
    scheduled_task_count = 0;
  };
}

abbrev executor : Types.DefaultDagExecutor
executor = record { agent = record { id = 1; next_skill_id = 3; registry_id = none }; skill_id = 2 }

-- An inactive skill and an active one with the same ids.
abbrev registry : Types.AgentRegistrySnapshot
registry = record {
  id = 5;
  agents = [];
  skills = skill_of false 1 ∷ skill_of true 2 ∷ [];
  default_executor = some executor;
}

abbrev found : Types.ActiveSkillExecutionTarget
found = record {
  skill = skill_of true 2;
  skill_revision = Registry.from_skill_record (skill_of true 2);
}

abbrev run : Unit {0}
unfolding Registry.resolve_active_tap_skill_execution_target Registry.active_skill_revision_record
    Registry.resolve_default_tap_dag_executor Registry.default_dag_executor
    Registry.resolve_active_tap_skill_revision Registry.skill_revision_records
    Registry.skill_revision_record Requirements.validate_requirements Requirements.check_tool
    Requirements.is_blank Requirements.is_whitespace Requirements.validate_execution_payment_options
    Requirements.validate_config Requirements.from_config
    Commitment.tap_input_commitment_from_dag_inputs
run = tt

resolve_active_tap_skill_execution_target_iff_example : Resolve.IsTarget registry 1 2 found
unfolding run
resolve_active_tap_skill_execution_target_iff_example =
    (Resolve.resolve_active_tap_skill_execution_target_iff registry 1 2 found).0 refl

abbrev default_record : Types.DefaultDagExecutorRecord
default_record = record {
  target = record { agent_id = 1; skill_id = 2 };
  skill = skill_of true 2;
  skill_revision = Registry.from_skill_record (skill_of true 2);
}

resolve_default_tap_dag_executor_iff_example : Default.IsDefaultExecutor registry default_record
unfolding run
resolve_default_tap_dag_executor_iff_example =
    (Default.resolve_default_tap_dag_executor_iff registry default_record).0 refl

resolvers_agree_example :
    Registry.active_skill_revision_record registry 1 2
    ≡ ok (Registry.from_skill_record (skill_of true 2))
unfolding run
resolvers_agree_example =
    Agree.resolvers_agree registry (map Registry.from_skill_record registry.skills) 1 2
      (Registry.from_skill_record (skill_of true 2)) refl refl

abbrev pinned_revision : Types.SkillRevisionContext
pinned_revision = Registry.from_skill_record (skill_of false 1)

abbrev source_bytes : Requirements.PaymentSourceKind → Result Requirements.PaymentError (List ℕ)
source_bytes (Requirements.user_source user) = ok (0 ∷ user ∷ [])
source_bytes (Requirements.agent_source agent) = ok (1 ∷ agent ∷ [])

validate_execution_payment_options_iff_example :
    Valid.IsPaid source_bytes 1 (Types.agent_funded 500) (1 ∷ 1 ∷ []) 400 8
unfolding run
validate_execution_payment_options_iff_example =
    (Valid.validate_execution_payment_options_iff source_bytes 1 (Types.agent_funded 500)
        (1 ∷ 1 ∷ []) 400 8).0
      refl

abbrev config : Requirements.SkillConfig
config = record {
  name = 32 ∷ 97 ∷ [];
  dag_path = 47 ∷ [];
  requirements = requirements;
  interface_revision = version 1;
}

abbrev artifact : Requirements.TapPublishArtifact
artifact = record {
  skill_name = 32 ∷ 97 ∷ [];
  dag_id = 4;
  interface_revision = version 1;
  requirements = requirements;
}

from_config_iff_example :
    Valid.HasText config.name
    × (config.dag_path ≢ [])
    × Valid.IsValidRequirement config.requirements
    × (artifact ≡ record {
      skill_name = config.name;
      dag_id = 4;
      interface_revision = config.interface_revision;
      requirements = config.requirements;
    })
unfolding run
from_config_iff_example = (Valid.from_config_iff config 4 artifact).0 refl

abbrev Ports : Type 0
Ports = List (Types.Text × Types.Text)

abbrev ports : Ports
ports = (98 ∷ [], 97 ∷ []) ∷ (97 ∷ [], 97 ∷ []) ∷ []

abbrev ports_swapped : Ports
ports_swapped = (97 ∷ [], 97 ∷ []) ∷ (98 ∷ [], 97 ∷ []) ∷ []

-- An encoding of one list only.
abbrev encoding : Ports → Option (List ℕ)
encoding inputs = if inputs == ports_swapped then some (1 ∷ 2 ∷ []) else none

encoding-distinct : (i j : Ports) (b : List ℕ) → encoding i ≡ some b → encoding j ≡ some b → i ≡ j
encoding-distinct i j b h k =
    let first : i ≡ ports_swapped = ground (arith, ==_iff i ports_swapped) in
    let second : j ≡ ports_swapped = ground (arith, ==_iff j ports_swapped) in first ∙ sym second

commitment-Perm_example :
    Commitment.tap_input_commitment_from_dag_inputs (λ b. b) encoding ports
    ≡ Commitment.tap_input_commitment_from_dag_inputs (λ b. b) encoding ports_swapped
commitment-Perm_example =
    Commitment.commitment-Perm (λ b. b) encoding ports ports_swapped (Permᴰ.swap refl refl)

commitment-binds_example :
    Permᴰ ports ports_swapped ⊎ Commitment.Collides (λ b. b) encoding ports ports_swapped
unfolding run
commitment-binds_example =
    Commitment.commitment-binds (λ b. b) encoding encoding-distinct ports ports_swapped (1 ∷ 2 ∷ [])
      refl refl
