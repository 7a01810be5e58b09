-- ===== src/Tap/Requirements.antt =====
-- Checks of skill requirements, skill configurations and payment options in sdk/src/types/tap.rs.
use nexus_sdk.Prelude.{
  ℕ, Bool, true, false, not, ◌&&◌, ◌||◌, Option, none, some, List, [], ◌∷◌, all, ltb, leb, Result,
  ok, err, ◌>>=◌, ◌>>◌, bail_if, try_all, ◌==◌, nat_eq, list_eq,
}
pub mod Valid
use nexus_sdk.Tap.Types.{
  Address, AgentId, Text, InterfaceVersion, FixedTool, SkillRequirement, SkillPaymentPolicy,
  user_funded, agent_funded,
}

pub data TapValidationError : Type 0 where
  missing_skill_name : TapValidationError
  missing_dag_path : TapValidationError
  missing_input_commitment : TapValidationError
  empty_authorized_tool_module : TapValidationError
  empty_authorized_tool_function : TapValidationError

-- `char::is_whitespace`, on code points.
unfoldable pub is_whitespace : ℕ → Bool
is_whitespace c =
    (leb 9 c && leb c 13)
    || c == 32
    || c == 133
    || c == 160
    || c == 5760
    || (leb 8192 c && leb c 8202)
    || c == 8232
    || c == 8233
    || c == 8239
    || c == 8287
    || c == 12288

-- `text.trim().is_empty()`
unfoldable pub is_blank : Text → Bool
is_blank text = all is_whitespace text

abbrev pub is_empty {ℓ} : {A : Type ℓ} → List A → Bool
is_empty [] = true
is_empty (_ ∷ _) = false

unfoldable pub check_tool : FixedTool → Result TapValidationError (Unit {0})
check_tool tool = bail_if (is_blank tool.tool_fqn) empty_authorized_tool_module

unfoldable pub validate_requirements : SkillRequirement → Result TapValidationError (Unit {0})
validate_requirements requirements = do
  bail_if (is_empty requirements.input_commitment) missing_input_commitment
  try_all check_tool requirements.fixed_tools
  ok tt

pub record SkillConfig : Type 0 where
  pub name : Text
  pub dag_path : Text
  pub requirements : SkillRequirement
  pub interface_revision : InterfaceVersion

unfoldable pub validate_config : SkillConfig → Result TapValidationError (Unit {0})
validate_config config = do
  bail_if (is_blank config.name) missing_skill_name
  bail_if (is_empty config.dag_path) missing_dag_path
  validate_requirements config.requirements

pub record TapPublishArtifact : Type 0 where
  pub skill_name : Text
  pub dag_id : Address
  pub interface_revision : InterfaceVersion
  pub requirements : SkillRequirement

unfoldable pub from_config : SkillConfig → Address → Result TapValidationError TapPublishArtifact
from_config config dag_id = do
  validate_config config
  ok record {
    skill_name = config.name;
    dag_id = dag_id;
    interface_revision = config.interface_revision;
    requirements = config.requirements;
  }

pub data PaymentSourceKind : Type 0 where
  user_source : Address → PaymentSourceKind
  agent_source : AgentId → PaymentSourceKind

pub data PaymentError : Type 0 where
  bcs_failed : PaymentError
  not_a_user_funded_source : PaymentError
  budget_out_of_range : ℕ → ℕ → PaymentError
  not_an_agent_funded_source : PaymentError

-- The encoding of a payment source is a parameter: `bcs::to_bytes`.
module _ (to_bytes : PaymentSourceKind → Result PaymentError (List ℕ)) where
  unfoldable pub validate_execution_payment_options :
      AgentId → SkillPaymentPolicy → List ℕ → ℕ → Address → Result PaymentError (Unit {0})
  validate_execution_payment_options agent_id user_funded source budget payer = do
    expected ← to_bytes (user_source payer)
    bail_if (not (is_empty source || source == expected)) not_a_user_funded_source
  validate_execution_payment_options agent_id (agent_funded max) source budget payer = do
    bail_if (budget == 0 || ltb max budget) (budget_out_of_range budget max)
    expected ← to_bytes (agent_source agent_id)
    bail_if (not (source == expected)) not_an_agent_funded_source
