-- ===== src/Tap/Requirements/Valid.antt =====
-- Which requirements and payment options the checks accept.
use mathlib.Core.Bool.{true≢false}
use nexus_sdk.Prelude.{
  ℕ, ◌≤◌, ◌<◌, ◌≡◌, refl, sym, ◌∙◌, ap, ◌≢◌, ◌↔◌, ◌⊎◌, inl, inr, false, not, ◌||◌, List, [], ◌∷◌,
  Memᴰ, All, All-intro, All-mem, Bool-cases, arith, Result, ok, bail_if, bail_if_iff, try_all,
  try_all_iff, >>=-eq-ok, ok_injective, ◌==◌, ==_iff, nat_eq, list_eq, ltb,
}
use nexus_sdk.Tap.Types.{
  Address, AgentId, Text, FixedTool, SkillRequirement, SkillPaymentPolicy, user_funded,
  agent_funded,
}
use nexus_sdk.Tap.Requirements.{
  TapValidationError, missing_skill_name, missing_dag_path, SkillConfig, validate_config,
  TapPublishArtifact, from_config, missing_input_commitment, is_whitespace, is_blank, is_empty,
  check_tool, validate_requirements, PaymentSourceKind, user_source, agent_source, PaymentError,
  not_a_user_funded_source, not_an_agent_funded_source, budget_out_of_range,
  validate_execution_payment_options,
}

-- A text with a character that is no white space.
abbrev pub HasText : Text → Type 0
HasText text = (c : ℕ) × Memᴰ c text × (is_whitespace c ≡ false)

HasText-of_blank : (text : Text) → is_blank text ≡ false → HasText text
unfolding is_blank
HasText-of_blank [] h = elim (true≢false h) [ ]
HasText-of_blank (c ∷ rest) h = elim (Bool-cases (is_whitespace c)) [
  | inl space ↦ let (d, m, k) = HasText-of_blank rest (ground arith) in (d, Memᴰ.tail m, k)
  | inr other ↦ (c, Memᴰ.head refl, other)
]

is_blank_of_HasText :
    (text : Text) (c : ℕ) → Memᴰ c text → is_whitespace c ≡ false → is_blank text ≡ false
unfolding is_blank
is_blank_of_HasText [] c m h = elim m [ ]
is_blank_of_HasText (d ∷ rest) c (Memᴰ.head e) h =
    let k = ap is_whitespace (sym e) ∙ h in ground arith
is_blank_of_HasText (d ∷ rest) c (Memᴰ.tail m) h =
    let k = is_blank_of_HasText rest c m h in ground arith

pub is_blank_iff : (text : Text) → (is_blank text ≡ false) ↔ HasText text
is_blank_iff text = (HasText-of_blank text, λ (c, m, h). is_blank_of_HasText text c m h)

-- What the requirements of a skill must have.
pub record IsValidRequirement (requirements : SkillRequirement) : Type 0 where
  pub commitment : requirements.input_commitment ≢ []
  pub tools : All (λ tool. HasText tool.tool_fqn) requirements.fixed_tools

is_empty_iff {ℓ} : {A : Type ℓ} (xs : List A) → (is_empty xs ≡ false) ↔ (xs ≢ [])
is_empty_iff [] = ((λ h e. elim (true≢false h) [ ]), λ h. elim (h refl) [ ])
is_empty_iff (x ∷ xs) = ((λ h e. cc), λ h. refl)

check_tool_iff : (tool : FixedTool) → (check_tool tool ≡ ok tt) ↔ HasText tool.tool_fqn
unfolding check_tool
check_tool_iff tool =
    let (pass, fail) =
      bail_if_iff (is_blank tool.tool_fqn) TapValidationError.empty_authorized_tool_module in
    let (to, of) = is_blank_iff tool.tool_fqn in ((λ h. to (pass h)), λ h. fail (of h))

pub validate_requirements_iff :
    (requirements : SkillRequirement)
    → (validate_requirements requirements ≡ ok tt) ↔ IsValidRequirement requirements
unfolding validate_requirements
validate_requirements_iff requirements =
    let empty = is_empty_iff requirements.input_commitment in
    let given = bail_if_iff (is_empty requirements.input_commitment) missing_input_commitment in
    let tools = try_all_iff check_tool requirements.fixed_tools in
    (
      (λ h.
          let (_, first, h₁) =
            >>=-eq-ok (bail_if (is_empty requirements.input_commitment) missing_input_commitment) _
              h in
          let (_, second, h₂) = >>=-eq-ok (try_all check_tool requirements.fixed_tools) _ h₁ in
          record {
            commitment = empty.0 (given.0 first);
            tools =
                All-intro (λ tool. HasText tool.tool_fqn) requirements.fixed_tools
                  (λ tool m.
                    (check_tool_iff tool).0
                      (All-mem (λ t. check_tool t ≡ ok tt) (tools.0 second) m));
          }),
      λ v. rw (given.1 (empty.1 v.commitment)) (
          rw
            (tools.1 (
              All-intro (λ t. check_tool t ≡ ok tt) requirements.fixed_tools
                (λ tool m. (check_tool_iff tool).1 (All-mem (λ t. HasText t.tool_fqn) v.tools m))))
            refl),
    )

source_iff :
    (source expected : List ℕ)
    → (not (is_empty source || source == expected) ≡ false) ↔ ((source ≡ []) ⊎ (source ≡ expected))
source_iff [] expected = ground arith
source_iff (b ∷ source) expected = ground (arith, ==_iff (b ∷ source) expected)

same_source_iff :
    (source expected : List ℕ) → (not (source == expected) ≡ false) ↔ (source ≡ expected)
same_source_iff source expected = ground (arith, ==_iff source expected)

range_iff :
    (budget max : ℕ) → ((budget == 0 || ltb max budget) ≡ false) ↔ ((0 < budget) × (budget ≤ max))
range_iff budget max = ground (arith, ==_iff budget 0)

-- A payment that a policy accepts: the user's source may be left out; an agent's source is that of the
-- agent itself, and its budget is positive and within the policy.
abbrev pub IsPaid :
    (PaymentSourceKind → Result PaymentError (List ℕ))
    → AgentId
    → SkillPaymentPolicy
    → List ℕ
    → ℕ
    → Address
    → Type 0
IsPaid to_bytes agent_id user_funded source budget payer =
    (expected : List ℕ) × (to_bytes (user_source payer) ≡ ok expected)
    × ((source ≡ []) ⊎ (source ≡ expected))
IsPaid to_bytes agent_id (agent_funded max) source budget payer =
    (0 < budget) × (budget ≤ max) × (to_bytes (agent_source agent_id) ≡ ok source)

-- Payment options pass exactly if, for a user-funded skill, the source is left out or is that of the
-- payer, and, for an agent-funded one, the budget is positive and within the policy and the source is that
-- of the agent.
pub validate_execution_payment_options_iff :
    (to_bytes : PaymentSourceKind → Result PaymentError (List ℕ)) (agent_id : AgentId)
    (policy : SkillPaymentPolicy) (source : List ℕ) (budget : ℕ) (payer : Address)
    → (validate_execution_payment_options to_bytes agent_id policy source budget payer ≡ ok tt)
      ↔ IsPaid to_bytes agent_id policy source budget payer
unfolding validate_execution_payment_options
validate_execution_payment_options_iff to_bytes agent_id user_funded source budget payer = (
  (λ h.
      let (expected, encoded, h₁) = >>=-eq-ok (to_bytes (user_source payer)) _ h in
      (
        expected,
        encoded,
        (source_iff source expected).0 (
            (bail_if_iff (not (is_empty source || source == expected)) not_a_user_funded_source).0
              h₁),
      )),
  λ (expected, encoded, same). rw encoded (
      (bail_if_iff (not (is_empty source || source == expected)) not_a_user_funded_source).1
        ((source_iff source expected).1 same)),
)
validate_execution_payment_options_iff to_bytes agent_id (agent_funded max) source budget payer = (
  (λ h.
      let (_, positive, h₁) =
        >>=-eq-ok (bail_if (budget == 0 || ltb max budget) (budget_out_of_range budget max)) _ h in
      let (expected, encoded, h₂) = >>=-eq-ok (to_bytes (agent_source agent_id)) _ h₁ in
      let (low, high) = (range_iff budget max).0 (
        (bail_if_iff (budget == 0 || ltb max budget) (budget_out_of_range budget max)).0
          positive) in
      let same =
        (same_source_iff source expected).0
          ((bail_if_iff (not (source == expected)) not_an_agent_funded_source).0 h₂) in
      (low, high, encoded ∙ ap ok (sym same))),
  λ (low, high, encoded).
      rw
        ((bail_if_iff (budget == 0 || ltb max budget) (budget_out_of_range budget max)).1
          ((range_iff budget max).1 (low, high)))
        (rw encoded (
          (bail_if_iff (not (source == source)) not_an_agent_funded_source).1
            ((same_source_iff source source).1 refl))),
)

-- A skill is published exactly if its name has text, its DAG has a path and its requirements are valid;
-- the artifact then carries them unchanged with the DAG that was published.
pub from_config_iff :
    (config : SkillConfig) (dag_id : Address) (artifact : TapPublishArtifact)
    → (from_config config dag_id ≡ ok artifact) ↔ (
        HasText config.name
        × (config.dag_path ≢ [])
        × IsValidRequirement config.requirements
        × (artifact ≡ record {
          skill_name = config.name;
          dag_id = dag_id;
          interface_revision = config.interface_revision;
          requirements = config.requirements;
        }))
unfolding from_config validate_config
from_config_iff config dag_id artifact =
    let named = bail_if_iff (is_blank config.name) missing_skill_name in
    let placed = bail_if_iff (is_empty config.dag_path) missing_dag_path in
    (
      (λ h.
          let (_, checked, last) = >>=-eq-ok (validate_config config) _ h in
          let (_, first, h₁) =
            >>=-eq-ok (bail_if (is_blank config.name) missing_skill_name) _ checked in
          let (_, second, h₂) =
            >>=-eq-ok (bail_if (is_empty config.dag_path) missing_dag_path) _ h₁ in
          (
            (is_blank_iff config.name).0 (named.0 first),
            (is_empty_iff config.dag_path).0 (placed.0 second),
            (validate_requirements_iff config.requirements).0 h₂,
            sym (ok_injective last),
          )),
      λ (text, path, valid, is). rw (named.1 ((is_blank_iff config.name).1 text)) (
          rw (placed.1 ((is_empty_iff config.dag_path).1 path))
            (rw ((validate_requirements_iff config.requirements).1 valid) (ap ok (sym is)))),
    )
