-- ===== src/Tap/Registry/Resolve.antt =====
-- What the lookups in the agent registry find.
use mathlib.Core.Path.{subst}
use nexus_sdk.Prelude.{
  ℕ, ◌≡◌, refl, sym, ◌∙◌, ap, ◌↔◌, true, List, [], ◌∷◌, filter, arith, Result, ok, err, >>=-eq-ok,
  ok_injective, ==_iff, nat_eq, IsOnly, filter_iff, IsOnly-unique,
}
use nexus_sdk.Tap.Types.{
  AgentId, SkillId, SkillRecordContext, skill_revision_lookup_key_eq, SkillRevisionContext,
  AgentRegistrySnapshot, ActiveSkillExecutionTarget,
}
use nexus_sdk.Tap.Requirements.Valid.{IsValidRequirement, validate_requirements_iff}
use nexus_sdk.Tap.Registry.{
  RegistryError, lookup_failed, invalid, active_skill_not_found, duplicate_active_skills, map_err,
  exactly_one, from_skill_record, validate_revision, is_active_skill, active_one,
  active_skill_revision_record, resolve_active_tap_skill_execution_target,
}

module _ {ℓ} {E : Type 0} {A : Type ℓ} where
  pub exactly_one_iff :
      (missing : E) (duplicate : ℕ → E) (xs : List A) (x : A)
      → (exactly_one missing duplicate xs ≡ ok x) ↔ (xs ≡ x ∷ [])
  exactly_one_iff missing duplicate [] x = ground arith
  exactly_one_iff missing duplicate (y ∷ []) x = ground arith
  exactly_one_iff missing duplicate (y ∷ z ∷ rest) x = ground arith

pub map_err_iff {ℓ} :
    {E F : Type 0} {A : Type ℓ} (f : E → F) (r : Result E A) (a : A)
    → (map_err f r ≡ ok a) ↔ (r ≡ ok a)
map_err_iff f (ok b) a = ground arith
map_err_iff f (err e) a = ground arith

-- The one active skill with these ids.
abbrev pub IsActiveSkill : AgentId → SkillId → SkillRecordContext → List SkillRecordContext → Type 0
IsActiveSkill agent_id skill_id skill skills =
    IsOnly (is_active_skill agent_id skill_id) skill skills

is_active_skill-ids :
    (agent_id : AgentId) (skill_id : SkillId) (skill : SkillRecordContext)
    → is_active_skill agent_id skill_id skill ≡ true
    → (skill.agent_id ≡ agent_id) × (skill.skill_id ≡ skill_id) × (skill.skill_record.active ≡ true)
is_active_skill-ids agent_id skill_id skill h =
    ground (arith, ==_iff skill.agent_id agent_id, ==_iff skill.skill_id skill_id)

active_one-singleton :
    (agent_id : AgentId) (skill_id : SkillId) (xs : List SkillRecordContext)
    (skill : SkillRecordContext)
    → active_one agent_id skill_id xs ≡ ok skill
    → xs ≡ skill ∷ []
active_one-singleton agent_id skill_id [] skill h = ground arith
active_one-singleton agent_id skill_id (s ∷ []) skill h = ground arith
active_one-singleton agent_id skill_id (s ∷ t ∷ rest) skill h = ground arith

pub active_one_iff :
    (agent_id : AgentId) (skill_id : SkillId) (skills : List SkillRecordContext)
    (skill : SkillRecordContext)
    → (active_one agent_id skill_id (filter (is_active_skill agent_id skill_id) skills) ≡ ok skill)
      ↔ IsActiveSkill agent_id skill_id skill skills
active_one_iff agent_id skill_id skills skill =
    let only = filter_iff (is_active_skill agent_id skill_id) skill skills in
    (
      (λ h. only.0 (active_one-singleton agent_id skill_id _ skill h)),
      λ found.
          let (_, _, active) = is_active_skill-ids agent_id skill_id skill found.holds in
          rw (only.1 found) (rw active refl),
    )

pub active_skill_revision_record_iff :
    (registry : AgentRegistrySnapshot) (agent_id : AgentId) (skill_id : SkillId)
    (revision : SkillRevisionContext)
    → (active_skill_revision_record registry agent_id skill_id ≡ ok revision) ↔ (
        (skill : SkillRecordContext) × IsActiveSkill agent_id skill_id skill registry.skills
        × IsValidRequirement skill.skill_record.requirements
        × (revision ≡ from_skill_record skill))
unfolding active_skill_revision_record
active_skill_revision_record_iff registry agent_id skill_id revision =
    let one =
      active_one agent_id skill_id (filter (is_active_skill agent_id skill_id) registry.skills) in
    (
      (λ h.
          let (skill, first, h₁) = >>=-eq-ok (map_err lookup_failed one) _ h in
          let (_, second, h₂) =
            >>=-eq-ok (map_err invalid (validate_revision (from_skill_record skill))) _ h₁ in
          (
            skill,
            (active_one_iff agent_id skill_id registry.skills skill).0
                ((map_err_iff lookup_failed one skill).0 first),
            (validate_requirements_iff skill.skill_record.requirements).0
                ((map_err_iff invalid (validate_revision (from_skill_record skill)) tt).0 second),
            sym (ok_injective h₂),
          )),
      λ (skill, found, valid, is).
          rw ((active_one_iff agent_id skill_id registry.skills skill).1 found) (
            rw ((validate_requirements_iff skill.skill_record.requirements).1 valid)
              (ap ok (sym is))),
    )

-- A target: the one active skill with these ids, whose requirements are valid, and its revision.
abbrev pub IsTarget :
    AgentRegistrySnapshot → AgentId → SkillId → ActiveSkillExecutionTarget → Type 0
IsTarget registry agent_id skill_id found =
    IsActiveSkill agent_id skill_id found.skill registry.skills
    × IsValidRequirement found.skill.skill_record.requirements
    × (found.skill_revision ≡ from_skill_record found.skill)

IsTarget-found :
    (registry : AgentRegistrySnapshot) (agent_id : AgentId) (skill_id : SkillId)
    (skill : SkillRecordContext) (revision : SkillRevisionContext)
    → IsActiveSkill agent_id skill_id skill registry.skills
    → active_skill_revision_record registry agent_id skill_id ≡ ok revision
    → IsTarget registry agent_id skill_id record { skill = skill; skill_revision = revision }
IsTarget-found registry agent_id skill_id skill revision active h =
    let (other, also, valid, is) =
      (active_skill_revision_record_iff registry agent_id skill_id revision).0 h in
    let same =
      IsOnly-unique (is_active_skill agent_id skill_id) other skill registry.skills also active in
    (
      active,
      subst (λ s. IsValidRequirement s.skill_record.requirements) same valid,
      is ∙ ap from_skill_record same,
    )

-- A target is resolved exactly if it is the one active skill of the registry with these ids and its
-- requirements are valid; the revision returned with it is that skill's own.
pub resolve_active_tap_skill_execution_target_iff :
    (registry : AgentRegistrySnapshot) (agent_id : AgentId) (skill_id : SkillId)
    (found : ActiveSkillExecutionTarget)
    → (resolve_active_tap_skill_execution_target registry agent_id skill_id ≡ ok found)
      ↔ IsTarget registry agent_id skill_id found
unfolding resolve_active_tap_skill_execution_target
resolve_active_tap_skill_execution_target_iff registry agent_id skill_id found =
    let skills = filter (is_active_skill agent_id skill_id) registry.skills in
    let missing = active_skill_not_found agent_id skill_id in
    let duplicate : ℕ → RegistryError = λ _. duplicate_active_skills agent_id skill_id in
    (
      (λ h.
          let (skill, first, h₁) = >>=-eq-ok (exactly_one missing duplicate skills) _ h in
          let (revision, second, h₂) =
            >>=-eq-ok (active_skill_revision_record registry agent_id skill_id) _ h₁ in
          let active =
            (filter_iff (is_active_skill agent_id skill_id) skill registry.skills).0
              ((exactly_one_iff missing duplicate skills skill).0 first) in
          subst (IsTarget registry agent_id skill_id) (ok_injective h₂)
            (IsTarget-found registry agent_id skill_id skill revision active second)),
      λ (active, valid, is).
          rw
            ((exactly_one_iff missing duplicate skills found.skill).1 (
              (filter_iff (is_active_skill agent_id skill_id) found.skill registry.skills).1
                active))
            (rw
              ((active_skill_revision_record_iff registry agent_id skill_id found.skill_revision).1
                (found.skill, active, valid, is))
              refl),
    )
