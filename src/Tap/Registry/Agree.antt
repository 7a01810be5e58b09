-- ===== src/Tap/Registry/Agree.antt =====
-- The lookups in the agent registry and in its list of revisions.
use mathlib.Core.List.Memᴰ
use mathlib.Core.Path.{subst}
use nexus_sdk.Prelude.{
  ℕ, ◌≡◌, refl, sym, ◌∙◌, ap, ◌↔◌, true, List, map, Memᴰ, filter, All, All-intro, All-mem, arith,
  ok, try_all, try_all_iff, >>=-eq-ok, >>=-of_ok, ok_injective, ◌==◌, ==_iff, nat_eq, IsOnly,
  filter_iff, IsOnly-mem, filter-mem,
}
use nexus_sdk.Tap.Types.{
  AgentId, SkillId, SkillRecordContext, SkillRevisionLookupKey, skill_revision_lookup_key_eq,
  SkillRevisionContext, AgentRegistrySnapshot,
}
use nexus_sdk.Tap.Requirements.Valid.{IsValidRequirement, validate_requirements_iff}
use nexus_sdk.Tap.Registry.{
  RegistryError, SkillRevisionLookupError, invalid, revision_not_found, duplicate_revisions,
  missing_active_revision, duplicate_active_revision, invalid_skill_revision, map_err, exactly_one,
  from_skill_record, validate_revision, skill_revision_records, skill_revision_record,
  is_active_skill, active_one, active_skill_revision_record, is_current_revision,
  resolve_active_tap_skill_revision,
}
use nexus_sdk.Tap.Registry.Resolve.{
  exactly_one_iff, map_err_iff, active_one_iff, IsActiveSkill, active_skill_revision_record_iff,
}

records-map :
    (registry : AgentRegistrySnapshot) (records : List SkillRevisionContext)
    → skill_revision_records registry ≡ ok records
    → records ≡ map from_skill_record registry.skills
unfolding skill_revision_records
records-map registry records h =
    let all = map from_skill_record registry.skills in
    let (_, _, last) = >>=-eq-ok (try_all (λ r. map_err invalid (validate_revision r)) all) _ h in
    sym (ok_injective last)

is_current_revision-own :
    (agent_id : AgentId) (skill_id : SkillId) (skill : SkillRecordContext)
    → is_active_skill agent_id skill_id skill ≡ true
    → is_current_revision agent_id skill_id skill (from_skill_record skill) ≡ true
is_current_revision-own agent_id skill_id skill h =
    let version = skill.skill_record.current_interface_revision.inner in
    ground (
      arith,
      ==_iff skill.agent_id agent_id,
      ==_iff skill.skill_id skill_id,
      ==_iff version version,
    )

-- The records of a registry hold the revision of its active skill.
own_revision-mem :
    (registry : AgentRegistrySnapshot) (records : List SkillRevisionContext) (agent_id : AgentId)
    (skill_id : SkillId) (skill : SkillRecordContext)
    → skill_revision_records registry ≡ ok records
    → IsActiveSkill agent_id skill_id skill registry.skills
    → Memᴰ (from_skill_record skill) (filter (is_current_revision agent_id skill_id skill) records)
own_revision-mem registry records agent_id skill_id skill all active =
    let m = IsOnly-mem (is_active_skill agent_id skill_id) skill registry.skills active in
    filter-mem (is_current_revision agent_id skill_id skill)
      (subst (Memᴰ (from_skill_record skill)) (sym (records-map registry records all))
        (Memᴰ.map from_skill_record m))
      (is_current_revision-own agent_id skill_id skill active.holds)

-- The revision that the resolver finds in the records of a registry is the one that the registry's
-- own lookup of the active skill finds.
pub resolvers_agree :
    (registry : AgentRegistrySnapshot) (records : List SkillRevisionContext) (agent_id : AgentId)
    (skill_id : SkillId) (revision : SkillRevisionContext)
    → skill_revision_records registry ≡ ok records
    → resolve_active_tap_skill_revision records registry.skills agent_id skill_id ≡ ok revision
    → active_skill_revision_record registry agent_id skill_id ≡ ok revision
unfolding resolve_active_tap_skill_revision
resolvers_agree registry records agent_id skill_id revision all h =
    let one =
      active_one agent_id skill_id (filter (is_active_skill agent_id skill_id) registry.skills) in
    let (skill, first, h₁) = >>=-eq-ok one _ h in
    let active = (active_one_iff agent_id skill_id registry.skills skill).0 first in
    let found = filter (is_current_revision agent_id skill_id skill) records in
    let missing = missing_active_revision agent_id skill_id in
    let duplicate : ℕ → SkillRevisionLookupError = duplicate_active_revision agent_id skill_id in
    let (other, second, h₂) = >>=-eq-ok (exactly_one missing duplicate found) _ h₁ in
    let (_, third, h₃) =
      >>=-eq-ok (map_err invalid_skill_revision (validate_revision other)) _ h₂ in
    let only = (exactly_one_iff missing duplicate found other).0 second in
    let own = own_revision-mem registry records agent_id skill_id skill all active in
    let same = Memᴰ.eq_of_singleton (subst (Memᴰ (from_skill_record skill)) only own) in
    let valid =
      (validate_requirements_iff other.requirements).0
        ((map_err_iff invalid_skill_revision (validate_revision other) tt).0 third) in
    (active_skill_revision_record_iff registry agent_id skill_id revision).1 (
      skill,
      active,
      subst (λ r. IsValidRequirement r.requirements) (sym same) valid,
      sym (ok_injective h₃) ∙ sym same,
    )

-- The revisions of a registry can be listed exactly if the requirements of all its skills are valid.
skill_revision_records_iff :
    (registry : AgentRegistrySnapshot)
    → (skill_revision_records registry ≡ ok (map from_skill_record registry.skills))
      ↔ All (λ skill. IsValidRequirement skill.skill_record.requirements) registry.skills
unfolding skill_revision_records
skill_revision_records_iff registry =
    let records = map from_skill_record registry.skills in
    let tries = try_all_iff (λ r. map_err invalid (validate_revision r)) records in
    (
      (λ h.
          let (_, first, last) =
            >>=-eq-ok (try_all (λ r. map_err invalid (validate_revision r)) records) _ h in
          All-intro (λ skill. IsValidRequirement skill.skill_record.requirements) registry.skills
            (λ skill m. (validate_requirements_iff skill.skill_record.requirements).0 (
              (map_err_iff invalid (validate_revision (from_skill_record skill)) tt).0 (
                All-mem (λ r. map_err invalid (validate_revision r) ≡ ok tt) (tries.0 first)
                  (Memᴰ.map from_skill_record m))))),
      λ valid.
          >>=-of_ok (try_all (λ r. map_err invalid (validate_revision r)) records) _
            (tries.1 (
              All-intro (λ r. map_err invalid (validate_revision r) ≡ ok tt) records
                (λ r m.
                  let (skill, n, e) = Memᴰ.of_map from_skill_record registry.skills m in
                  subst (λ t. map_err invalid (validate_revision t) ≡ ok tt) e
                    ((map_err_iff invalid (validate_revision (from_skill_record skill)) tt).1 (
                      (validate_requirements_iff skill.skill_record.requirements).1
                        (All-mem (λ k. IsValidRequirement k.skill_record.requirements) valid n))))))
            refl,
    )

-- A pinned revision is found exactly if the requirements of all skills of the registry are valid, not
-- only those of the skill asked for, and one skill alone, active or not, has a revision with the key.
pub skill_revision_record_iff :
    (registry : AgentRegistrySnapshot) (key : SkillRevisionLookupKey)
    (revision : SkillRevisionContext)
    → (skill_revision_record registry key ≡ ok revision) ↔ (
        All (λ skill. IsValidRequirement skill.skill_record.requirements) registry.skills
        × IsOnly (λ r. r.key == key) revision (map from_skill_record registry.skills))
unfolding skill_revision_record
skill_revision_record_iff registry key revision =
    let missing = revision_not_found key in
    let duplicate : ℕ → RegistryError = λ _. duplicate_revisions key in
    let found = filter (λ r. r.key == key) (map from_skill_record registry.skills) in
    (
      (λ h.
          let (records, first, last) = >>=-eq-ok (skill_revision_records registry) _ h in
          let is = records-map registry records first in
          (
            (skill_revision_records_iff registry).0 (first ∙ ap ok is),
            (filter_iff (λ r. r.key == key) revision (map from_skill_record registry.skills)).0 (
                ap (filter (λ r. r.key == key)) (sym is)
                ∙ (exactly_one_iff missing duplicate (filter (λ r. r.key == key) records)
                      revision).0
                    last),
          )),
      λ (valid, only).
          >>=-of_ok (skill_revision_records registry) _
            ((skill_revision_records_iff registry).1 valid)
            ((exactly_one_iff missing duplicate found revision).1 (
              (filter_iff (λ r. r.key == key) revision (map from_skill_record registry.skills)).1
                only)),
    )
