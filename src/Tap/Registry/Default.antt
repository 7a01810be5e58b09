-- ===== src/Tap/Registry/Default.antt =====
-- The default DAG executor of the agent registry.
use mathlib.Core.Path.{subst}
use nexus_sdk.Prelude.{
  ◌≡◌, refl, sym, ap, ◌↔◌, false, some, arith, ok, bail_if, bail_if_iff, ok_or, ok_or-eq-ok,
  >>=-eq-ok, >>=-of_ok, ok_injective, nat_eq,
}
use nexus_sdk.Tap.Types.{
  SkillDagBinding, pinned, runtime_selected, skill_revision_lookup_key_eq, AgentRegistrySnapshot,
  DefaultDagExecutor, DefaultDagExecutorRecord, target,
}
use nexus_sdk.Tap.Registry.{
  not_runtime_selected, missing_default_agent, default_dag_executor,
  resolve_active_tap_skill_execution_target, is_pinned, resolve_default_tap_dag_executor,
}
use nexus_sdk.Tap.Registry.Resolve.{IsTarget, resolve_active_tap_skill_execution_target_iff}

-- The default executor names an agent and a skill, the skill is a target, and runs any DAG.
pub record IsDefaultExecutor (registry : AgentRegistrySnapshot) (found : DefaultDagExecutorRecord)
    : Type 0 where
  pub executor : DefaultDagExecutor
  pub configured : registry.default_executor ≡ some executor
  pub same_target : found.target ≡ target executor
  pub resolved :
      IsTarget registry executor.agent.id executor.skill_id
        record { skill = found.skill; skill_revision = found.skill_revision }
  pub any_dag : found.skill.skill_record.dag_binding ≡ runtime_selected

is_pinned_iff : (b : SkillDagBinding) → (is_pinned b ≡ false) ↔ (b ≡ runtime_selected)
is_pinned_iff (pinned dag_id) = ground arith
is_pinned_iff runtime_selected = ground arith

default_dag_executor-configured :
    (registry : AgentRegistrySnapshot) (executor : DefaultDagExecutor)
    → registry.default_executor ≡ some executor
    → default_dag_executor registry ≡ ok executor
unfolding default_dag_executor
default_dag_executor-configured registry executor h = ap (λ o. ok_or o missing_default_agent) h

-- The default executor is resolved exactly if it is configured, its skill is the one active skill with
-- its ids, that skill's requirements are valid and it is bound to no DAG; the record then names it and
-- its revision.
pub resolve_default_tap_dag_executor_iff :
    (registry : AgentRegistrySnapshot) (found : DefaultDagExecutorRecord)
    → (resolve_default_tap_dag_executor registry ≡ ok found) ↔ IsDefaultExecutor registry found
unfolding resolve_default_tap_dag_executor default_dag_executor
resolve_default_tap_dag_executor_iff registry found = (
  (λ h.
      let (executor, first, h₁) = >>=-eq-ok (default_dag_executor registry) _ h in
      let (t, second, h₂) =
        >>=-eq-ok
          (resolve_active_tap_skill_execution_target registry executor.agent.id executor.skill_id) _
          h₁ in
      let (_, third, h₃) =
        >>=-eq-ok
          (bail_if (is_pinned t.skill.skill_record.dag_binding)
            (not_runtime_selected executor.agent.id executor.skill_id))
          _ h₂ in
      subst (IsDefaultExecutor registry) (ok_injective h₃) record {
        executor = executor;
        configured = ok_or-eq-ok registry.default_executor missing_default_agent first;
        same_target = refl;
        resolved =
            (resolve_active_tap_skill_execution_target_iff registry executor.agent.id
                executor.skill_id t).0
              second;
        any_dag = (is_pinned_iff t.skill.skill_record.dag_binding).0 (
            (bail_if_iff (is_pinned t.skill.skill_record.dag_binding)
                (not_runtime_selected executor.agent.id executor.skill_id)).0
              third);
      }),
  λ d.
      let agent = d.executor.agent.id in
      >>=-of_ok (default_dag_executor registry) _
        (default_dag_executor-configured registry d.executor d.configured)
        (rw
          ((resolve_active_tap_skill_execution_target_iff registry agent d.executor.skill_id
              record { skill = found.skill; skill_revision = found.skill_revision }).1
            d.resolved)
          (rw
            ((bail_if_iff (is_pinned found.skill.skill_record.dag_binding)
                (not_runtime_selected agent d.executor.skill_id)).1
              ((is_pinned_iff found.skill.skill_record.dag_binding).1 d.any_dag))
            (ap
              (λ t.
                ok
                  record { target = t; skill = found.skill; skill_revision = found.skill_revision })
              (sym d.same_target)))),
)
