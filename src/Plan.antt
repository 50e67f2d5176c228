-- ===== src/Plan.antt =====
-- config/plan-limits.config.ts, decorators/check-limit.decorator.ts and guards/plan-limit.guard.ts:
-- how many workflows and actions a subscription allows.
pub mod Laws
use shob_app.Prelude.{
  ℕ, ◌≡◌, Bool, true, false, ◌&&◌, Option, some, none, List, [], ◌∷◌, if◌then◌else◌, ◌==◌, leb,
}
use shob_app.Platform.{SubscriptionsPlan, SubscriptionsStatus}
use shob_app.Store.Rows.{Db, Subscription, Workflow}
use shob_app.Store.Table.{count}
use shob_app.Store.Effects.{
  M, Prisma, bad_request, forbidden, pure, raise, query, throw_if, or_throw, ◌>>=◌, ◌>>◌,
}
use shob_app.Action.Service.{owns_workflow, in_workflow}

pub data Limit : Type 0 where
  at_most : ℕ → Limit
  infinity : Limit

pub data LimitKey : Type 0 where
  workflows actions_per_workflow : LimitKey

-- `PLAN_LIMITS`; `none` is the plan `Free`
unfoldable pub plan_limits : Option SubscriptionsPlan → LimitKey → Limit
plan_limits none LimitKey.workflows = Limit.at_most 3
plan_limits none LimitKey.actions_per_workflow = Limit.at_most 12
plan_limits (some SubscriptionsPlan.basic) LimitKey.workflows = Limit.at_most 7
plan_limits (some SubscriptionsPlan.basic) LimitKey.actions_per_workflow = Limit.at_most 20
plan_limits (some SubscriptionsPlan.pro) key = Limit.infinity

abbrev is_active : SubscriptionsStatus → Bool
is_active SubscriptionsStatus.active = true
is_active _ = false

abbrev is_user : ℕ → Option ℕ → Bool
is_user user_id none = false
is_user user_id (some u) = u == user_id

-- where: { userId, status: "active" }
abbrev pub active_subscription : ℕ → Subscription → Bool
active_subscription user_id s = is_user user_id s.user_id && is_active s.status

-- `userPlan && userPlan.plan`
abbrev pub plan_of : Option Subscription → Option SubscriptionsPlan
plan_of none = none
plan_of (some s) = s.plan

abbrev within : ℕ → Limit → Bool
within n Limit.infinity = true
within n (Limit.at_most m) = if leb m n then false else true

module _ (prisma : Prisma) where
  -- The tests of one resource, once the limit is a number.
  check_count : LimitKey → ℕ → Option ℕ → ℕ → M (Unit {0})
  check_count LimitKey.workflows user_id workflow_param limit = do
    n ← query prisma (λ d. count (λ w. w.user_id == user_id) d.workflows)
    throw_if (leb limit n) forbidden
  check_count LimitKey.actions_per_workflow user_id workflow_param limit = do
    workflow_id ← or_throw workflow_param forbidden
    workflow ←
        query prisma
          (λ d. prisma.find_first Workflow (owns_workflow workflow_id user_id) d.workflows)
    or_throw workflow forbidden
    n ← query prisma (λ d. count (in_workflow workflow_id) d.actions)
    throw_if (leb limit n) forbidden

  check_limit : LimitKey → ℕ → Option ℕ → Limit → M Bool
  unfolding check_count
  check_limit key user_id workflow_param Limit.infinity = pure true
  check_limit key user_id workflow_param (Limit.at_most limit) = do
    check_count key user_id workflow_param limit
    pure true

  -- `PlanLimitGuard.canActivate`; `workflow_param` is `req.params[meta.parentParam ?? "workflowId"]`
  unfoldable pub can_activate : Option LimitKey → ℕ → Option ℕ → M Bool
  unfolding check_limit plan_limits
  can_activate none user_id workflow_param = pure true
  can_activate (some key) user_id workflow_param = do
    user_plan ←
        query prisma
          (λ d. prisma.find_first Subscription (active_subscription user_id) d.subscriptions)
    check_limit key user_id workflow_param (plan_limits (plan_of user_plan) key)
