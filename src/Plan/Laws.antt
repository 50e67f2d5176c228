-- ===== src/Plan/Laws.antt =====
-- What it means that the guard lets a request through.
use shob_app.Prelude.{
  ℕ, suc, ◌<◌, ◌≡◌, refl, ap, ◌⊎◌, true, Option, some, none, ◌==◌, arith, In, inl, inr,
  Option-cases,
}
use shob_app.Platform.{SubscriptionsPlan}
use shob_app.Store.Rows.{Db, Subscription}
use shob_app.Store.Table.{count}
use shob_app.Store.Effects.{Prisma, World, ok}
use shob_app.Action.Service.{in_workflow}
use shob_app.Plan.{
  Limit, LimitKey, plan_limits, active_subscription, plan_of, can_activate, check_limit,
}

abbrev pub Below : ℕ → Limit → Type 0
Below n Limit.infinity = Unit
Below n (Limit.at_most m) = n < m

-- The plan of a user: that of one of the active subscriptions, or none where there is none.
abbrev pub IsPlanOf : ℕ → Db → Option SubscriptionsPlan → Type 0
IsPlanOf user_id d plan =
    ((count (active_subscription user_id) d.subscriptions ≡ 0) × (plan ≡ none))
    ⊎ ((s : Subscription) × In s d.subscriptions
        × (active_subscription user_id s ≡ true)
        × (plan ≡ s.plan))

-- What is counted against the limit, and what the request must own.
abbrev pub Admitted : LimitKey → ℕ → Option ℕ → Db → Limit → Type 0
Admitted LimitKey.workflows user_id param d limit =
    Below (count (λ w. w.user_id == user_id) d.workflows) limit
Admitted LimitKey.actions_per_workflow user_id none d Limit.infinity = Unit
Admitted LimitKey.actions_per_workflow user_id none d (Limit.at_most m) = ⊥
Admitted LimitKey.actions_per_workflow user_id (some id) d limit =
    Below (count (in_workflow id) d.actions) limit

module _ (prisma : Prisma) where
  pub find_plan :
      (user_id : ℕ) (d : Db)
      → IsPlanOf user_id d
          (plan_of (prisma.find_first Subscription (active_subscription user_id) d.subscriptions))
  find_plan user_id d =
      let active = active_subscription user_id in
      elim (Option-cases (prisma.find_first Subscription active d.subscriptions)) [
        | inl missing ↦
            inl (
              prisma.find_first_none Subscription active d.subscriptions missing,
              ap plan_of missing,
            )
        | inr (s, found) ↦
            let (listed, is_active) =
              prisma.find_first_some Subscription active d.subscriptions s found in
            inr (s, listed, is_active, ap plan_of found)
      ]

  check_limit_sound :
      (key : LimitKey) (user_id : ℕ) (param : Option ℕ) (limit : Limit) (w w' : World)
      → check_limit prisma key user_id param limit w ≡ (ok true, w')
      → Admitted key user_id param w.db limit × (w'.db ≡ w.db)
  unfolding check_limit
  check_limit_sound LimitKey.workflows user_id param Limit.infinity w w' e = ground arith
  check_limit_sound LimitKey.workflows user_id param (Limit.at_most m) w w' e = ground arith
  check_limit_sound LimitKey.actions_per_workflow user_id none Limit.infinity w w' e = ground arith
  check_limit_sound LimitKey.actions_per_workflow user_id none (Limit.at_most m) w w' e =
      ground arith
  check_limit_sound LimitKey.actions_per_workflow user_id (some id) Limit.infinity w w' e =
      ground arith
  check_limit_sound LimitKey.actions_per_workflow user_id (some id) (Limit.at_most m) w w' e =
      ground arith

  -- The guard changes no table, whatever it answers.
  pub can_activate-db :
      (key : Option LimitKey) (user_id : ℕ) (param : Option ℕ) (w : World)
      → (can_activate prisma key user_id param w).1.db ≡ w.db
  unfolding can_activate
  can_activate-db none user_id param w = refl
  can_activate-db (some LimitKey.workflows) user_id param w = ground arith
  can_activate-db (some LimitKey.actions_per_workflow) user_id param w = ground arith

  -- A request that the guard lets through is below the limit of the user's plan, which is that of
  -- an active subscription of the user or the free one if there is none: for workflows by the
  -- number of the user's workflows, for actions by the number of actions of the workflow in the
  -- request.
  pub can_activate_sound :
      (key : LimitKey) (user_id : ℕ) (param : Option ℕ) (w w' : World)
      → can_activate prisma (some key) user_id param w ≡ (ok true, w')
      → (plan : Option SubscriptionsPlan) × IsPlanOf user_id w.db plan
        × Admitted key user_id param w.db (plan_limits plan key)
  unfolding can_activate
  can_activate_sound key user_id param w w' e =
      let row = prisma.find_first Subscription (active_subscription user_id) w.db.subscriptions in
      let limit = plan_limits (plan_of row) key in
      let later = record w { calls = suc w.calls } in
      elim (Option-cases (prisma.fault w.calls)) [
        | inl works ↦ (
          plan_of row,
          find_plan user_id w.db,
          (check_limit_sound key user_id param limit later w' (ground (arith, works))).0,
        )
        | inr (x, fails) ↦ absurd (ground (arith, fails))
      ]
