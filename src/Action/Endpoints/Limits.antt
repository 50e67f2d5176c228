-- ===== src/Action/Endpoints/Limits.antt =====
-- The plan's limit on the actions of a workflow, and who may add one.
use shob_app.Prelude.{
  ℕ, ◌≤◌, ◌≡◌, Bool, true, false, Option, some, arith, In, if◌then◌else◌, ap, subst,
}
use shob_app.Platform.{SubscriptionsPlan}
use shob_app.Store.Rows.{Db, Action, Workflow}
use shob_app.Store.Table.{count, insert}
use shob_app.Store.Table.Counting.{count-insert}
use shob_app.Store.Effects.{M, Prisma, World, ok, raise, forbidden}
use shob_app.Store.Effects.Inversion.{bind_ok, rethrow_ok}
use shob_app.Plan.{Limit, LimitKey, plan_limits, can_activate}
use shob_app.Plan.Laws.{IsPlanOf, can_activate-db, can_activate_sound}
use shob_app.Action.Zod.{Js}
use shob_app.Action.Schema.{RawAction}
use shob_app.Action.Service.{in_workflow, owns_workflow, create_action}
use shob_app.Action.Service.Effects.{Created, create_action-Created, create_action_owner}
use shob_app.Action.Endpoints.{create_action_route}
use shob_app.Store.Effects.Http.{as_http, http_only}

abbrev pub Within : ℕ → Limit → Type 0
Within n Limit.infinity = Unit
Within n (Limit.at_most m) = n ≤ m

module _ (prisma : Prisma) (js : Js) (id : ℕ) (body : RawAction) (user_id : ℕ) where
  abbrev guard : M Bool
  guard = can_activate prisma (some LimitKey.actions_per_workflow) user_id (some id)

  -- A route that answers has passed the guard, and then run the service.
  route_ok :
      (w w' : World) (a : Action)
      → create_action_route prisma js id body user_id w ≡ (ok a, w')
      → (v : World) × (guard w ≡ (ok true, v))
        × (create_action prisma js id user_id body v ≡ (ok a, w'))
  unfolding create_action_route
  route_ok w w' a e =
      let (b, v, passed, ran) =
        bind_ok guard
          (λ (admitted : Bool).
            if admitted then as_http (create_action prisma js id user_id body) else raise forbidden)
          w w' a e in
      go b v passed ran
    where
      go :
          (b : Bool) (v : World)
          → guard w ≡ (ok b, v)
          → (if b then as_http (create_action prisma js id user_id body) else raise forbidden) v
            ≡ (ok a, w')
          → (v : World) × (guard w ≡ (ok true, v))
            × (create_action prisma js id user_id body v ≡ (ok a, w'))
      go true v p q =
          (v, p, rethrow_ok (create_action prisma js id user_id body) http_only v w' a q)
      go false v p q = cc

  route_fits :
      (d d' : Db) (limit : Limit) (a : Action)
      → d'.actions ≡ insert a d.actions
      → a.workflow_id ≡ id
      → (shob_app.Plan.Laws.Below (count (in_workflow id) d.actions) limit)
      → Within (count (in_workflow id) d'.actions) limit
  route_fits d d' Limit.infinity a e f h = tt
  route_fits d d' (Limit.at_most m) a e f h =
      ground (arith, ap (count (in_workflow id)) e, count-insert (in_workflow id) a d.actions)

-- An action that the route has created stands in a workflow of the user, and the workflow's
-- actions, with the new one, are within the limit of the user's plan: that of an active
-- subscription of the user, or the free one if there is none.
pub create_action_route-Within :
    (prisma : Prisma) (js : Js) (id : ℕ) (body : RawAction) (user_id : ℕ) (w w' : World)
    (a : Action)
    → create_action_route prisma js id body user_id w ≡ (ok a, w')
    → ((f : Workflow) × In f w.db.workflows × (owns_workflow id user_id f ≡ true))
      × ((plan : Option SubscriptionsPlan) × IsPlanOf user_id w.db plan
          × Within
              (count (in_workflow id) w'.db.actions)
              (plan_limits plan LimitKey.actions_per_workflow))
create_action_route-Within prisma js id body user_id w w' a e =
    let key : Option LimitKey = some LimitKey.actions_per_workflow in
    let (v, passed, ran) = route_ok prisma js id body user_id w w' a e in
    let same : v.db ≡ w.db =
      ground (arith, passed, can_activate-db prisma key user_id (some id) w) in
    let (plan, is_plan, below) =
      can_activate_sound prisma LimitKey.actions_per_workflow user_id (some id) w v passed in
    let owner = create_action_owner prisma js id user_id body v w' a ran in
    let made : Created prisma id v.db (ok a, w') =
      subst (Created prisma id v.db) ran (create_action-Created prisma js id user_id body v) in
    (
      subst (λ (d : Db). (f : Workflow) × In f d.workflows × (owns_workflow id user_id f ≡ true))
          same owner,
      (
        plan,
        is_plan,
        route_fits prisma js id body user_id w.db w'.db
            (plan_limits plan LimitKey.actions_per_workflow) a
            (subst (λ (d : Db). w'.db.actions ≡ insert a d.actions) same
              (ap (λ (d : Db). d.actions) made.0))
            made.1 below,
      ),
    )
