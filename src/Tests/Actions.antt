-- ===== src/Tests/Actions.antt =====
-- Requests for actions, run.
use shob_app.Prelude.{ℕ, ◌≡◌, refl, some, none, List, [], ◌∷◌, length, arith, true, In, Option}
use shob_app.Platform.{SubscriptionsPlan}
use shob_app.Store.Rows.{Action, Workflow}
use shob_app.Store.Table.{count}
use shob_app.Store.Effects.{World, Result, ok, throw}
use shob_app.Action.Service.{
  in_workflow, owns_workflow, create_action, delete_action_by_id, update_action_by_id,
}
use shob_app.Action.Service.Effects.{
  Created, create_action-Created, Updated, update_action_by_id-Updated, Deleted,
  delete_action_by_id-Deleted,
}
use shob_app.Action.Numbering.{IsOrdered}
use shob_app.Action.Endpoints.{ActionRequest, serve, serve_all, create_action_route}
use shob_app.Action.Endpoints.Limits.{create_action_route-Within, Within}
use shob_app.Action.Schema.{create_action_schema}
use shob_app.Action.Zod.{parse_object}
use shob_app.Plan.{can_activate, plan_limits, LimitKey}
use shob_app.Plan.Laws.{IsPlanOf, Admitted, can_activate_sound}
use shob_app.Action.Schema.Again.{IsTidy}
use shob_app.Action.Service.Readable.{ReadableBy, create_action-ReadableBy}
use shob_app.Tests.Client.{client}
use shob_app.Tests.Data.{js, db, world, new_action, hook}

pub db-IsOrdered : IsOrdered db.actions
db-IsOrdered = (λ w k. ground arith, λ id. ground arith)

-- Adding a third action, and then removing the first.
abbrev requests : List (ActionRequest × ℕ)
requests = (ActionRequest.create 10 new_action, 7) ∷ (ActionRequest.delete 1, 7) ∷ []

two_left : length (serve_all client js requests world).db.actions ≡ 2
unfolding serve_all serve create_action_route create_action delete_action_by_id can_activate
    create_action_schema parse_object
two_left = refl

-- The route, run by the owner of the workflow.
abbrev posted : Result Action × World
posted = create_action_route client js 10 new_action 7 world

abbrev added : Action
added = elim posted.0 [ ok a ↦ a | throw e ↦ hook ]

added_eq : posted ≡ (ok added, posted.1)
unfolding create_action_route create_action can_activate create_action_schema parse_object
added_eq = refl

create_action_route-Within_example :
    ((f : Workflow) × In f world.db.workflows × (owns_workflow 10 7 f ≡ true))
    × ((plan : Option SubscriptionsPlan) × IsPlanOf 7 world.db plan
        × Within
            (count (in_workflow 10) posted.1.db.actions)
            (plan_limits plan LimitKey.actions_per_workflow))
create_action_route-Within_example =
    create_action_route-Within client js 10 new_action 7 world posted.1 added added_eq

abbrev deletion : Result Action × World
deletion = delete_action_by_id client 1 7 world

delete_action_by_id-Deleted_example : Deleted client 1 7 world.db deletion
delete_action_by_id-Deleted_example = delete_action_by_id-Deleted client 1 7 world

update_action_by_id-Updated_example :
    Updated client js 7 new_action 1 world.db (update_action_by_id client js 7 new_action 1 world)
update_action_by_id-Updated_example = update_action_by_id-Updated client js 7 new_action 1 world

create_action-Created_example :
    Created client 10 world.db (create_action client js 10 7 new_action world)
create_action-Created_example = create_action-Created client js 10 7 new_action world

let_in :
    can_activate client (some LimitKey.workflows) 7 none world
    ≡ (ok true, (can_activate client (some LimitKey.workflows) 7 none world).1)
unfolding can_activate
let_in = refl

can_activate_sound_example :
    (plan : Option SubscriptionsPlan) × IsPlanOf 7 world.db plan
    × Admitted LimitKey.workflows 7 none world.db (plan_limits plan LimitKey.workflows)
can_activate_sound_example =
    can_activate_sound client LimitKey.workflows 7 none world
      (can_activate client (some LimitKey.workflows) 7 none world).1 let_in

js-IsTidy : IsTidy js
js-IsTidy = record { trim_again = λ s. refl; lower_again = λ s. refl; trim_lower = λ s. refl }

create_action-ReadableBy_example :
    ReadableBy client js 10 7 world.db world (create_action client js 10 7 new_action world)
create_action-ReadableBy_example =
    create_action-ReadableBy client js js-IsTidy 10 7 new_action world world
