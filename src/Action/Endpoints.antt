-- ===== src/Action/Endpoints.antt =====
-- action.controller.ts: the routes, behind the plan guard where `@CheckLimit` asks for it.
pub mod Steps
pub mod Limits
use shob_app.Prelude.{ℕ, Bool, Option, some, List, [], ◌∷◌, if◌then◌else◌}
use shob_app.Store.Rows.{Action}
use shob_app.Store.Effects.{
  M, Prisma, World, Exception, forbidden, pure, raise, try_catch, ◌>>=◌, ◌>>◌,
}
use shob_app.Store.Effects.Http.{as_http}
use shob_app.Plan.{LimitKey, can_activate}
use shob_app.Action.Zod.{Js}
use shob_app.Action.Schema.{RawAction}
use shob_app.Action.Service.{
  get_all_actions_by_workflow_id, create_action, get_one_action_by_id, update_action_by_id,
  delete_all_actions_by_workflow_id, delete_action_by_id,
}

pub data ActionRequest : Type 0 where
  get_all delete_all get_one delete : ℕ → ActionRequest
  create : ℕ → RawAction → ActionRequest
  update : RawAction → ℕ → ActionRequest

pub data Reply : Type 0 where
  actions : List Action → Reply
  action : Action → Reply
  cleared : ℕ → ℕ → Reply

module _ (prisma : Prisma) (js : Js) where
  -- The guard, and then the handler.
  unfoldable pub create_action_route : ℕ → RawAction → ℕ → M Action
  create_action_route workflow_id body user_id = do
    admitted ← can_activate prisma (some LimitKey.actions_per_workflow) user_id (some workflow_id)
    if admitted then as_http (create_action prisma js workflow_id user_id body) else raise forbidden

  -- One request of a user with a session.
  unfoldable pub serve : ActionRequest → ℕ → M Reply
  serve (ActionRequest.get_all workflow_id) user_id = do
    rows ← as_http (get_all_actions_by_workflow_id prisma workflow_id user_id)
    pure (Reply.actions rows)
  serve (ActionRequest.create workflow_id body) user_id = do
    row ← create_action_route workflow_id body user_id
    pure (Reply.action row)
  serve (ActionRequest.get_one id) user_id = do
    row ← as_http (get_one_action_by_id prisma id user_id)
    pure (Reply.action row)
  serve (ActionRequest.update body id) user_id = do
    row ← as_http (update_action_by_id prisma js user_id body id)
    pure (Reply.action row)
  serve (ActionRequest.delete_all workflow_id) user_id = do
    (id, n) ← as_http (delete_all_actions_by_workflow_id prisma workflow_id user_id)
    pure (Reply.cleared id n)
  serve (ActionRequest.delete id) user_id = do
    row ← as_http (delete_action_by_id prisma id user_id)
    pure (Reply.action row)

  -- The state after requests that are served one after another.
  unfoldable pub serve_all : List (ActionRequest × ℕ) → World → World
  serve_all [] w = w
  serve_all ((r, user_id) ∷ rs) w = serve_all rs (serve r user_id w).1
