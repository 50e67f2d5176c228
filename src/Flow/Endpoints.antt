-- ===== src/Flow/Endpoints.antt =====
-- The listing of workflow.service.ts (getAllWorkflow), and the routes of workflow.controller.ts behind
-- the plan guard. The bodies have passed their schemas.
use shob_app.Prelude.{ℕ, Option, some, none, List, Bool, if◌then◌else◌, ◌==◌}
use shob_app.Store.Rows.{Workflow}
use shob_app.Store.Effects.{M, Prisma, forbidden, pure, raise, ◌>>=◌, ◌>>◌}
use shob_app.Store.Effects.Http.{as_http}
use shob_app.Plan.{LimitKey, can_activate}
use shob_app.Pages.{Order, Pagination, Parsed, list_page, paged}
use shob_app.Flow.{
  WorkflowDto, WorkflowPatch, create_workflow, get_one_workflow_by_id, update_workflow,
  delete_one_workflow_by_id, delete_many_workflow,
}

-- where: { userId }
abbrev pub is_of : ℕ → Workflow → Bool
is_of user_id w = w.user_id == user_id

pub data FlowRequest : Type 0 where
  create : WorkflowDto → FlowRequest
  get_all : Parsed → Parsed → FlowRequest
  update : ℕ → WorkflowPatch → FlowRequest
  delete_one get_one : ℕ → FlowRequest
  delete_many : List ℕ → FlowRequest

pub data FlowReply : Type 0 where
  listing : List Workflow × Pagination → FlowReply
  workflow : Workflow → FlowReply
  updated : FlowReply
  deleted : ℕ → List ℕ → FlowReply

module _ (prisma : Prisma) (order : Order) where
  unfoldable pub get_all_workflow : ℕ → ℕ → ℕ → M (List Workflow × Pagination)
  get_all_workflow user_id limit page =
      list_page prisma order (λ d. d.workflows) (is_of user_id) limit page

  unfoldable pub get_all_workflow_route :
      Option ℕ → Parsed → Parsed → ℕ → M (List Workflow × Pagination)
  get_all_workflow_route max_limit page limit user_id =
      paged max_limit page limit (get_all_workflow user_id)

  unfoldable pub create_workflow_route : WorkflowDto → ℕ → M Workflow
  create_workflow_route body user_id = do
    admitted ← can_activate prisma (some LimitKey.workflows) user_id none
    if admitted then as_http (create_workflow prisma user_id body) else raise forbidden

  -- One request of a user with a session.
  unfoldable pub serve : Option ℕ → FlowRequest → ℕ → M FlowReply
  serve max_limit (FlowRequest.create body) user_id = do
    row ← create_workflow_route body user_id
    pure (FlowReply.workflow row)
  serve max_limit (FlowRequest.get_all page limit) user_id = do
    answer ← get_all_workflow_route max_limit page limit user_id
    pure (FlowReply.listing answer)
  serve max_limit (FlowRequest.update id body) user_id = do
    as_http (update_workflow prisma id user_id body)
    pure FlowReply.updated
  serve max_limit (FlowRequest.delete_one id) user_id = do
    row ← as_http (delete_one_workflow_by_id prisma id user_id)
    pure (FlowReply.workflow row)
  serve max_limit (FlowRequest.delete_many ids) user_id = do
    answer ← as_http (delete_many_workflow prisma user_id ids)
    pure (FlowReply.deleted answer.0 answer.1)
  serve max_limit (FlowRequest.get_one id) user_id = do
    row ← as_http (get_one_workflow_by_id prisma id user_id)
    pure (FlowReply.workflow row)
