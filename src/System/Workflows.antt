-- ===== src/System/Workflows.antt =====
-- The routes of the workflows, against the order of the actions.
use shob_app.Prelude.{ℕ, List, arith, Option, some, none, subst, sym, ◌==◌, if◌then◌else◌}
use shob_app.Store.Rows.{Db, Workflow}
use shob_app.Store.Effects.{Prisma, World, Result, ok, throw, pure, raise, forbidden}
use shob_app.Store.Effects.Http.{as_http}
use shob_app.Action.Numbering.{IsOrdered}
use shob_app.Plan.{LimitKey, can_activate}
use shob_app.Plan.Laws.{can_activate-db}
use shob_app.Pages.{Order}
use shob_app.Flow.{
  WorkflowDto, WorkflowPatch, listed, create_workflow, get_one_workflow_by_id, update_workflow,
  delete_one_workflow_by_id, delete_many_workflow,
}
use shob_app.Flow.Laws.{
  DeletedAll, delete_many_workflow-DeletedAll, DeletedOne, delete_one_workflow-DeletedOne,
}
use shob_app.Flow.Endpoints.{
  is_of, FlowRequest, FlowReply, get_all_workflow, get_all_workflow_route, create_workflow_route,
}
use shob_app.Flow.Endpoints as flow_routes
use shob_app.System.Keeps.{
  Untouched, Keeps, Untouched-Keeps, bind-Keeps, as_http-Keeps, pure-Keeps, if-Keeps,
  delete_workflows-IsOrdered,
}
use shob_app.System.Listings.{list_page-Untouched, paged-Keeps}

module _ (prisma : Prisma) where
  create_workflow-Untouched :
      (user_id : ℕ) (body : WorkflowDto) → Untouched (create_workflow prisma user_id body)
  unfolding create_workflow
  create_workflow-Untouched user_id body w = ground arith

  get_one_workflow-Untouched :
      (id user_id : ℕ) → Untouched (get_one_workflow_by_id prisma id user_id)
  unfolding get_one_workflow_by_id
  get_one_workflow-Untouched id user_id w = ground arith

  update_workflow-Untouched :
      (id user_id : ℕ) (patch : WorkflowPatch) → Untouched (update_workflow prisma id user_id patch)
  unfolding update_workflow get_one_workflow_by_id
  update_workflow-Untouched id user_id patch w = ground arith

  delete_one_workflow-Keeps : (id user_id : ℕ) → Keeps (delete_one_workflow_by_id prisma id user_id)
  delete_one_workflow-Keeps id user_id w h =
      go (delete_one_workflow_by_id prisma id user_id w)
        (delete_one_workflow-DeletedOne prisma id user_id w)
    where
      go :
          (x : Result Workflow × World)
          → DeletedOne prisma id user_id w.db x
          → IsOrdered x.1.db.actions
      go (ok f, v) (there, owned, same) =
          subst (λ (d : Db). IsOrdered d.actions) (sym same)
            (delete_workflows-IsOrdered (λ x. x.id == id) w.db h)
      go (throw e, v) same = subst (λ (d : Db). IsOrdered d.actions) (sym same) h

  delete_many_workflow-Keeps :
      (user_id : ℕ) (ids : List ℕ) → Keeps (delete_many_workflow prisma user_id ids)
  delete_many_workflow-Keeps user_id ids w h =
      go (delete_many_workflow prisma user_id ids w)
        (delete_many_workflow-DeletedAll prisma user_id ids w)
    where
      go :
          (x : Result (ℕ × List ℕ) × World)
          → DeletedAll prisma user_id ids w.db x
          → IsOrdered x.1.db.actions
      go (ok r, v) (number, answer, same) =
          subst (λ (d : Db). IsOrdered d.actions) (sym same)
            (delete_workflows-IsOrdered (listed user_id ids) w.db h)
      go (throw e, v) same = subst (λ (d : Db). IsOrdered d.actions) (sym same) h

  create_workflow_route-Keeps :
      (order : Order) (body : WorkflowDto) (user_id : ℕ)
      → Keeps (create_workflow_route prisma order body user_id)
  unfolding create_workflow_route
  create_workflow_route-Keeps order body user_id =
      bind-Keeps (can_activate prisma (some LimitKey.workflows) user_id none)
        (λ admitted.
          if admitted then as_http (create_workflow prisma user_id body) else raise forbidden)
        (λ w h.
          subst (λ (d : Db). IsOrdered d.actions)
            (sym (can_activate-db prisma (some LimitKey.workflows) user_id none w)) h)
        (λ admitted.
          if-Keeps admitted (as_http (create_workflow prisma user_id body)) (raise forbidden)
            (as_http-Keeps (create_workflow prisma user_id body) (
              Untouched-Keeps (create_workflow prisma user_id body)
                (create_workflow-Untouched user_id body)))
            (λ w h. h))

pub flow-Keeps :
    (prisma : Prisma) (order : Order) (max_limit : Option ℕ) (r : FlowRequest) (user_id : ℕ)
    → Keeps (flow_routes.serve prisma order max_limit r user_id)
unfolding flow_routes.serve get_all_workflow_route get_all_workflow
flow-Keeps prisma order max_limit (FlowRequest.create body) user_id =
    bind-Keeps (create_workflow_route prisma order body user_id)
      (λ row. pure (FlowReply.workflow row)) (create_workflow_route-Keeps prisma order body user_id)
      (λ row. pure-Keeps (FlowReply.workflow row))
flow-Keeps prisma order max_limit (FlowRequest.get_all page limit) user_id =
    bind-Keeps (get_all_workflow_route prisma order max_limit page limit user_id)
      (λ a. pure (FlowReply.listing a))
      (paged-Keeps prisma max_limit page limit (get_all_workflow prisma order user_id) (λ l p.
        Untouched-Keeps (get_all_workflow prisma order user_id l p)
          (list_page-Untouched prisma order (λ d. d.workflows) (is_of user_id) l p)))
      (λ a. pure-Keeps (FlowReply.listing a))
flow-Keeps prisma order max_limit (FlowRequest.update id body) user_id =
    bind-Keeps (as_http (update_workflow prisma id user_id body)) (λ a. pure FlowReply.updated)
      (as_http-Keeps (update_workflow prisma id user_id body) (
        Untouched-Keeps (update_workflow prisma id user_id body)
          (update_workflow-Untouched prisma id user_id body)))
      (λ a. pure-Keeps FlowReply.updated)
flow-Keeps prisma order max_limit (FlowRequest.delete_one id) user_id =
    bind-Keeps (as_http (delete_one_workflow_by_id prisma id user_id))
      (λ row. pure (FlowReply.workflow row))
      (as_http-Keeps (delete_one_workflow_by_id prisma id user_id)
        (delete_one_workflow-Keeps prisma id user_id))
      (λ row. pure-Keeps (FlowReply.workflow row))
flow-Keeps prisma order max_limit (FlowRequest.delete_many ids) user_id =
    bind-Keeps (as_http (delete_many_workflow prisma user_id ids))
      (λ a. pure (FlowReply.deleted a.0 a.1))
      (as_http-Keeps (delete_many_workflow prisma user_id ids)
        (delete_many_workflow-Keeps prisma user_id ids))
      (λ a. pure-Keeps (FlowReply.deleted a.0 a.1))
flow-Keeps prisma order max_limit (FlowRequest.get_one id) user_id =
    bind-Keeps (as_http (get_one_workflow_by_id prisma id user_id))
      (λ row. pure (FlowReply.workflow row))
      (as_http-Keeps (get_one_workflow_by_id prisma id user_id) (
        Untouched-Keeps (get_one_workflow_by_id prisma id user_id)
          (get_one_workflow-Untouched prisma id user_id)))
      (λ row. pure-Keeps (FlowReply.workflow row))
