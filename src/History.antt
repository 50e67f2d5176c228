-- ===== src/History.antt =====
-- The run history: workflow-run.service.ts, action-run.service.ts, their controllers and the schema
-- get-all-workflow-run.dto.ts. The omitted and the included columns are left out of the answers.
pub mod Laws
use shob_app.Prelude.{
  ℕ, String, Option, some, none, List, Bool, true, false, not, ◌&&◌, any, map, length, leb, ◌==◌,
  if◌then◌else◌, max,
}
use shob_app.Platform.{RunStatus}
use shob_app.Store.Rows.{Value, Db, Workflow, WorkflowRun, ActionRun}
use shob_app.Store.Table.{select}
use shob_app.Store.Effects.{
  M, Prisma, bad_request, not_found, pure, raise, query, throw_if, or_throw, ◌>>=◌, ◌>>◌,
}
use shob_app.Store.Effects.Http.{as_http}
use shob_app.Action.Service.{owns_workflow}
use shob_app.Pages.{Order, Pagination, Parsed, list_page, max_limit_of, paged}

abbrev same_status : RunStatus → RunStatus → Bool
same_status RunStatus.running RunStatus.running = true
same_status RunStatus.succeeded RunStatus.succeeded = true
same_status RunStatus.failed RunStatus.failed = true
same_status _ _ = false

-- where: { workflowId, status }
abbrev pub run_of : ℕ → Option RunStatus → WorkflowRun → Bool
run_of workflow_id none r = r.workflow_id == workflow_id
run_of workflow_id (some s) r = r.workflow_id == workflow_id && same_status r.status s

-- where: { id, workflow: { userId } }
abbrev pub own_run : ℕ → ℕ → Db → WorkflowRun → Bool
own_run id user_id d r =
    r.id == id && any (λ w. w.id == r.workflow_id && w.user_id == user_id) d.workflows

-- where: { workflowRunId: { in: runIds } }
abbrev pub in_runs : List ℕ → ActionRun → Bool
in_runs run_ids r = any (λ id. id == r.workflow_run_id) run_ids

-- where: { id, workflowRun: { workflow: { userId } } }
abbrev pub own_action_run : ℕ → ℕ → Db → ActionRun → Bool
own_action_run id user_id d r =
    r.id == id && any (λ run. own_run r.workflow_run_id user_id d run) d.workflow_runs

-- The ids of the runs of a workflow.
abbrev pub run_ids_of : ℕ → Db → List ℕ
run_ids_of workflow_id d = map (λ r. r.id) (select (run_of workflow_id none) d.workflow_runs)

-- A value of a query string: a text, or, where the key stands more than once, the texts.
pub data QueryValue : Type 0 where
  text : String → QueryValue
  texts : List String → QueryValue

-- The value in JavaScript; arrays are kept whole.
abbrev pub raw_value : QueryValue → Value
raw_value (QueryValue.text s) = Value.str s
raw_value (QueryValue.texts l) = Value.other

-- The query of `getAllWorkflowRunsSchema`: `Number` of the text of the page, where it is a whole
-- number, the value of the limit, and the status.
pub record RunsQuery : Type 0 where
  pub page : Option Parsed
  pub limit : Option QueryValue
  pub status : Option RunStatus

-- z.coerce.number().int().default(1), where 0 stands for any number below 1
abbrev pub page_number : Option Parsed → Option ℕ
page_number none = some 1
page_number (some Parsed.nan) = none
page_number (some Parsed.negative) = some 0
page_number (some (Parsed.natural n)) = some n

-- z.number().int().min(2).max(100).default(10), which coerces nothing
abbrev pub limit_number : Option Value → Option ℕ
limit_number none = some 10
limit_number (some (Value.num n)) = if leb 2 n && leb n 100 then some n else none
limit_number (some v) = none

module _ (prisma : Prisma) (order : Order) where
  unfoldable pub get_all_workflow_runs :
      ℕ → ℕ → ℕ → ℕ → Option RunStatus → M (List WorkflowRun × Pagination)
  get_all_workflow_runs user_id workflow_id limit page status = do
    found ←
        query prisma
          (λ d. prisma.find_first Workflow (owns_workflow workflow_id user_id) d.workflows)
    or_throw found not_found
    answer ← list_page prisma order (λ d. d.workflow_runs) (run_of workflow_id status) limit page
    throw_if (length answer.0 == 0) not_found
    pure answer

  unfoldable pub get_one_workflow_run_by_id : ℕ → ℕ → M WorkflowRun
  get_one_workflow_run_by_id id user_id = do
    found ← query prisma (λ d. prisma.find_first WorkflowRun (own_run id user_id d) d.workflow_runs)
    or_throw found not_found

  unfoldable pub get_all_action_runs : ℕ → ℕ → ℕ → ℕ → M (List ActionRun × Pagination)
  get_all_action_runs user_id workflow_id limit page = do
    found ← query prisma {A = Option Workflow × List ℕ} (λ d. (
      prisma.find_first Workflow (owns_workflow workflow_id user_id) d.workflows,
      run_ids_of workflow_id d,
    ))
    or_throw found.0 not_found
    throw_if (length found.1 == 0) not_found
    list_page prisma order (λ d. d.action_runs) (in_runs found.1) limit page

  unfoldable pub get_one_action_run_by_id : ℕ → ℕ → M ActionRun
  get_one_action_run_by_id id user_id = do
    found ←
        query prisma (λ d. prisma.find_first ActionRun (own_action_run id user_id d) d.action_runs)
    or_throw found not_found

  -- The routes.
  unfoldable pub get_all_workflow_runs_route :
      Option ℕ → RunsQuery → ℕ → ℕ → M (List WorkflowRun × Pagination)
  get_all_workflow_runs_route max_limit q workflow_id user_id = do
    page ← or_throw (page_number q.page) bad_request
    limit ←
        or_throw (limit_number (elim q.limit [ none ↦ none | some v ↦ some (raw_value v) ]))
          bad_request
    as_http (do
      throw_if (leb (max_limit_of max_limit) limit) bad_request
      get_all_workflow_runs user_id workflow_id limit page q.status)

  unfoldable pub get_one_workflow_run_by_id_route : ℕ → ℕ → M WorkflowRun
  get_one_workflow_run_by_id_route id user_id = as_http (get_one_workflow_run_by_id id user_id)

  unfoldable pub get_all_action_runs_route :
      Option ℕ → Parsed → Parsed → ℕ → ℕ → M (List ActionRun × Pagination)
  get_all_action_runs_route max_limit page limit workflow_id user_id =
      paged max_limit page limit (get_all_action_runs user_id workflow_id)

  unfoldable pub get_one_action_run_by_id_route : ℕ → ℕ → M ActionRun
  get_one_action_run_by_id_route id user_id = as_http (get_one_action_run_by_id id user_id)
