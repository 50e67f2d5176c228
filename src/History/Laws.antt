-- ===== src/History/Laws.antt =====
-- Whose runs the history shows.
use shob_app.Prelude.{
  ℕ, suc, subst, fun_ext, ◌≡◌, ◌≢◌, ◌≤◌, refl, Bool, true, ◌&&◌, Option, some, none, List, [], ◌∷◌,
  arith, length, In, any, map, ◌==◌,
}
use shob_app.Platform.{RunStatus}
use shob_app.Store.Rows.{Db, Workflow, WorkflowRun, ActionRun}
use shob_app.Store.Table.{select}
use shob_app.Store.Effects.{
  M, Prisma, World, Result, ok, throw, bad_request, not_found, throw_if, or_throw, pure, ◌>>=◌,
  ◌>>◌,
}
use shob_app.Store.Effects.Cases.{query_then, or_throw_then, throw_if_then, known_then}
use shob_app.Action.Service.{owns_workflow}
use shob_app.Pages.{Order, Pagination, list_page}
use shob_app.Pages.Listed.{Listed, list_page-Listed}
use shob_app.History.{
  QueryValue, RunsQuery, run_of, in_runs, run_ids_of, get_all_workflow_runs, get_all_action_runs,
  get_all_workflow_runs_route,
}

-- The workflow with this id is the user's.
abbrev pub Owned : ℕ → ℕ → Db → Type 0
Owned workflow_id user_id d =
    (f : Workflow) × In f d.workflows × (owns_workflow workflow_id user_id f ≡ true)

-- A page of the runs of a workflow of the user, with the status if one is asked for.
abbrev pub ShownRuns :
    Order
    → ℕ
    → ℕ
    → ℕ
    → ℕ
    → Option RunStatus
    → Db
    → Result (List WorkflowRun × Pagination) × World
    → Type 0
ShownRuns order user_id workflow_id limit page status d (ok (rows, p), w) =
    Owned workflow_id user_id d
    × (rows ≢ [])
    × Listed order (run_of workflow_id status) d.workflow_runs limit page d (ok (rows, p), w)
ShownRuns order user_id workflow_id limit page status d (throw e, w) = w.db ≡ d

-- Whether a run with this id is one of the workflow.
abbrev pub is_run_of : ℕ → Db → ActionRun → Bool
is_run_of workflow_id d r =
    any (λ run. run_of workflow_id none run && run.id == r.workflow_run_id) d.workflow_runs

abbrev pub ShownActions :
    Order → ℕ → ℕ → ℕ → ℕ → Db → Result (List ActionRun × Pagination) × World → Type 0
ShownActions order user_id workflow_id limit page d (ok answer, w) =
    Owned workflow_id user_id d
    × Listed order (is_run_of workflow_id d) d.action_runs limit page d (ok answer, w)
ShownActions order user_id workflow_id limit page d (throw e, w) = w.db ≡ d

in_runs-select :
    (p : WorkflowRun → Bool) (r : ActionRun) (runs : List WorkflowRun)
    → in_runs (map (λ run. run.id) (select p runs)) r
      ≡ any (λ run. p run && run.id == r.workflow_run_id) runs
in_runs-select p r [] = refl
in_runs-select p r (run ∷ runs) = ground (arith, in_runs-select p r runs)

owned :
    (prisma : Prisma) (user_id workflow_id : ℕ) (d : Db) (f : Workflow)
    → prisma.find_first Workflow (owns_workflow workflow_id user_id) d.workflows ≡ some f
    → Owned workflow_id user_id d
owned prisma user_id workflow_id d f found =
    let (there, his) =
      prisma.find_first_some Workflow (owns_workflow workflow_id user_id) d.workflows f found in
    (f, there, his)

module _ (prisma : Prisma) (order : Order) where
  -- With a positive limit, a listing of workflow runs that answers is of a workflow of the user,
  -- is not empty, and shows a page of the runs of that workflow, of the asked status if there is
  -- one; no table is changed, also by one that throws.
  pub get_all_workflow_runs-ShownRuns :
      (user_id workflow_id limit page : ℕ) (status : Option RunStatus) (w : World)
      → 1 ≤ limit
      → ShownRuns order user_id workflow_id limit page status w.db
          (get_all_workflow_runs prisma order user_id workflow_id limit page status w)
  unfolding get_all_workflow_runs
  get_all_workflow_runs-ShownRuns user_id workflow_id limit page status w h =
      let P : Result (List WorkflowRun × Pagination) × World → Type 0 =
        ShownRuns order user_id workflow_id limit page status w.db in
      let v = record w { calls = suc w.calls } in
      let listing : M (List WorkflowRun × Pagination) =
        list_page prisma order (λ d. d.workflow_runs) (run_of workflow_id status) limit page in
      let rest : M (List WorkflowRun × Pagination) =
        listing >>= λ answer. throw_if (length answer.0 == 0) not_found >> pure answer in
      query_then P (λ found. or_throw found not_found >> rest) w prisma
        (λ d. prisma.find_first Workflow (owns_workflow workflow_id user_id) d.workflows)
        (λ e. refl)
        (or_throw_then P (λ f. rest) v
          (prisma.find_first Workflow (owns_workflow workflow_id user_id) w.db.workflows) not_found
          (λ missing. refl)
          (λ f found.
            known_then P listing
              (λ answer. throw_if (length answer.0 == 0) not_found >> pure answer) v
              (Listed order (run_of workflow_id status) w.db.workflow_runs limit page w.db)
              (list_page-Listed prisma order (λ d. d.workflow_runs) (run_of workflow_id status)
                limit page v h)
              (λ e u same. same)
              (λ answer u l. nonempty (owned prisma user_id workflow_id w.db f found) answer u l)))
    where
      nonempty :
          Owned workflow_id user_id w.db
          → (answer : List WorkflowRun × Pagination) (u : World)
          → Listed order
              (run_of workflow_id status)
              w.db.workflow_runs
              limit
              page
              w.db
              (ok answer, u)
          → ShownRuns order user_id workflow_id limit page status w.db
              ((throw_if (length answer.0 == 0) not_found >> pure answer) u)
      nonempty fact ([], p) u l = ground (arith, l)
      nonempty fact (r ∷ rows, p) u l =
          let distinct : r ∷ rows ≢ [] = λ e. absurd (ground (arith, e)) in
          let fact2 : ShownRuns order user_id workflow_id limit page status w.db
              (ok (r ∷ rows, p), u) =
            (fact, distinct, l) in
          ground (arith, fact2)

  -- With a positive limit, a listing of action runs that answers is of a workflow of the user and
  -- shows a page of the action runs whose run is one of that workflow, and no others; no table is
  -- changed, also by one that throws.
  pub get_all_action_runs-ShownActions :
      (user_id workflow_id limit page : ℕ) (w : World)
      → 1 ≤ limit
      → ShownActions order user_id workflow_id limit page w.db
          (get_all_action_runs prisma order user_id workflow_id limit page w)
  unfolding get_all_action_runs
  get_all_action_runs-ShownActions user_id workflow_id limit page w h =
      let P : Result (List ActionRun × Pagination) × World → Type 0 =
        ShownActions order user_id workflow_id limit page w.db in
      let v = record w { calls = suc w.calls } in
      let ids = run_ids_of workflow_id w.db in
      let listing : List ℕ → M (List ActionRun × Pagination) =
        λ run_ids. list_page prisma order (λ d. d.action_runs) (in_runs run_ids) limit page in
      let rest : List ℕ → M (List ActionRun × Pagination) =
        λ run_ids. throw_if (length run_ids == 0) not_found >> listing run_ids in
      query_then P (λ found. or_throw found.0 not_found >> rest found.1) w prisma
        (λ d. (
          prisma.find_first Workflow (owns_workflow workflow_id user_id) d.workflows,
          run_ids_of workflow_id d,
        ))
        (λ e. refl)
        (or_throw_then P (λ f. rest ids) v
          (prisma.find_first Workflow (owns_workflow workflow_id user_id) w.db.workflows) not_found
          (λ missing. refl)
          (λ f found.
            throw_if_then P (λ u. listing ids) v (length ids == 0) not_found (λ empty. refl)
              (λ runs.
                weaken (owned prisma user_id workflow_id w.db f found) (listing ids v) (
                  list_page-Listed prisma order (λ d. d.action_runs) (in_runs ids) limit page v
                    h))))
    where
      weaken :
          Owned workflow_id user_id w.db
          → (x : Result (List ActionRun × Pagination) × World)
          → Listed order (in_runs (run_ids_of workflow_id w.db)) w.db.action_runs limit page w.db x
          → ShownActions order user_id workflow_id limit page w.db x
      weaken fact (ok answer, u) l = (
        fact,
        subst (λ s. Listed order s w.db.action_runs limit page w.db (ok answer, u))
            (fun_ext (λ r. in_runs-select (run_of workflow_id none) r w.db.workflow_runs)) l,
      )
      weaken fact (throw e, u) l = l

  -- A request for workflow runs whose query names a limit, once or more often, is refused as a bad
  -- request, whatever the texts of the limit are, and no database call is made: a value of a query
  -- string is a text or a list of texts, of which the schema for a number accepts none.
  pub limit_refused :
      (max_limit : Option ℕ) (q : RunsQuery) (v : QueryValue) (workflow_id user_id : ℕ) (w : World)
      → q.limit ≡ some v
      → get_all_workflow_runs_route prisma order max_limit q workflow_id user_id w
        ≡ (throw bad_request, w)
  unfolding get_all_workflow_runs_route
  limit_refused max_limit q (QueryValue.text s) workflow_id user_id w h = ground (arith, h)
  limit_refused max_limit q (QueryValue.texts l) workflow_id user_id w h = ground (arith, h)
