-- ===== src/Worker/Base/Journal/Runs.antt =====
-- A whole handler: what it leaves in WorkflowRun and ActionRun.
use shob_app.Prelude.{
  ℕ, ◌≡◌, refl, sym, ap, true, false, Option, some, List, [], ◌∷◌, ◌++◌, map, arith, ◌==◌, subst,
  inl, inr, ◌⊎◌, In,
}
use shob_app.Platform.{RunStatus}
use shob_app.Store.Rows.{Db, Action, ActionRun, Workflow, WorkflowRun}
use shob_app.Store.Table.{insert, select, update_many}
use shob_app.Store.Effects.{Prisma, World, Result, ok, throw, ◌>>=◌, pure, try_catch, modify, ◌>>◌}
use shob_app.Action.Zod.{Js}
use shob_app.Action.Service.{in_workflow}
use shob_app.Worker.Types.{MessageResult, Payload, Repository}
use shob_app.Worker.Base.{
  EventClass, ActionFilter, Begun, execute_actions, finish_run, status_of, start, complete, handle,
}
use shob_app.Worker.Base.Start.{IsTriggered, Started, start-Started, new_run}
use shob_app.Worker.Base.Journal.{IsFaultless, IsQuiet}
use shob_app.Worker.Base.Journal.Loop.{Logged, Adds, execute_actions-Adds}

update_many-last :
    (id : ℕ) (f : WorkflowRun → WorkflowRun) (row : WorkflowRun) (rows : List WorkflowRun)
    → row.id ≡ id
    → (In id (map (λ r. r.id) rows) → ⊥)
    → update_many (λ r. r.id == id) f (insert row rows) ≡ insert (f row) rows
update_many-last id f row [] e h = ground arith
update_many-last id f row (r ∷ rows) e h =
    ground (arith, update_many-last id f row rows e (λ i. h (inr i)), λ (q : r.id ≡ id). h (inl q))

-- What a handler answers after the loop.
abbrev pub answer_of : EventClass → Result MessageResult → MessageResult
answer_of cls (ok m) = m
answer_of cls (throw e) = MessageResult.failure false cls.requeue

abbrev pub closed : WorkflowRun → RunStatus → WorkflowRun
closed row status = record row { status = status; finished = true }

-- The run is closed with the status of the answer, and the actions' rows are logged.
abbrev pub Completed :
    EventClass → ℕ → List Action → Db → WorkflowRun → Result MessageResult × World → Type 0
Completed cls run actions d row (r, w) =
    (result : Result MessageResult) × (log : List ActionRun) × Logged run actions result log
    × (r ≡ ok (answer_of cls result))
    × (w.db ≡ record d {
      workflow_runs = insert (closed row (status_of (answer_of cls result))) d.workflow_runs;
      action_runs = d.action_runs ++ log;
    })

module _ (prisma : Prisma) (js : Js) (faultless : IsFaultless prisma) (cls : EventClass)
    (quiet : IsQuiet cls) (payload : Payload) where
  complete-Completed :
      (run : ℕ) (actions : List Action) (d : Db) (row : WorkflowRun) (w : World)
      → row.id ≡ run
      → (In run (map (λ r. r.id) d.workflow_runs) → ⊥)
      → w.db ≡ record d { workflow_runs = insert row d.workflow_runs }
      → Completed cls run actions d row (complete prisma js cls payload run actions w)
  unfolding complete
  complete-Completed run actions d row w is_id new same =
      go (execute_actions prisma js cls payload run actions w)
        (execute_actions-Adds prisma js faultless cls quiet payload run actions w)
    where
      go :
          (x : Result MessageResult × World)
          → Adds run actions w.db x
          → Completed cls run actions d row (
              try_catch
                (λ u.
                  (((λ v. x) >>= (λ result.
                      modify prisma (finish_run run (status_of result)) >> pure result))
                    u))
                (λ e.
                  modify prisma (finish_run run RunStatus.failed)
                  >> pure (MessageResult.failure false cls.requeue))
                w)
      go (ok m, v) (log, after, logged) = (
        ok m,
        log,
        logged,
        ground (arith, faultless v.calls),
        ground (
          arith,
          faultless v.calls,
          after,
          same,
          update_many-last run (λ r. record r { status = status_of m; finished = true }) row
              d.workflow_runs is_id new,
        ),
      )
      go (throw e, v) (log, after, logged) = (
        throw e,
        log,
        logged,
        ground (arith, faultless v.calls),
        ground (
          arith,
          faultless v.calls,
          after,
          same,
          update_many-last run (λ r. record r { status = RunStatus.failed; finished = true }) row
              d.workflow_runs is_id new,
        ),
      )

-- Nothing is written, or one run is, which is closed: a workflow that is triggered has run, with its
-- actions sorted by step, and the answer is success exactly if the run has succeeded.
abbrev pub Handled :
    Prisma
    → Js
    → EventClass
    → Payload
    → Option ℕ
    → ActionFilter
    → Db
    → Result MessageResult × World
    → Type 0
Handled prisma js cls payload installation action d (r, w) =
    ((w.db ≡ d) × (r ≡ ok MessageResult.success))
    ⊎ ((w.db ≡ d) × (r ≡ ok (MessageResult.failure false cls.requeue)))
    ⊎ ((f : Workflow) × (i : ℕ) × (repo : Repository) × (installation ≡ some i)
        × (payload.repository ≡ some repo)
        × IsTriggered cls i repo.id action d f
        × Completed cls (new_run prisma js cls payload d f.id).id
            (prisma.order_by Action (λ a. a.step) (select (in_workflow f.id) d.actions)) d
            (new_run prisma js cls payload d f.id) (r, w))

module _ (prisma : Prisma) (js : Js) (faultless : IsFaultless prisma) (cls : EventClass)
    (quiet : IsQuiet cls) (payload : Payload) where
  pub handle-Handled :
      (installation : Option ℕ) (action : ActionFilter) (w : World)
      → Handled prisma js cls payload installation action w.db
          (handle prisma js cls payload (start prisma js cls payload installation action) w)
  unfolding handle
  handle-Handled installation action w =
      go (start prisma js cls payload installation action w)
        (start-Started prisma js cls payload installation action w)
    where
      go :
          (x : Result Begun × World)
          → Started prisma js cls payload installation action w.db x
          → Handled prisma js cls payload installation action w.db
              (handle prisma js cls payload (λ u. x) w)
      go (throw e, v) h = inr (inl (h, refl))
      go (ok (Begun.finished m), v) (same, is_success) = inl (same, ap (λ n. ok n) is_success)
      go (ok (Begun.begun run actions), v)
            (f, i, repo, of_installation, of_repo, triggered, sorted, fresh, after) =
          inr (
            inr (
              f,
              i,
              repo,
              of_installation,
              of_repo,
              triggered,
              subst
                  (λ (acts : List Action).
                    Completed cls (new_run prisma js cls payload w.db f.id).id acts w.db
                      (new_run prisma js cls payload w.db f.id)
                      (complete prisma js cls payload run actions v))
                  sorted
                  (subst
                    (λ (n : ℕ).
                      Completed cls n actions w.db (new_run prisma js cls payload w.db f.id)
                        (complete prisma js cls payload run actions v))
                    fresh
                    (complete-Completed prisma js faultless cls quiet payload run actions w.db
                      (new_run prisma js cls payload w.db f.id) v (sym fresh)
                      (subst (λ n. In n (map (λ r. r.id) w.db.workflow_runs) → ⊥) (sym fresh)
                        (prisma.cuid_new (map (λ r. r.id) w.db.workflow_runs)))
                      after)),
            ))
