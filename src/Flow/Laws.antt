-- ===== src/Flow/Laws.antt =====
-- What the operations on workflows do to the tables, on every branch.
use shob_app.Prelude.{
  ℕ, ◌≡◌, ◌≢◌, ◌⊎◌, true, false, none, some, false, List, map, arith, ◌==◌, length, In, inl, inr,
  Option-cases,
}
use shob_app.Store.Rows.{Db, Workflow}
use shob_app.Store.Table.{count, insert, update_many}
use shob_app.Store.Cascade.{delete_workflows}
use shob_app.Store.Effects.{Prisma, World, Result, Exception, ok, throw, not_found}
use shob_app.Action.Service.{owns_workflow}
use shob_app.Flow.{
  WorkflowDto, WorkflowPatch, has_repo, listed, patched, create_workflow, get_one_workflow_by_id,
  update_workflow, delete_one_workflow_by_id, delete_many_workflow,
}

module _ (prisma : Prisma) where
  -- All of the ids are deleted, each of them a workflow of the user, or nothing is.
  abbrev pub DeletedAll : ℕ → List ℕ → Db → Result (ℕ × List ℕ) × World → Type 0
  DeletedAll user_id ids d (ok r, w) =
      (count (listed user_id ids) d.workflows ≡ length ids)
      × (r ≡ (length ids, ids))
      × (w.db ≡ delete_workflows (listed user_id ids) d)
  DeletedAll user_id ids d (throw e, w) = w.db ≡ d

  -- A bulk deletion that answers has found as many workflows of the user among the ids as there
  -- are ids, has deleted these workflows with their actions, runs and action runs, and answers
  -- with their number; one that throws has changed no table.
  pub delete_many_workflow-DeletedAll :
      (user_id : ℕ) (ids : List ℕ) (w : World)
      → DeletedAll user_id ids w.db (delete_many_workflow prisma user_id ids w)
  unfolding delete_many_workflow
  delete_many_workflow-DeletedAll user_id ids w = ground arith

  abbrev pub DeletedOne : ℕ → ℕ → Db → Result Workflow × World → Type 0
  DeletedOne id user_id d (ok f, w) =
      In f d.workflows
      × (owns_workflow id user_id f ≡ true)
      × (w.db ≡ delete_workflows (λ x. x.id == id) d)
  DeletedOne id user_id d (throw e, w) = w.db ≡ d

  -- A deletion of a workflow that answers gives a workflow of the user, and has deleted the rows
  -- with the id with their actions, runs and action runs; one that throws has changed no table.
  pub delete_one_workflow-DeletedOne :
      (id user_id : ℕ) (w : World)
      → DeletedOne id user_id w.db (delete_one_workflow_by_id prisma id user_id w)
  unfolding delete_one_workflow_by_id get_one_workflow_by_id
  delete_one_workflow-DeletedOne id user_id w =
      elim (Option-cases (prisma.find_first Workflow (owns_workflow id user_id) w.db.workflows)) [
        | inl missing ↦ ground arith
        | inr (f, found) ↦ ground (
          arith,
          prisma.find_first_some Workflow (owns_workflow id user_id) w.db.workflows f found,
        )
      ]

  -- One row with the fields of the request, or the exception and why it is thrown.
  abbrev pub CreatedFlow : ℕ → WorkflowDto → World → Result Workflow × World → Type 0
  CreatedFlow user_id data_in v (ok f, w) =
      (has_repo data_in.repo v.db ≡ true)
      × (f ≡ record {
        id = prisma.cuid (map (λ x. x.id) v.db.workflows);
        user_id = user_id;
        name = data_in.name;
        enabled = true;
        repo = data_in.repo;
        event_type = data_in.event_type;
        action = some data_in.action;
        config = data_in.config;
      })
      × (w.db ≡ record v.db { workflows = insert f v.db.workflows })
  CreatedFlow user_id data_in v (throw e, w) =
      (((prisma.fault v.calls ≡ none) × (has_repo data_in.repo v.db ≡ false) × (e ≡ not_found))
        ⊎ (((prisma.fault v.calls ≡ some (Exception.known_request 2003)) × (e ≡ not_found))
            ⊎ (prisma.fault v.calls ≡ some e)))
      × (e ≢ Exception.known_request 2003)
      × (w.db ≡ v.db)

  -- A creation of a workflow that answers has added one row, of the user, enabled, with a new id
  -- and the fields of the request, whose repository is there. One that throws has changed no table
  -- and throws 404 where the database call does not fail and the repository is missing, 404 where
  -- the call fails with P2003, and else what the call fails with; P2003 itself is never thrown.
  pub create_workflow-CreatedFlow :
      (user_id : ℕ) (data_in : WorkflowDto) (w : World)
      → CreatedFlow user_id data_in w (create_workflow prisma user_id data_in w)
  unfolding create_workflow
  create_workflow-CreatedFlow user_id data_in w = elim (Option-cases (prisma.fault w.calls)) [
    | inl up ↦ ground (arith, up)
    | inr (e, down) ↦ go e down
  ]
    where
      go :
          (e : Exception)
          → prisma.fault w.calls ≡ some e
          → CreatedFlow user_id data_in w (create_workflow prisma user_id data_in w)
      go (Exception.known_request code) down = ground (arith, down)
      go (Exception.http status) down = ground (arith, down)
      go Exception.other down = ground (arith, down)

  abbrev pub UpdatedFlow : ℕ → ℕ → WorkflowPatch → Db → Result (Unit {0}) × World → Type 0
  UpdatedFlow id user_id patch d (ok u, w) =
      ((f : Workflow) × In f d.workflows × (owns_workflow id user_id f ≡ true))
      × (w.db ≡ record d { workflows = update_many (λ x. x.id == id) (patched patch) d.workflows })
  UpdatedFlow id user_id patch d (throw e, w) = w.db ≡ d

  -- An update of a workflow that answers is of a workflow of the user, and has put the given
  -- fields into the rows with the id and changed nothing else; one that throws has changed no
  -- table.
  pub update_workflow-UpdatedFlow :
      (id user_id : ℕ) (patch : WorkflowPatch) (w : World)
      → UpdatedFlow id user_id patch w.db (update_workflow prisma id user_id patch w)
  unfolding update_workflow get_one_workflow_by_id
  update_workflow-UpdatedFlow id user_id patch w =
      elim (Option-cases (prisma.find_first Workflow (owns_workflow id user_id) w.db.workflows)) [
        | inl missing ↦ ground arith
        | inr (f, found) ↦
            let (listed, owned) =
              prisma.find_first_some Workflow (owns_workflow id user_id) w.db.workflows f found in
            let fact : (f : Workflow) × In f w.db.workflows × (owns_workflow id user_id f ≡ true) =
              (f, listed, owned) in
            ground (arith, fact)
      ]
