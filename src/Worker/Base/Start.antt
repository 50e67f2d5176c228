-- ===== src/Worker/Base/Start.antt =====
-- What the search for a workflow has found when it ends with a run.
use shob_app.Prelude.{
  ℕ, ◌≡◌, refl, sym, subst, true, false, Bool, Option, some, none, [], ◌∷◌, map, arith, ◌==◌, In,
  inl, inr, Option-cases,
}
use shob_app.Platform.{RunStatus}
use shob_app.Store.Rows.{Json, Value, Db, Action, Workflow, GithubConnection, WorkflowRun}
use shob_app.Store.Table.{insert, select}
use shob_app.Store.Effects.{
  M, Prisma, World, Result, Exception, ok, throw, pure, query, or_throw, ◌>>=◌,
}
use shob_app.Action.Zod.{Js}
use shob_app.Action.Service.{in_workflow}
use shob_app.Worker.Types.{MessageResult, Payload, Repository}
use shob_app.Worker.Base.{
  EventClass, ActionFilter, Begun, triggers, find_workflow, start, create_workflow_run,
}

-- The workflow is one of the user who has the installation; it is enabled, and it is for this event,
-- this action of the event, and this repository.
abbrev pub IsTriggered : EventClass → ℕ → ℕ → ActionFilter → Db → Workflow → Type 0
IsTriggered cls installation repo action d f =
    (c : GithubConnection) × (user_id : ℕ) × In c d.connections
    × ((c.installation_id == installation) ≡ true)
    × (c.user_id ≡ some user_id)
    × In f d.workflows
    × (triggers cls.event_type user_id c.id repo action d.repos f ≡ true)

-- The row of a run that has begun.
abbrev pub new_run : Prisma → Js → EventClass → Payload → Db → ℕ → WorkflowRun
new_run prisma js cls payload d workflow_id = record {
  id = prisma.cuid (map (λ r. r.id) d.workflow_runs);
  workflow_id = workflow_id;
  event_type = cls.event_type;
  payload = some (Json.plain (Value.str (js.stringify payload.raw)));
  status = RunStatus.running;
  finished = false;
}

module _ (prisma : Prisma) (js : Js) (cls : EventClass) where
  -- A workflow that is found is triggered, and the search changes no table.
  abbrev Found : ℕ → ℕ → ActionFilter → Db → Result (Option Workflow) × World → Type 0
  Found installation repo action d (ok none, w) = w.db ≡ d
  Found installation repo action d (ok (some f), w) =
      (w.db ≡ d) × IsTriggered cls installation repo action d f
  Found installation repo action d (throw e, w) = w.db ≡ d

  find_workflow-Found :
      (installation repo : ℕ) (action : ActionFilter) (w : World)
      → Found installation repo action w.db
          (find_workflow prisma js cls.event_type installation repo action w)
  unfolding find_workflow
  find_workflow-Found installation repo action w =
      let has : GithubConnection → Bool = λ c. c.installation_id == installation in
      elim (Option-cases (prisma.find_first GithubConnection has w.db.connections)) [
        | inl missing ↦ ground arith
        | inr (c, found) ↦ elim (Option-cases c.user_id) [
          | inl missing ↦ ground arith
          | inr (u, owned) ↦
              elim (Option-cases (
                prisma.find_first Workflow (triggers cls.event_type u c.id repo action w.db.repos)
                  w.db.workflows)) [
                    | inl missing ↦ ground arith
                    | inr (f, listed) ↦
                        let (c_in, c_has) =
                          prisma.find_first_some GithubConnection has w.db.connections c found in
                        let (f_in, f_has) =
                          prisma.find_first_some Workflow
                            (triggers cls.event_type u c.id repo action w.db.repos) w.db.workflows f
                            listed in
                        let fact : IsTriggered cls installation repo action w.db f =
                          (c, u, c_in, c_has, owned, f_in, f_has) in
                        ground (arith, fact)
                  ]
        ]
      ]

  module _ (payload : Payload) where
    -- The answer is success where nothing is to be run, and a run that begins has a row of its own, and
    -- the actions of a workflow that is triggered, by their steps.
    abbrev pub Started : Option ℕ → ActionFilter → Db → Result Begun × World → Type 0
    Started installation action d (ok (Begun.finished m), w) =
        (w.db ≡ d) × (m ≡ MessageResult.success)
    Started installation action d (ok (Begun.begun run actions), w) =
        (f : Workflow) × (i : ℕ) × (repo : Repository) × (installation ≡ some i)
        × (payload.repository ≡ some repo)
        × IsTriggered cls i repo.id action d f
        × (actions ≡ prisma.order_by Action (λ a. a.step) (select (in_workflow f.id) d.actions))
        × (run ≡ prisma.cuid (map (λ r. r.id) d.workflow_runs))
        × (w.db ≡ record d {
          workflow_runs = insert (new_run prisma js cls payload d f.id) d.workflow_runs;
        })
    Started installation action d (throw e, w) = w.db ≡ d

    abbrev start_with : Option Workflow → M Begun
    start_with found = elim found [
      | none ↦ pure (Begun.finished MessageResult.success)
      | some workflow ↦ (do
        actions ←
            query prisma (λ d.
              prisma.order_by Action (λ a. a.step) (select (in_workflow workflow.id) d.actions))
        elim actions [
          | [] ↦ pure (Begun.finished MessageResult.success)
          | a ∷ more ↦ (do
            run ← create_workflow_run prisma js cls payload workflow.id
            pure (Begun.begun run (a ∷ more)))
        ])
    ]

    abbrev Begins : Db → Workflow → Result Begun × World → Type 0
    Begins d f (ok (Begun.finished m), w) = (w.db ≡ d) × (m ≡ MessageResult.success)
    Begins d f (ok (Begun.begun run actions), w) =
        (actions ≡ prisma.order_by Action (λ a. a.step) (select (in_workflow f.id) d.actions))
        × (run ≡ prisma.cuid (map (λ r. r.id) d.workflow_runs))
        × (w.db ≡ record d {
          workflow_runs = insert (new_run prisma js cls payload d f.id) d.workflow_runs;
        })
    Begins d f (throw e, w) = w.db ≡ d

    start_with-Begins : (f : Workflow) (w : World) → Begins w.db f (start_with (some f) w)
    unfolding create_workflow_run
    start_with-Begins f w = ground arith

    Found-Started :
        (i : ℕ) (repo : Repository) (action : ActionFilter) (d : Db)
        (x : Result (Option Workflow) × World)
        → payload.repository ≡ some repo
        → Found i repo.id action d x
        → Started (some i) action d (((λ u. x) >>= start_with) x.1)
    Found-Started i repo action d (throw e, v) there found = found
    Found-Started i repo action d (ok none, v) there found = (found, refl)
    Found-Started i repo action d (ok (some f), v) there (same, triggered) =
        go (start_with (some f) v)
          (subst (λ (e : Db). Begins e f (start_with (some f) v)) same (start_with-Begins f v))
      where
        go : (y : Result Begun × World) → Begins d f y → Started (some i) action d y
        go (throw e, u) h = h
        go (ok (Begun.finished m), u) h = h
        go (ok (Begun.begun run actions), u) (sorted, fresh, after) =
            (f, i, repo, refl, there, triggered, sorted, fresh, after)

    pub start-Started :
        (installation : Option ℕ) (action : ActionFilter) (w : World)
        → Started installation action w.db (start prisma js cls payload installation action w)
    unfolding start
    start-Started none action w = refl
    start-Started (some i) action w = elim (Option-cases payload.repository) [
      | inl missing ↦ ground (arith, missing)
      | inr (repo, there) ↦
          let h =
            Found-Started i repo action w.db
              (find_workflow prisma js cls.event_type i repo.id action w) there
              (find_workflow-Found i repo.id action w) in
          subst
            (λ (o : Option Repository). Started (some i) action w.db (
              (or_throw o Exception.other >>= λ r.
              find_workflow prisma js cls.event_type i r.id action >>= start_with)
                w))
            (sym there) h
    ]
