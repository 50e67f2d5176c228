-- ===== src/Worker/Base/Journal/Loop.antt =====
-- The loop of `executeActions`: the rows of ActionRun that it adds, against the actions of the run.
use shob_app.Prelude.{
  ℕ, Bool, ◌≡◌, refl, sym, ap, true, false, Option, some, none, List, [], ◌∷◌, ◌++◌, arith, subst,
  ◌∙◌,
}
use shob_app.Platform.{RunStatus}
use shob_app.Store.Rows.{Db, Action, ActionRun}
use shob_app.Store.Table.{insert}
use shob_app.Store.Effects.{M, Prisma, World, Result, Exception, ok, throw, ◌>>=◌, pure}
use shob_app.Action.Zod.{Js}
use shob_app.Worker.Types.{MessageResult, Payload}
use shob_app.Worker.Base.{EventClass, execute_action, run_actions, execute_actions}
use shob_app.Worker.Base.Journal.{IsFaultless, IsQuiet, Round, execute_action-Round}

-- A row of a run for an action, with a status, finished or not.
abbrev pub IsRow : ℕ → Action → RunStatus → Bool → ActionRun → Type 0
IsRow run a status finished row =
    (row.workflow_run_id ≡ run)
    × (row.action_id ≡ a.id)
    × (row.status ≡ status)
    × (row.finished ≡ finished)

-- The rows for the actions of a run, in their order: a succeeded one for every action that has
-- passed, up to the end, or to the action that has failed, or to the one that has thrown, whose row
-- is left running.
pub data Logged (run : ℕ) : List Action → Result MessageResult → List ActionRun → Type 0 where
  all_done : Logged run [] (ok MessageResult.success) []
  went_on :
      (a : Action) (actions : List Action) (result : Result MessageResult) (row : ActionRun)
      (log : List ActionRun)
      → IsRow run a RunStatus.succeeded true row
      → Logged run actions result log
      → Logged run (a ∷ actions) result (row ∷ log)
  failed :
      (a : Action) (actions : List Action) (requeue : Bool) (row : ActionRun)
      → IsRow run a RunStatus.failed true row
      → Logged run (a ∷ actions) (ok (MessageResult.failure false requeue)) (row ∷ [])
  broken_off :
      (a : Action) (actions : List Action) (e : Exception) (row : ActionRun)
      → IsRow run a RunStatus.running false row
      → Logged run (a ∷ actions) (throw e) (row ∷ [])

-- The rows that a step adds to ActionRun, and nothing else, are logged.
abbrev pub Adds : ℕ → List Action → Db → Result MessageResult × World → Type 0
Adds run actions d (r, w) =
    (log : List ActionRun) × (w.db ≡ record d { action_runs = d.action_runs ++ log })
    × Logged run actions r log

append_nil : {A : Type 0} (xs : List A) → xs ++ [] ≡ xs
append_nil [] = refl
append_nil (x ∷ xs) = ap (λ ys. x ∷ ys) (append_nil xs)

insert_append : {A : Type 0} (a : A) (xs ys : List A) → insert a xs ++ ys ≡ xs ++ (a ∷ ys)
insert_append a [] ys = refl
insert_append a (x ∷ xs) ys = ap (λ zs. x ∷ zs) (insert_append a xs ys)

module _ (prisma : Prisma) (js : Js) (faultless : IsFaultless prisma) (cls : EventClass)
    (quiet : IsQuiet cls) (payload : Payload) where
  abbrev rest : ℕ → List Action → Option MessageResult → M MessageResult
  rest run actions stop = elim stop [
    | some result ↦ pure result
    | none ↦ run_actions prisma js cls payload run actions
  ]

  run_actions-Adds :
      (run : ℕ) (actions : List Action) (w : World)
      → Adds run actions w.db (run_actions prisma js cls payload run actions w)
  unfolding run_actions
  run_actions-Adds run [] w = (
    [],
    ap (λ rows. record w.db { action_runs = rows }) (sym (append_nil w.db.action_runs)),
    Logged.all_done,
  )
  run_actions-Adds run (a ∷ actions) w =
      go (execute_action prisma js cls payload run a w)
        (execute_action-Round prisma js faultless cls quiet payload run a w)
        (λ v. run_actions-Adds run actions v)
    where
      go :
          (x : Result (Option MessageResult) × World)
          → Round run a.id w.db x
          → ((v : World) → Adds run actions v.db (run_actions prisma js cls payload run actions v))
          → Adds run (a ∷ actions) w.db (((λ u. x) >>= rest run actions) w)
      go (throw e, v) (row, same, of_run, of_action, stands) ih = (
        row ∷ [],
        same,
        Logged.broken_off a actions e row (of_run, of_action, stands.0, stands.1),
      )
      go (ok (some MessageResult.success), v) (row, same, of_run, of_action, stands) ih =
          elim stands [ ]
      go (ok (some (MessageResult.failure true requeue)), v) (row, same, of_run, of_action, stands)
            ih =
          absurd (ground (arith, stands))
      go (ok (some (MessageResult.failure false requeue)), v) (row, same, of_run, of_action, stands)
            ih =
          (
            row ∷ [],
            same,
            Logged.failed a actions requeue row (of_run, of_action, stands.0, stands.1),
          )
      go (ok none, v) (row, same, of_run, of_action, stands) ih =
          let (log, after, logged) = ih v in
          (
            row ∷ log,
            after
                ∙ subst
                    (λ (d : Db).
                      record d { action_runs = d.action_runs ++ log }
                      ≡ record w.db { action_runs = w.db.action_runs ++ (row ∷ log) })
                    (sym same)
                    (ap (λ rows. record w.db { action_runs = rows })
                      (insert_append row w.db.action_runs log)),
            Logged.went_on a actions _ row log (of_run, of_action, stands.0, stands.1) logged,
          )

  -- The rows are logged, where no call of the database throws.
  pub execute_actions-Adds :
      (run : ℕ) (actions : List Action) (w : World)
      → Adds run actions w.db (execute_actions prisma js cls payload run actions w)
  unfolding execute_actions
  execute_actions-Adds run actions w =
      run_actions-Adds run actions (record w { viewer_data = none })
