-- ===== src/Worker/Base/Journal.antt =====
-- The rows of ActionRun that one run of a workflow leaves.
pub mod Loop
pub mod Runs
use shob_app.Prelude.{
  ℕ, suc, ◌≡◌, refl, sym, ap, Bool, true, false, Option, some, none, List, [], ◌∷◌, ◌++◌, map,
  arith, ◌==◌, In, inl, inr, Option-cases, if◌then◌else◌, subst, ◌∙◌, ==_self, ==_iff,
}
use shob_app.Platform.{RunStatus}
use shob_app.Store.Rows.{Json, Value, Db, Action, ActionRun}
use shob_app.Store.Table.{insert, update_many}
use shob_app.Store.Effects.{M, Prisma, World, Result, ok, throw, Answer, ◌>>=◌}
use shob_app.Action.Zod.{Js}
use shob_app.Action.Schema.{ActionDto, RawAction, Platform, TypeText, create_action_schema}
use shob_app.Worker.Types.{MessageResult, ActionResult, Payload}
use shob_app.Worker.Viewer.Quiet.{Quiet}
use shob_app.Worker.Base.Quiet.{get_viewer_data-Quiet}
use shob_app.Worker.Base.{
  EventClass, get_viewer_data, perform, create_action_run, settle, execute_action, run_actions,
  execute_actions, finish_action_run, output_text, parse_action_config, mark_action_run_failed,
}

-- No call of the database throws.
abbrev pub IsFaultless : Prisma → Type 0
IsFaultless prisma = (n : ℕ) → prisma.fault n ≡ none

-- An event class whose actions and loader change no table.
abbrev pub IsQuiet : EventClass → Type 0
IsQuiet cls =
    ((a : ActionDto) (p : Payload) (g : M (Answer Json))
      → Quiet g
      → Quiet (cls.execute_single_action a p g))
    × ((p : Payload) → Quiet (cls.load_viewer p))

-- How the row of an action stands, by what the round has come to.
abbrev pub Stands : Result (Option MessageResult) → ActionRun → Type 0
Stands (ok none) r = (r.status ≡ RunStatus.succeeded) × (r.finished ≡ true)
Stands (ok (some MessageResult.success)) r = ⊥
Stands (ok (some (MessageResult.failure all_up_to requeue))) r =
    (r.status ≡ RunStatus.failed) × (r.finished ≡ true) × (all_up_to ≡ false)
Stands (throw e) r = (r.status ≡ RunStatus.running) × (r.finished ≡ false)

-- The one row that a round adds.
abbrev pub Round : ℕ → ℕ → Db → Result (Option MessageResult) × World → Type 0
Round run action d (r, w) =
    (row : ActionRun) × (w.db ≡ record d { action_runs = insert row d.action_runs })
    × (row.workflow_run_id ≡ run)
    × (row.action_id ≡ action)
    × Stands r row

update_many-last :
    (id : ℕ) (f : ActionRun → ActionRun) (row : ActionRun) (rows : List ActionRun)
    → row.id ≡ id
    → (In id (map (λ r. r.id) rows) → ⊥)
    → update_many (λ r. r.id == id) f (insert row rows) ≡ insert (f row) rows
update_many-last id f row [] e h = ground arith
update_many-last id f row (r ∷ rows) e h =
    ground (arith, update_many-last id f row rows e (λ i. h (inr i)), λ (q : r.id ≡ id). h (inl q))

module _ (prisma : Prisma) (js : Js) (faultless : IsFaultless prisma) where
  settle-Round :
      (run action id : ℕ) (d : Db) (row : ActionRun) (x : Result ActionResult × World)
      → row.workflow_run_id ≡ run
      → row.action_id ≡ action
      → row.id ≡ id
      → row.status ≡ RunStatus.running
      → row.finished ≡ false
      → (In id (map (λ r. r.id) d.action_runs) → ⊥)
      → x.1.db ≡ record d { action_runs = insert row d.action_runs }
      → Round run action d (((λ v. x) >>= settle prisma js id) x.1)
  unfolding settle mark_action_run_failed
  settle-Round run action id d row (throw e, w) of_run of_action is_id running unfinished new same =
      (row, same, of_run, of_action, (running, unfinished))
  settle-Round run action id d row (ok (ActionResult.failure requeue), w) of_run of_action is_id
        running unfinished new same =
      let f : ActionRun → ActionRun =
        λ r. record r { status = RunStatus.failed; output = r.output; finished = true } in
      (
        f row,
        ground (arith, faultless w.calls, same, update_many-last id f row d.action_runs is_id new),
        of_run,
        of_action,
        ground (arith, faultless w.calls),
      )
  settle-Round run action id d row (ok (ActionResult.success output), w) of_run of_action is_id
        running unfinished new same =
      let f : ActionRun → ActionRun = λ r. record r {
        status = RunStatus.succeeded;
        output = elim (output_text js output) [ none ↦ r.output | some o ↦ some o ];
        finished = true;
      } in
      (
        f row,
        ground (arith, faultless w.calls, same, update_many-last id f row d.action_runs is_id new),
        of_run,
        of_action,
        ground (arith, faultless w.calls),
      )

  module _ (cls : EventClass) (quiet : IsQuiet cls) (payload : Payload) where
    perform-Round :
        (run action id : ℕ) (d : Db) (row : ActionRun) (dto : Option ActionDto) (v : World)
        → row.workflow_run_id ≡ run
        → row.action_id ≡ action
        → row.id ≡ id
        → row.status ≡ RunStatus.running
        → row.finished ≡ false
        → (In id (map (λ r. r.id) d.action_runs) → ⊥)
        → v.db ≡ record d { action_runs = insert row d.action_runs }
        → Round run action d (perform prisma js cls payload id dto v)
    unfolding perform
    perform-Round run action id d row none v of_run of_action is_id running unfinished new same =
        settle-Round run action id d row (ok (ActionResult.failure none), v) of_run of_action is_id
          running unfinished new same
    perform-Round run action id d row (some dto) v of_run of_action is_id running unfinished new
          same =
        let load = get_viewer_data (cls.load_viewer payload) in
        settle-Round run action id d row (cls.execute_single_action dto payload load v) of_run
          of_action is_id running unfinished new
          (quiet.0 dto payload load
              (get_viewer_data-Quiet (cls.load_viewer payload) (quiet.1 payload)) v
            ∙ same)

    parse_action_config-same :
        (config : Option Json) (v : World) → (parse_action_config prisma js config v).1 ≡ v
    unfolding parse_action_config
    parse_action_config-same none v = refl
    parse_action_config-same (some (Json.plain (Value.str s))) v =
        ground (arith, Option-cases (js.json_parse s))
    parse_action_config-same (some (Json.plain _)) v = refl
    parse_action_config-same (some (Json.obj fields)) v = refl

    abbrev continue_with : ℕ → Action → Json → M (Option MessageResult)
    continue_with id a config = perform prisma js cls payload id (
        create_action_schema js cls.event_type record {
          platform = some Platform.github;
          kind = some (TypeText.known a.kind);
          step = some a.step;
          config = some config;
        })

    config-Round :
        (run id : ℕ) (a : Action) (d : Db) (row : ActionRun) (v : World)
        → row.workflow_run_id ≡ run
        → row.action_id ≡ a.id
        → row.id ≡ id
        → row.status ≡ RunStatus.running
        → row.finished ≡ false
        → (In id (map (λ r. r.id) d.action_runs) → ⊥)
        → v.db ≡ record d { action_runs = insert row d.action_runs }
        → Round run a.id d ((parse_action_config prisma js a.config >>= continue_with id a) v)
    config-Round run id a d row v of_run of_action is_id running unfinished new same =
        go (parse_action_config prisma js a.config v) (parse_action_config-same a.config v)
      where
        go :
            (x : Result Json × World)
            → x.1 ≡ v
            → Round run a.id d (((λ u. x) >>= continue_with id a) v)
        go (ok config, u) e =
            perform-Round run a.id id d row _ u of_run of_action is_id running unfinished new
              (ap (λ (z : World). z.db) e ∙ same)
        go (throw x, u) e =
            (row, ap (λ (z : World). z.db) e ∙ same, of_run, of_action, (running, unfinished))

    pub execute_action-Round :
        (run : ℕ) (a : Action) (w : World)
        → Round run a.id w.db (execute_action prisma js cls payload run a w)
    unfolding execute_action create_action_run
    execute_action-Round run a w =
        let id = prisma.cuid (map (λ r. r.id) w.db.action_runs) in
        let row : ActionRun = record {
          id = id;
          workflow_run_id = run;
          action_id = a.id;
          status = RunStatus.running;
          output = none;
          finished = false;
        } in
        let v : World = record w {
          db = record w.db { action_runs = insert row w.db.action_runs };
          calls = suc w.calls;
        } in
        let created : create_action_run prisma js run a.id w ≡ (ok id, v) =
          ground (arith, faultless w.calls) in
        subst
          (λ (x : Result ℕ × World).
            Round run a.id w.db (
              ((λ u. x) >>= (λ i. parse_action_config prisma js a.config >>= continue_with i a)) w))
          (sym created)
          (config-Round run id a w.db row v refl refl refl refl refl
            (prisma.cuid_new (map (λ r. r.id) w.db.action_runs)) refl)
