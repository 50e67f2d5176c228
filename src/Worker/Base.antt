-- ===== src/Worker/Base.antt =====
-- worker/github/core/event/base-event.ts: what the handlers of all events share.
pub mod Blocks
pub mod Quiet
pub mod Journal
pub mod Start
use Prim.Native.String.{◌++◌ as text_append}
use shob_app.Prelude.{
  ℕ, String, Bool, true, false, not, ◌&&◌, Option, some, none, List, [], ◌∷◌, map, if◌then◌else◌,
  ◌==◌, any, str_eq,
}
use shob_app.Platform.{EventType, event_eq, RunStatus}
use shob_app.Store.Rows.{
  Json, Value, Db, Action, Workflow, GithubConnection, GithubRepo, WorkflowRun, ActionRun,
}
use shob_app.Store.Table.{insert, select, update_many}
use shob_app.Store.Effects.{
  M, Prisma, World, Exception, Answer, ok, throw, pure, raise, query, modify, call, try_catch,
  or_throw, ◌>>=◌, ◌>>◌,
}
use shob_app.Action.Zod.{Js}
use shob_app.Action.Schema.{Platform, TypeText, RawAction, ActionDto, create_action_schema}
use shob_app.Action.Service.{in_workflow}
use shob_app.Worker.Types.{MessageResult, ActionResult, Payload, Repository}

-- The value given for `action` in a `where` clause; an undefined one filters nothing.
pub data ActionFilter : Type 0 where
  is : String → ActionFilter
  null unset : ActionFilter

abbrev pub filter_of : Option String → ActionFilter
filter_of none = ActionFilter.unset
filter_of (some s) = ActionFilter.is s

abbrev pub action_matches : ActionFilter → Option String → Bool
action_matches ActionFilter.unset a = true
action_matches ActionFilter.null none = true
action_matches ActionFilter.null (some a) = false
action_matches (ActionFilter.is s) none = false
action_matches (ActionFilter.is s) (some a) = str_eq a s

-- repo: { repoId, GithubConnectionsId }
abbrev pub is_repo : ℕ → ℕ → ℕ → GithubRepo → Bool
is_repo repo connection row r = r.id == row && r.repo_id == repo && r.connection_id == connection

-- The `where` clause of `findWorkflow`.
abbrev pub triggers : EventType → ℕ → ℕ → ℕ → ActionFilter → List GithubRepo → Workflow → Bool
triggers event user_id connection repo action repos w =
    w.user_id == user_id
    && w.enabled
    && any (is_repo repo connection w.repo) repos
    && event_eq w.event_type event
    && action_matches action w.action

-- The members that a subclass of `BaseEvent` gives: the event, whether its handler asks for the
-- message again after an exception, `executeSingleAction`, and what its viewer loader loads.
pub record EventClass : Type 0 where
  pub event_type : EventType
  pub requeue : Bool
  pub execute_single_action : ActionDto → Payload → M (Answer Json) → M ActionResult
  pub load_viewer : Payload → M (Answer Json)

-- What the first part of a handler has come to: an answer, or a run with its actions.
pub data Begun : Type 0 where
  finished : MessageResult → Begun
  begun : ℕ → List Action → Begun

-- `getViewerData`: the first answer is kept
unfoldable pub get_viewer_data : M (Answer Json) → M (Answer Json)
get_viewer_data load w = elim w.viewer_data [
  | some answer ↦ (ok answer, w)
  | none ↦ (do answer ← load; λ v. (ok answer, record v { viewer_data = some answer })) w
]

abbrev pub finish_run : ℕ → RunStatus → Db → Db
finish_run id status d = record d {
  workflow_runs =
      update_many (λ r. r.id == id) (λ r. record r { status = status; finished = true })
        d.workflow_runs;
}

-- The run's status by the result.
abbrev pub status_of : MessageResult → RunStatus
status_of MessageResult.success = RunStatus.succeeded
status_of (MessageResult.failure _ _) = RunStatus.failed

-- `output == null ? undefined : JSON.stringify(output)`
abbrev pub output_text : Js → Option Json → Option Json
output_text js none = none
output_text js (some (Json.plain Value.null)) = none
output_text js (some o) = some (Json.plain (Value.str (js.stringify o)))

module _ (prisma : Prisma) (js : Js) where
  unfoldable pub find_workflow : EventType → ℕ → ℕ → ActionFilter → M (Option Workflow)
  find_workflow event installation repo action = do
    github_user ← query prisma (λ d.
        prisma.find_first GithubConnection (λ c. c.installation_id == installation) d.connections)
    elim github_user [
      | none ↦ pure none
      | some c ↦ elim c.user_id [
        | none ↦ pure none
        | some user_id ↦ query prisma (λ d.
            prisma.find_first Workflow (triggers event user_id c.id repo action d.repos)
              d.workflows)
      ]
    ]

  unfoldable pub parse_action_config : Option Json → M Json
  parse_action_config none = pure (Json.plain Value.null)
  parse_action_config (some (Json.plain (Value.str s))) = or_throw (js.json_parse s) Exception.other
  parse_action_config (some config) = pure config

  abbrev pub finish_action_run : ℕ → RunStatus → Option Json → Db → Db
  finish_action_run id status output d = record d {
    action_runs =
        update_many (λ r. r.id == id)
          (λ r. record r {
            status = status;
            output = elim output [ none ↦ r.output | some o ↦ some o ];
            finished = true;
          })
          d.action_runs;
  }

  unfoldable pub mark_action_run_failed : ℕ → M (Unit {0})
  mark_action_run_failed id = modify prisma (finish_action_run id RunStatus.failed none)

  unfoldable pub create_action_run : ℕ → ℕ → M ℕ
  create_action_run workflow_run_id action_id = call prisma (λ d.
      let id = prisma.cuid (map (λ r. r.id) d.action_runs) in
      let row : ActionRun = record {
        id = id;
        workflow_run_id = workflow_run_id;
        action_id = action_id;
        status = RunStatus.running;
        output = none;
        finished = false;
      } in
      (ok id, record d { action_runs = insert row d.action_runs }))

  -- What the loop does with the result of an action: `none` goes on with the next one.
  unfoldable pub settle : ℕ → ActionResult → M (Option MessageResult)
  unfolding mark_action_run_failed
  settle run (ActionResult.failure requeue) = do
    mark_action_run_failed run
    pure (some (MessageResult.failure false (elim requeue [ none ↦ false | some b ↦ b ])))
  settle run (ActionResult.success output) = do
    modify prisma (finish_action_run run RunStatus.succeeded (output_text js output))
    pure none

  module _ (cls : EventClass) (payload : Payload) where
    -- The action, if its configuration has passed `safeParse`.
    unfoldable pub perform : ℕ → Option ActionDto → M (Option MessageResult)
    unfolding settle mark_action_run_failed
    perform run none = do
      mark_action_run_failed run
      pure (some (MessageResult.failure false false))
    perform run (some dto) =
        cls.execute_single_action dto payload (get_viewer_data (cls.load_viewer payload))
        >>= settle run

    -- One round of the loop of `executeActions`.
    unfoldable pub execute_action : ℕ → Action → M (Option MessageResult)
    unfolding create_action_run parse_action_config perform
    execute_action workflow_run_id action = do
      run ← create_action_run workflow_run_id action.id
      config ← parse_action_config action.config
      let raw : RawAction = record {
        platform = some Platform.github;
        kind = some (TypeText.known action.kind);
        step = some action.step;
        config = some config;
      }
      perform run (create_action_schema js cls.event_type raw)

    run_actions : ℕ → List Action → M MessageResult
    run_actions workflow_run_id [] = pure MessageResult.success
    run_actions workflow_run_id (action ∷ actions) = do
      stop ← execute_action workflow_run_id action
      elim stop [ some result ↦ pure result | none ↦ run_actions workflow_run_id actions ]

    -- A new loader, and then the loop.
    unfoldable pub execute_actions : ℕ → List Action → M MessageResult
    unfolding run_actions
    execute_actions workflow_run_id actions w =
        run_actions workflow_run_id actions (record w { viewer_data = none })

    unfoldable pub create_workflow_run : ℕ → M ℕ
    create_workflow_run workflow_id = call prisma (λ d.
        let id = prisma.cuid (map (λ r. r.id) d.workflow_runs) in
        let row : WorkflowRun = record {
          id = id;
          workflow_id = workflow_id;
          event_type = cls.event_type;
          payload = some (Json.plain (Value.str (js.stringify payload.raw)));
          status = RunStatus.running;
          finished = false;
        } in
        (ok id, record d { workflow_runs = insert row d.workflow_runs }))

    -- From the search for a workflow to the new run.
    unfoldable pub start : Option ℕ → ActionFilter → M Begun
    unfolding find_workflow create_workflow_run
    start installation action = do
      installation_id ← or_throw installation Exception.other
      repository ← or_throw payload.repository Exception.other
      found ← find_workflow cls.event_type installation_id repository.id action
      elim found [
        | none ↦ pure (Begun.finished MessageResult.success)
        | some workflow ↦ (do
          actions ← query prisma (λ d.
              prisma.order_by Action (λ a. a.step) (select (in_workflow workflow.id) d.actions))
          elim actions [
            | [] ↦ pure (Begun.finished MessageResult.success)
            | a ∷ more ↦ (do
              run ← create_workflow_run workflow.id
              pure (Begun.begun run (a ∷ more)))
          ])
      ]

    -- The rest of the `try` block, and the `catch` block for a run that exists.
    unfoldable pub complete : ℕ → List Action → M MessageResult
    unfolding execute_actions
    complete run actions =
        try_catch
          (do
            result ← execute_actions run actions
            modify prisma (finish_run run (status_of result))
            pure result)
          (λ e. do
            modify prisma (finish_run run RunStatus.failed)
            pure (MessageResult.failure false cls.requeue))

    -- A handler whose `try` block begins with `first`.
    unfoldable pub handle : M Begun → M MessageResult
    unfolding complete
    handle first = do
      reached ←
          try_catch first (λ e. pure (Begun.finished (MessageResult.failure false cls.requeue)))
      elim reached [
        | Begun.finished result ↦ pure result
        | Begun.begun run actions ↦ complete run actions
      ]
