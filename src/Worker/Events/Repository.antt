-- ===== src/Worker/Events/Repository.antt =====
-- worker/github/core/event/Repository/repository-event.ts
pub mod Quiet
use shob_app.Prelude.{
  ℕ, String, Bool, true, false, Option, some, none, List, [], ◌∷◌, map, if◌then◌else◌, ◌==◌, str_eq,
  any, ◌||◌,
}
use shob_app.Platform.{EventType, ActionTypes}
use shob_app.Store.Rows.{Json, Db, GithubRepo, GithubConnection}
use shob_app.Store.Table.{insert, update_many}
use shob_app.Store.Cascade.{delete_repos}
use shob_app.Store.Effects.{
  M, Prisma, Exception, Answer, ok, pure, query, modify, try_catch, or_throw, ◌>>=◌, ◌>>◌,
}
use shob_app.Action.Zod.{Js}
use shob_app.Action.Schema.{ActionDto}
use shob_app.Worker.Types as Types
use shob_app.Worker.Types.{MessageResult, ActionResult, Payload, Sender}
use shob_app.Worker.Network.{Network}
use shob_app.Worker.Viewer.{collect_viewer_info}
use shob_app.Worker.Base.{filter_of, EventClass, Begun, start, handle}
use shob_app.Worker.Base.Blocks.{send_email_block}

-- The actions after which the stored fields are written again.
abbrev pub refreshing : List String
refreshing =
    "created" ∷ "edited" ∷ "renamed" ∷ "publicized" ∷ "privatized" ∷ "archived" ∷ "transferred"
    ∷ "unarchived" ∷ []

abbrev same_repo : ℕ → GithubRepo → Bool
same_repo repo_id r = r.repo_id == repo_id

module _ (js : Js) (net : Network) where
  -- The branches on `action.type`.
  run : ActionTypes → ActionDto → Payload → M (Answer Json) → M ActionResult
  run ActionTypes.send_email a payload get_viewer = send_email_block js net false a get_viewer
  run _ a payload get_viewer = pure (ActionResult.success none)

  unfoldable pub execute_single_action : ActionDto → Payload → M (Answer Json) → M ActionResult
  unfolding run
  execute_single_action a payload get_viewer =
      try_catch (run a.kind a payload get_viewer) (λ e. pure (ActionResult.failure (some true)))

  -- What the loader of `createViewerDataLoader` loads.
  unfoldable pub load_viewer : Payload → M (Answer Json)
  load_viewer payload = do
    sender ← or_throw payload.sender Exception.other
    collect_viewer_info net sender.url sender.organizations_url

  abbrev pub event_class : EventClass
  event_class = record {
    event_type = EventType.repository;
    requeue = true;
    execute_single_action = execute_single_action;
    load_viewer = load_viewer;
  }

  module _ (prisma : Prisma) where
    -- `upsertRepo`
    unfoldable pub upsert_repo : ℕ → Types.Repository → M (Unit {0})
    upsert_repo connection_id repository = modify prisma (λ d.
        let row : GithubRepo = record {
          id = prisma.cuid (map (λ r. r.id) d.repos);
          connection_id = connection_id;
          repo_id = repository.id;
          name = repository.name;
          full_name = repository.full_name;
          is_private = repository.is_private;
        } in
        record d {
          repos =
              if any (same_repo repository.id) d.repos
              then update_many (same_repo repository.id) (λ r. record row { id = r.id }) d.repos
              else insert row d.repos;
        })

    -- The `switch` on the event's action.
    unfoldable pub sync_repo : ℕ → Option String → Types.Repository → M (Unit {0})
    unfolding upsert_repo
    sync_repo connection_id none repository = pure tt
    sync_repo connection_id (some action) repository =
        if any (λ a. str_eq a action) refreshing
        then upsert_repo connection_id repository
        else if str_eq action "deleted"
        then modify prisma (delete_repos (same_repo repository.id))
        else pure tt

    -- The `try` block up to the new run.
    unfoldable pub first : Payload → M Begun
    unfolding sync_repo
    first payload = do
      installation ← or_throw payload.installation Exception.other
      connection ← query prisma (λ d.
          prisma.find_first GithubConnection (λ c. c.installation_id == installation) d.connections)
      elim connection [
        | none ↦ pure (Begun.finished MessageResult.success)
        | some c ↦ (do
          repository ← or_throw payload.repository Exception.other
          sync_repo c.id payload.action repository
          start prisma js event_class payload (some installation) (filter_of payload.action))
      ]

    unfoldable pub handle_event : Payload → M MessageResult
    handle_event payload = handle prisma js event_class payload (first payload)
