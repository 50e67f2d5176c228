-- ===== src/Worker/Events/WorkflowRun.antt =====
-- worker/github/core/event/Workflow_run/workflow_run-event.ts
pub mod Quiet
use shob_app.Prelude.{ℕ, String, Bool, true, false, Option, some, none, if◌then◌else◌, ◌==◌}
use shob_app.Platform.{EventType, ActionTypes}
use shob_app.Store.Rows.{Json}
use shob_app.Store.Effects.{M, Prisma, Exception, Answer, pure, try_catch, or_throw, ◌>>=◌, ◌>>◌}
use shob_app.Action.Zod.{Js}
use shob_app.Action.Schema.{ActionDto}
use shob_app.Worker.Types.{MessageResult, ActionResult, Payload, Sender}
use shob_app.Worker.Network.{Network}
use shob_app.Worker.Viewer.{collect_viewer_info}
use shob_app.Worker.Base.{ActionFilter, filter_of, EventClass, Begun, start, handle}
use shob_app.Worker.Base.Blocks.{
  asks, has_text, collect_block, send_email_block, send_email_to_me_block,
  send_email_to_trigger_block, webhook_payload_block, webhook_viewer_block,
}

module _ (js : Js) (net : Network) where
  -- The sender's page is asked for before the address is collected.
  trigger_checked : ActionDto → Payload → M ActionResult
  trigger_checked a payload = do
    sender ← or_throw payload.sender Exception.other
    if has_text sender.html_url
        then send_email_to_trigger_block js net a payload
        else pure (ActionResult.failure (some false))

  -- The branches on `action.type`.
  run : ActionTypes → ActionDto → Payload → M (Answer Json) → M ActionResult
  unfolding trigger_checked
  run ActionTypes.collect_viewer_data a payload get_viewer = collect_block js net get_viewer
  run ActionTypes.send_email a payload get_viewer =
      send_email_block js net (asks "do_you_want_viewer_info" a) a get_viewer
  run ActionTypes.send_email_to_me a payload get_viewer =
      send_email_to_me_block js net (asks "do_you_want_viewer_info" a) a get_viewer
  run ActionTypes.send_email_to_who_send_the_trigger a payload get_viewer =
      trigger_checked a payload
  run ActionTypes.webhook a payload get_viewer = webhook_viewer_block js net a get_viewer
  run ActionTypes.send_telegram a payload get_viewer = pure (ActionResult.failure (some false))
  run _ a payload get_viewer = pure (ActionResult.failure (some false))

  unfoldable pub execute_single_action : ActionDto → Payload → M (Answer Json) → M ActionResult
  unfolding run
  execute_single_action a payload get_viewer =
      try_catch (run a.kind a payload get_viewer) (λ e. pure (ActionResult.failure (some true)))

  -- What the loader of `createViewerDataLoader` loads.
  unfoldable pub load_viewer : Payload → M (Answer Json)
  load_viewer payload = do
    sender ← or_throw payload.sender Exception.other
    if has_text sender.url
        then collect_viewer_info net sender.url sender.organizations_url
        else pure Answer.failure

  abbrev pub event_class : EventClass
  event_class = record {
    event_type = EventType.workflow_run;
    requeue = true;
    execute_single_action = execute_single_action;
    load_viewer = load_viewer;
  }

  module _ (prisma : Prisma) where
    unfoldable pub handle_event : Payload → M MessageResult
    handle_event payload = handle prisma js event_class payload (elim payload.installation [
      | none ↦ pure (Begun.finished MessageResult.success)
      | some id ↦ start prisma js event_class payload (some id) (filter_of payload.action)
    ])
