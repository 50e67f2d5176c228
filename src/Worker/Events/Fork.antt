-- ===== src/Worker/Events/Fork.antt =====
-- worker/github/core/event/Fork/fork-event.ts
pub mod Quiet
use shob_app.Prelude.{ℕ, String, Bool, true, false, Option, some, none, if◌then◌else◌, ◌==◌}
use shob_app.Platform.{EventType, ActionTypes}
use shob_app.Store.Rows.{Json}
use shob_app.Store.Effects.{M, Prisma, Exception, Answer, pure, try_catch, or_throw, ◌>>=◌, ◌>>◌}
use shob_app.Action.Zod.{Js}
use shob_app.Action.Schema.{ActionDto}
use shob_app.Worker.Types.{MessageResult, ActionResult, Payload, Sender}
use shob_app.Worker.Network.{Network}
use shob_app.Worker.Viewer.{collect_viewer_info}
use shob_app.Worker.Base.{ActionFilter, filter_of, EventClass, Begun, start, handle}
use shob_app.Worker.Base.Blocks.{
  asks, has_text, collect_block, send_email_block, send_email_to_me_block,
  send_email_to_trigger_block, webhook_payload_block, webhook_viewer_block,
}

module _ (js : Js) (net : Network) where
  -- The branches on `action.type`.
  run : ActionTypes → ActionDto → Payload → M (Answer Json) → M ActionResult
  run ActionTypes.collect_viewer_data a payload get_viewer = collect_block js net get_viewer
  run ActionTypes.send_email a payload get_viewer =
      send_email_block js net (asks "do_you_want_push_info" a) a get_viewer
  run ActionTypes.send_email_to_me a payload get_viewer =
      send_email_to_me_block js net (asks "do_you_want_push_info" a) a get_viewer
  run ActionTypes.send_email_to_who_send_the_trigger a payload get_viewer =
      send_email_to_trigger_block js net a payload
  run ActionTypes.webhook a payload get_viewer = webhook_payload_block js net a payload get_viewer
  run ActionTypes.send_telegram a payload get_viewer = pure (ActionResult.success none)
  run _ a payload get_viewer = pure (ActionResult.success none)

  unfoldable pub execute_single_action : ActionDto → Payload → M (Answer Json) → M ActionResult
  unfolding run
  execute_single_action a payload get_viewer =
      try_catch (run a.kind a payload get_viewer) (λ e. pure (ActionResult.failure (some true)))

  -- What the loader of `createViewerDataLoader` loads.
  unfoldable pub load_viewer : Payload → M (Answer Json)
  load_viewer payload = do
    sender ← or_throw payload.sender Exception.other
    collect_viewer_info net sender.url none

  abbrev pub event_class : EventClass
  event_class = record {
    event_type = EventType.fork;
    requeue = true;
    execute_single_action = execute_single_action;
    load_viewer = load_viewer;
  }

  module _ (prisma : Prisma) where
    unfoldable pub handle_event : Payload → M MessageResult
    handle_event payload =
        handle prisma js event_class payload
          (start prisma js event_class payload payload.installation (ActionFilter.is "created"))
