-- ===== src/Worker/Events/Star/Quiet.antt =====
-- What the actions and the loader of this event do to the tables.
use shob_app.Prelude.{true, some, refl, arith, Option-cases, inl, inr}
use shob_app.Platform.{ActionTypes}
use shob_app.Store.Rows.{Json}
use shob_app.Store.Effects.{M, Answer}
use shob_app.Action.Zod.{Js}
use shob_app.Action.Schema.{ActionDto}
use shob_app.Worker.Types.{ActionResult, Payload}
use shob_app.Worker.Network.{Network}
use shob_app.Worker.Viewer.Quiet.{Quiet, Returns, try_catch-Returns, collect_viewer_info-Quiet}
use shob_app.Worker.Base.Quiet.{
  send_email_to_trigger_block-Quiet, collect_block-Quiet, send_email_block-Quiet,
  send_email_to_me_block-Quiet, webhook_viewer_block-Quiet,
}
use shob_app.Worker.Events.Star.{run, execute_single_action, load_viewer}

module _ (js : Js) (net : Network) where
  run-Quiet :
      (kind : ActionTypes) (a : ActionDto) (p : Payload) (g : M (Answer Json))
      → Quiet g
      → Quiet (run js net kind a p g)
  unfolding run
  run-Quiet ActionTypes.collect_viewer_data a p g h w = collect_block-Quiet js net g h w
  run-Quiet ActionTypes.send_email a p g h w = send_email_block-Quiet js net g h _ a w
  run-Quiet ActionTypes.send_email_to_me a p g h w = send_email_to_me_block-Quiet js net g h _ a w
  run-Quiet ActionTypes.send_email_to_who_send_the_trigger a p g h w =
      send_email_to_trigger_block-Quiet js net a p w
  run-Quiet ActionTypes.webhook a p g h w = webhook_viewer_block-Quiet js net g h a w
  run-Quiet ActionTypes.send_telegram a p g h w = refl
  run-Quiet _ a p g h w = refl

  pub execute_single_action-Quiet :
      (a : ActionDto) (p : Payload) (g : M (Answer Json))
      → Quiet g
      → Quiet (execute_single_action js net a p g)
  unfolding execute_single_action
  execute_single_action-Quiet a p g h w = ground (arith, run-Quiet a.kind a p g h w)

  pub execute_single_action-Returns :
      (a : ActionDto) (p : Payload) (g : M (Answer Json))
      → Returns (execute_single_action js net a p g)
  unfolding execute_single_action
  execute_single_action-Returns a p g =
      try_catch-Returns (run js net a.kind a p g) (ActionResult.failure (some true))

  pub load_viewer-Quiet : (p : Payload) → Quiet (load_viewer js net p)
  unfolding load_viewer
  load_viewer-Quiet p w = elim (Option-cases p.sender) [
    | inl missing ↦ ground arith
    | inr (s, there) ↦ ground (arith, collect_viewer_info-Quiet net s.url s.organizations_url w)
  ]
