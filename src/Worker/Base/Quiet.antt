-- ===== src/Worker/Base/Quiet.antt =====
-- What the branches on an action's type do to the tables.
use shob_app.Prelude.{String, Bool, arith, Option-cases, inl, inr}
use shob_app.Store.Rows.{Json}
use shob_app.Store.Effects.{M, Answer, Body}
use shob_app.Action.Zod.{Js}
use shob_app.Action.Schema.{ActionDto}
use shob_app.Worker.Types.{Payload}
use shob_app.Worker.Network.{Network}
use shob_app.Worker.Viewer.Quiet.{Quiet, collect_viewer_email-Quiet}
use shob_app.Worker.Base.{get_viewer_data}
use shob_app.Worker.Base.Blocks.{
  send_queued, collect_block, send_email_block, send_email_to_me_block, send_email_to_trigger_block,
  post_block, webhook_payload_block, webhook_viewer_block,
}

pub get_viewer_data-Quiet : (load : M (Answer Json)) → Quiet load → Quiet (get_viewer_data load)
unfolding get_viewer_data
get_viewer_data-Quiet load h w = ground (arith, h w)

module _ (js : Js) (net : Network) where
  send_queued-Quiet : (email subject body : String) → Quiet (send_queued js net email subject body)
  unfolding send_queued
  send_queued-Quiet email subject body w = ground arith

  pub send_email_to_trigger_block-Quiet :
      (a : ActionDto) (p : Payload) → Quiet (send_email_to_trigger_block js net a p)
  unfolding send_email_to_trigger_block
  send_email_to_trigger_block-Quiet a p w = elim (Option-cases p.sender) [
    | inl missing ↦ ground arith
    | inr (s, there) ↦ ground (arith, collect_viewer_email-Quiet net s.html_url w)
  ]

  post_block-Quiet : (a : ActionDto) (b : Body) → Quiet (post_block js net a b)
  unfolding post_block
  post_block-Quiet a b w = ground arith

  module _ (g : M (Answer Json)) (h : Quiet g) where
    pub collect_block-Quiet : Quiet (collect_block js net g)
    unfolding collect_block
    collect_block-Quiet w = ground (arith, h w)

    pub send_email_block-Quiet :
        (include : Bool) (a : ActionDto) → Quiet (send_email_block js net include a g)
    unfolding send_email_block
    send_email_block-Quiet include a w = ground (arith, h w)

    pub send_email_to_me_block-Quiet :
        (include : Bool) (a : ActionDto) → Quiet (send_email_to_me_block js net include a g)
    unfolding send_email_to_me_block
    send_email_to_me_block-Quiet include a w = ground (arith, h w)

    pub webhook_payload_block-Quiet :
        (a : ActionDto) (p : Payload) → Quiet (webhook_payload_block js net a p g)
    unfolding webhook_payload_block
    webhook_payload_block-Quiet a p w = ground (arith, h w)

    pub webhook_viewer_block-Quiet : (a : ActionDto) → Quiet (webhook_viewer_block js net a g)
    unfolding webhook_viewer_block
    webhook_viewer_block-Quiet a w = ground (arith, h w)
