-- ===== src/Worker/Main.antt =====
-- worker/github/main.ts and worker/github/rabbitmq-consumer.ts
pub mod Runs
pub mod Settling
pub mod Allowed
use shob_app.Prelude.{ℕ, String, Bool, true, false, Option, some, none, List, [], ◌∷◌, switch}
use shob_app.Store.Effects.{M, Prisma, Exception, pure, raise, try_catch, or_throw, ◌>>=◌, ◌>>◌}
use shob_app.Action.Zod.{Js}
use shob_app.Worker.Types.{MessageResult, Payload}
use shob_app.Worker.Network.{Network}
use shob_app.Worker.Events.Installation
use shob_app.Worker.Events.Repository
use shob_app.Worker.Events.Star
use shob_app.Worker.Events.Issues
use shob_app.Worker.Events.Fork
use shob_app.Worker.Events.CommitComment
use shob_app.Worker.Events.IssueComment
use shob_app.Worker.Events.Watch
use shob_app.Worker.Events.Create
use shob_app.Worker.Events.Delete
use shob_app.Worker.Events.WorkflowJob
use shob_app.Worker.Events.WorkflowRun

-- What stands in a message of the queue: the name of the event, and its data as the handlers read
-- them (`none` where the installation handler would read a field of undefined).
pub record Delivery : Type 0 where
  pub event : String
  pub payload : Payload
  pub installation : Option Installation.InstallationPayload

-- What the consumer does with a message: `nack allUpTo requeue`.
pub data Settlement : Type 0 where
  ack : Settlement
  nack : Bool → Bool → Settlement

-- The content of a message: no JSON, a falsy JSON value, or a delivery.
pub data Content : Type 0 where
  invalid falsy : Content
  delivery : Delivery → Content

module _ (prisma : Prisma) (js : Js) (net : Network) where
  -- `installation_event.Installation_event(payload)`
  install : Option Installation.InstallationPayload → M MessageResult
  install none = pure (MessageResult.failure false true)
  install (some p) = Installation.handle_event prisma p

  -- The cases of the `switch` on the event's name.
  unfoldable pub handlers : Delivery → List (String × M MessageResult)
  unfolding install
  handlers d =
      ("installation", install d.installation)
      ∷ ("repository", Repository.handle_event js net prisma d.payload)
      ∷ ("star", Star.handle_event js net prisma d.payload)
      ∷ ("issues", Issues.handle_event js net prisma d.payload)
      ∷ ("fork", Fork.handle_event js net prisma d.payload)
      ∷ ("commit_comment", CommitComment.handle_event js net prisma d.payload)
      ∷ ("issue_comment", IssueComment.handle_event js net prisma d.payload)
      ∷ ("watch", Watch.handle_event js net prisma d.payload)
      ∷ ("create", Create.handle_event js net prisma d.payload)
      ∷ ("delete", Delete.handle_event js net prisma d.payload)
      ∷ ("workflow_job", WorkflowJob.handle_event js net prisma d.payload)
      ∷ ("workflow_run", WorkflowRun.handle_event js net prisma d.payload)
      ∷ []

  unfoldable pub dispatch : String → Delivery → M MessageResult
  dispatch event d = switch event (handlers d) (pure MessageResult.success)

  unfoldable pub main : Delivery → M MessageResult
  unfolding dispatch
  main d = try_catch (dispatch d.event d) (λ e. pure (MessageResult.failure false true))

  -- `githubWebhookConsumer`'s callback; `none` is a cancelled consumer
  unfoldable pub consume : Option Content → M (Option Settlement)
  consume none = pure none
  consume (some Content.invalid) = pure (some (Settlement.nack false false))
  consume (some Content.falsy) = pure (some (Settlement.nack false false))
  consume (some (Content.delivery d)) =
      try_catch
        (do
          res ← main d
          elim res [
            | MessageResult.success ↦ pure (some Settlement.ack)
            | MessageResult.failure all_up_to requeue ↦
                pure (some (Settlement.nack all_up_to requeue))
          ])
        (λ e. pure (some (Settlement.nack false true)))
