-- ===== src/Worker/Main/Runs.antt =====
-- The events that run a workflow: what a message of the queue leaves in the tables.
use shob_app.Prelude.{ℕ, String, refl, Option, some, none, inl, Bool, true, false, if◌then◌else◌}
use shob_app.Store.Effects.{Prisma, World, pure}
use shob_app.Action.Zod.{Js}
use shob_app.Worker.Types.{Payload, MessageResult}
use shob_app.Worker.Network.{Network}
use shob_app.Worker.Base.{ActionFilter, filter_of, EventClass, Begun, handle, start}
use shob_app.Worker.Base.Journal.{IsFaultless, IsQuiet}
use shob_app.Worker.Base.Journal.Runs.{Handled, handle-Handled}
use shob_app.Worker.Main.{Delivery, handlers, dispatch}
use shob_app.Worker.Events.Star
use shob_app.Worker.Events.Star.Quiet as StarQuiet
use shob_app.Worker.Events.Issues
use shob_app.Worker.Events.Issues.Quiet as IssuesQuiet
use shob_app.Worker.Events.Fork
use shob_app.Worker.Events.Fork.Quiet as ForkQuiet
use shob_app.Worker.Events.CommitComment
use shob_app.Worker.Events.CommitComment.Quiet as CommitCommentQuiet
use shob_app.Worker.Events.IssueComment
use shob_app.Worker.Events.IssueComment.Quiet as IssueCommentQuiet
use shob_app.Worker.Events.Watch
use shob_app.Worker.Events.Watch.Quiet as WatchQuiet
use shob_app.Worker.Events.Create
use shob_app.Worker.Events.Create.Quiet as CreateQuiet
use shob_app.Worker.Events.Delete
use shob_app.Worker.Events.Delete.Quiet as DeleteQuiet
use shob_app.Worker.Events.WorkflowJob
use shob_app.Worker.Events.WorkflowJob.Quiet as WorkflowJobQuiet
use shob_app.Worker.Events.WorkflowRun
use shob_app.Worker.Events.WorkflowRun.Quiet as WorkflowRunQuiet

-- The events of `dispatch` whose handler begins with the search for a workflow.
pub data Subject : Type 0 where
  star issues fork commit_comment issue_comment watch create delete workflow_job workflow_run :
      Subject

abbrev pub name : Subject → String
name Subject.star = "star"
name Subject.issues = "issues"
name Subject.fork = "fork"
name Subject.commit_comment = "commit_comment"
name Subject.issue_comment = "issue_comment"
name Subject.watch = "watch"
name Subject.create = "create"
name Subject.delete = "delete"
name Subject.workflow_job = "workflow_job"
name Subject.workflow_run = "workflow_run"

abbrev pub class_of : Js → Network → Subject → EventClass
class_of js net Subject.star = Star.event_class js net
class_of js net Subject.issues = Issues.event_class js net
class_of js net Subject.fork = Fork.event_class js net
class_of js net Subject.commit_comment = CommitComment.event_class js net
class_of js net Subject.issue_comment = IssueComment.event_class js net
class_of js net Subject.watch = Watch.event_class js net
class_of js net Subject.create = Create.event_class js net
class_of js net Subject.delete = Delete.event_class js net
class_of js net Subject.workflow_job = WorkflowJob.event_class js net
class_of js net Subject.workflow_run = WorkflowRun.event_class js net

-- The `action` that a workflow must have.
abbrev pub filter : Subject → Payload → ActionFilter
filter Subject.star payload = filter_of payload.action
filter Subject.issues payload = filter_of payload.action
filter Subject.fork payload = ActionFilter.is "created"
filter Subject.commit_comment payload = filter_of payload.action
filter Subject.issue_comment payload = filter_of payload.action
filter Subject.watch payload = filter_of payload.action
filter Subject.create payload = ActionFilter.is "created"
filter Subject.delete payload = ActionFilter.is "deleted"
filter Subject.workflow_job payload = filter_of payload.action
filter Subject.workflow_run payload = filter_of payload.action

class_of-IsQuiet : (js : Js) (net : Network) (s : Subject) → IsQuiet (class_of js net s)
class_of-IsQuiet js net Subject.star =
    (StarQuiet.execute_single_action-Quiet js net, StarQuiet.load_viewer-Quiet js net)
class_of-IsQuiet js net Subject.issues =
    (IssuesQuiet.execute_single_action-Quiet js net, IssuesQuiet.load_viewer-Quiet js net)
class_of-IsQuiet js net Subject.fork =
    (ForkQuiet.execute_single_action-Quiet js net, ForkQuiet.load_viewer-Quiet js net)
class_of-IsQuiet js net Subject.commit_comment = (
  CommitCommentQuiet.execute_single_action-Quiet js net,
  CommitCommentQuiet.load_viewer-Quiet js net,
)
class_of-IsQuiet js net Subject.issue_comment = (
  IssueCommentQuiet.execute_single_action-Quiet js net,
  IssueCommentQuiet.load_viewer-Quiet js net,
)
class_of-IsQuiet js net Subject.watch =
    (WatchQuiet.execute_single_action-Quiet js net, WatchQuiet.load_viewer-Quiet js net)
class_of-IsQuiet js net Subject.create =
    (CreateQuiet.execute_single_action-Quiet js net, CreateQuiet.load_viewer-Quiet js net)
class_of-IsQuiet js net Subject.delete =
    (DeleteQuiet.execute_single_action-Quiet js net, DeleteQuiet.load_viewer-Quiet js net)
class_of-IsQuiet js net Subject.workflow_job =
    (WorkflowJobQuiet.execute_single_action-Quiet js net, WorkflowJobQuiet.load_viewer-Quiet js net)
class_of-IsQuiet js net Subject.workflow_run =
    (WorkflowRunQuiet.execute_single_action-Quiet js net, WorkflowRunQuiet.load_viewer-Quiet js net)

module _ (prisma : Prisma) (js : Js) (faultless : IsFaultless prisma) (cls : EventClass)
    (quiet : IsQuiet cls) (payload : Payload) where
  guarded-Handled :
      (b : Bool) (installation : Option ℕ) (action : ActionFilter) (w : World)
      → Handled prisma js cls payload installation action w.db (
          (if b
              then handle prisma js cls payload (start prisma js cls payload installation action)
              else pure MessageResult.success)
            w)
  guarded-Handled true installation action w =
      handle-Handled prisma js faultless cls quiet payload installation action w
  guarded-Handled false installation action w = inl (refl, refl)

  optional-Handled :
      (installation : Option ℕ) (action : ActionFilter) (w : World)
      → Handled prisma js cls payload installation action w.db (
          handle prisma js cls payload
            (elim installation [
              | none ↦ pure (Begun.finished MessageResult.success)
              | some id ↦ start prisma js cls payload (some id) action
            ])
            w)
  unfolding handle
  optional-Handled none action w = inl (refl, refl)
  optional-Handled (some id) action w =
      handle-Handled prisma js faultless cls quiet payload (some id) action w

pub dispatch-Handled :
    (prisma : Prisma) (js : Js) (net : Network) (s : Subject) (d : Delivery) (w : World)
    → IsFaultless prisma
    → Handled prisma js
        (class_of js net s)
        d.payload
        d.payload.installation
        (filter s d.payload)
        w.db
        (dispatch prisma js net (name s) d w)
unfolding dispatch handlers Star.handle_event Issues.handle_event Fork.handle_event
    CommitComment.handle_event IssueComment.handle_event Watch.handle_event Create.handle_event
    Delete.handle_event WorkflowJob.handle_event WorkflowRun.handle_event
dispatch-Handled prisma js net Subject.star d w faultless =
    handle-Handled prisma js faultless (class_of js net Subject.star)
      (class_of-IsQuiet js net Subject.star) d.payload d.payload.installation
      (filter Subject.star d.payload) w
dispatch-Handled prisma js net Subject.issues d w faultless =
    handle-Handled prisma js faultless (class_of js net Subject.issues)
      (class_of-IsQuiet js net Subject.issues) d.payload d.payload.installation
      (filter Subject.issues d.payload) w
dispatch-Handled prisma js net Subject.fork d w faultless =
    handle-Handled prisma js faultless (class_of js net Subject.fork)
      (class_of-IsQuiet js net Subject.fork) d.payload d.payload.installation
      (filter Subject.fork d.payload) w
dispatch-Handled prisma js net Subject.commit_comment d w faultless =
    handle-Handled prisma js faultless (class_of js net Subject.commit_comment)
      (class_of-IsQuiet js net Subject.commit_comment) d.payload d.payload.installation
      (filter Subject.commit_comment d.payload) w
dispatch-Handled prisma js net Subject.issue_comment d w faultless =
    handle-Handled prisma js faultless (class_of js net Subject.issue_comment)
      (class_of-IsQuiet js net Subject.issue_comment) d.payload d.payload.installation
      (filter Subject.issue_comment d.payload) w
dispatch-Handled prisma js net Subject.watch d w faultless =
    handle-Handled prisma js faultless (class_of js net Subject.watch)
      (class_of-IsQuiet js net Subject.watch) d.payload d.payload.installation
      (filter Subject.watch d.payload) w
dispatch-Handled prisma js net Subject.create d w faultless =
    handle-Handled prisma js faultless (class_of js net Subject.create)
      (class_of-IsQuiet js net Subject.create) d.payload d.payload.installation
      (filter Subject.create d.payload) w
dispatch-Handled prisma js net Subject.delete d w faultless =
    handle-Handled prisma js faultless (class_of js net Subject.delete)
      (class_of-IsQuiet js net Subject.delete) d.payload d.payload.installation
      (filter Subject.delete d.payload) w
dispatch-Handled prisma js net Subject.workflow_job d w faultless =
    guarded-Handled prisma js faultless (class_of js net Subject.workflow_job)
      (class_of-IsQuiet js net Subject.workflow_job) d.payload
      (WorkflowJob.has_installation d.payload) d.payload.installation
      (filter Subject.workflow_job d.payload) w
dispatch-Handled prisma js net Subject.workflow_run d w faultless =
    optional-Handled prisma js faultless (class_of js net Subject.workflow_run)
      (class_of-IsQuiet js net Subject.workflow_run) d.payload d.payload.installation
      (filter Subject.workflow_run d.payload) w
