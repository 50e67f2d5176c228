-- ===== src/Worker/Events.antt =====
-- worker/github/core/event: the handlers of the events.
pub mod CommitComment
pub mod Create
pub mod Delete
pub mod Fork
pub mod IssueComment
pub mod Installation
pub mod Issues
pub mod Label
pub mod PullRequest
pub mod Push
pub mod PullRequestReview
pub mod Repository
pub mod Star
pub mod Watch
pub mod WorkflowJob
pub mod WorkflowRun
