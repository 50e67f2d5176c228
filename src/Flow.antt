-- ===== src/Flow.antt =====
-- workflow.service.ts and the rule of create-workflow.dto.ts for the action of an event. The listing
-- with pages and the routes are in Endpoints.
pub mod Laws
pub mod Endpoints
pub mod Listing
use shob_app.Prelude.{
  ℕ, String, Bool, true, false, ◌&&◌, not, Option, some, none, List, [], ◌∷◌, map, if◌then◌else◌,
  ◌==◌, any, length, str_eq,
}
use shob_app.Platform.{EventType}
use shob_app.Store.Rows.{Db, Workflow, Json}
use shob_app.Store.Table.{count, insert, update_many}
use shob_app.Store.Cascade.{delete_workflows}
use shob_app.Store.Effects.{
  M, Prisma, Exception, Result, ok, throw, not_found, pure, raise, query, modify, call, transaction,
  try_catch, throw_if, or_throw, ◌>>=◌, ◌>>◌,
}
use shob_app.Action.Service.{owns_workflow}

-- `githubWorkflowActionRules`
unfoldable pub github_workflow_action_rules : EventType → List String
github_workflow_action_rules EventType.installation =
    "created" ∷ "deleted" ∷ "new_permissions_accepted" ∷ "suspend" ∷ "unsuspend" ∷ []
github_workflow_action_rules EventType.star = "created" ∷ "deleted" ∷ []
github_workflow_action_rules EventType.watch = "started" ∷ []
github_workflow_action_rules EventType.label = "created" ∷ "deleted" ∷ "edited" ∷ []
github_workflow_action_rules EventType.issues =
    "assigned" ∷ "closed" ∷ "deleted" ∷ "demilestoned" ∷ "edited" ∷ "labeled" ∷ "locked"
    ∷ "milestoned" ∷ "opened" ∷ "pinned" ∷ "reopened" ∷ "transferred" ∷ "typed" ∷ "unassigned"
    ∷ "unlabeled" ∷ "unlocked" ∷ "unpinned" ∷ "untyped" ∷ []
github_workflow_action_rules EventType.issue_comment = "created" ∷ "deleted" ∷ "edited" ∷ []
github_workflow_action_rules EventType.push = []
github_workflow_action_rules EventType.pull_request =
    "assigned" ∷ "auto_merge_disabled" ∷ "auto_merge_enabled" ∷ "closed" ∷ "converted_to_draft"
    ∷ "demilestoned" ∷ "dequeued" ∷ "edited" ∷ "enqueued" ∷ "labeled" ∷ "locked" ∷ "milestoned"
    ∷ "opened" ∷ "ready_for_review" ∷ "reopened" ∷ "review_request_removed" ∷ "review_requested"
    ∷ "synchronize" ∷ "unassigned" ∷ "unlabeled" ∷ "unlocked" ∷ []
github_workflow_action_rules EventType.repository =
    "archived" ∷ "created" ∷ "deleted" ∷ "edited" ∷ "privatized" ∷ "publicized" ∷ "renamed"
    ∷ "transferred" ∷ "unarchived" ∷ []
github_workflow_action_rules EventType.commit_comment = "created" ∷ []
github_workflow_action_rules EventType.fork = []
github_workflow_action_rules EventType.pull_request_review =
    "dismissed" ∷ "edited" ∷ "submitted" ∷ []
github_workflow_action_rules EventType.create = []
github_workflow_action_rules EventType.delete = []
github_workflow_action_rules EventType.workflow_job =
    "completed" ∷ "in_progress" ∷ "queued" ∷ "waiting" ∷ []
github_workflow_action_rules EventType.workflow_run = "completed" ∷ "in_progress" ∷ "requested" ∷ []

-- The `superRefine` of `createWorkflowSchema`, on the trimmed action.
unfoldable pub is_action_allowed : EventType → String → Bool
unfolding github_workflow_action_rules
is_action_allowed event action =
    if str_eq action ""
    then false
    else any (λ a. str_eq a action) (github_workflow_action_rules event)

-- What a request to create a workflow gives, after its schema.
pub record WorkflowDto : Type 0 where
  pub name : String
  pub repo : ℕ
  pub event_type : EventType
  pub action : String
  pub config : Option Json

-- The fields of an update; `none` leaves a column as it is.
pub record WorkflowPatch : Type 0 where
  pub name : Option String
  pub enabled : Option Bool
  pub repo : Option ℕ
  pub event_type : Option EventType
  pub config : Option Json

abbrev or_old {ℓ} : {A : Type ℓ} → Option A → A → A
or_old none old = old
or_old (some a) old = a

abbrev pub patched : WorkflowPatch → Workflow → Workflow
patched p w = record w {
  name = or_old p.name w.name;
  enabled = or_old p.enabled w.enabled;
  repo = or_old p.repo w.repo;
  event_type = or_old p.event_type w.event_type;
  config = elim p.config [ none ↦ w.config | some c ↦ some c ];
}

-- A reference to a repository that is not there is refused with P2003.
abbrev pub has_repo : ℕ → Db → Bool
has_repo repo d = any (λ r. r.id == repo) d.repos

-- where: { userId, id: { in: ids } }
abbrev pub listed : ℕ → List ℕ → Workflow → Bool
listed user_id ids w = w.user_id == user_id && any (λ i. i == w.id) ids

abbrev pub no_repo : Exception → Exception
no_repo (Exception.known_request code) =
    if code == 2003 then not_found else Exception.known_request code
no_repo (Exception.http status) = Exception.http status
no_repo Exception.other = Exception.other

module _ (prisma : Prisma) where
  unfoldable pub create_workflow : ℕ → WorkflowDto → M Workflow
  create_workflow user_id data_in =
      try_catch
        (call prisma (λ d.
          let row : Workflow = record {
            id = prisma.cuid (map (λ w. w.id) d.workflows);
            user_id = user_id;
            name = data_in.name;
            enabled = true;
            repo = data_in.repo;
            event_type = data_in.event_type;
            action = some data_in.action;
            config = data_in.config;
          } in
          if has_repo data_in.repo d
          then (ok row, record d { workflows = insert row d.workflows })
          else (throw (Exception.known_request 2003), d)))
        (λ e. raise (no_repo e))

  unfoldable pub get_one_workflow_by_id : ℕ → ℕ → M Workflow
  get_one_workflow_by_id id user_id = do
    workflow ← query prisma (λ d. prisma.find_first Workflow (owns_workflow id user_id) d.workflows)
    or_throw workflow not_found

  unfoldable pub update_workflow : ℕ → ℕ → WorkflowPatch → M (Unit {0})
  unfolding get_one_workflow_by_id
  update_workflow id user_id patch = do
    get_one_workflow_by_id id user_id
    call prisma (λ d.
        if elim patch.repo [ none ↦ true | some repo ↦ has_repo repo d ]
        then (
          ok tt,
          record d { workflows = update_many (λ w. w.id == id) (patched patch) d.workflows },
        )
        else (throw (Exception.known_request 2003), d))

  unfoldable pub delete_one_workflow_by_id : ℕ → ℕ → M Workflow
  unfolding get_one_workflow_by_id
  delete_one_workflow_by_id id user_id = do
    workflow ← get_one_workflow_by_id id user_id
    modify prisma (delete_workflows (λ w. w.id == id))
    pure workflow

  unfoldable pub delete_many_workflow : ℕ → List ℕ → M (ℕ × List ℕ)
  delete_many_workflow user_id ids = transaction (do
    matched ← query prisma (λ d. count (listed user_id ids) d.workflows)
    throw_if (not (matched == length ids)) not_found
    deleted ← call prisma (λ d.
        (ok (count (listed user_id ids) d.workflows), delete_workflows (listed user_id ids) d))
    pure (deleted, ids))
