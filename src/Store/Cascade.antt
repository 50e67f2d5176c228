-- ===== src/Store/Cascade.antt =====
-- The relations of prisma/schema.prisma with `onDelete: Cascade`: rows that go with their owner.
use shob_app.Prelude.{Bool, any, ◌==◌, ◌&&◌}
use shob_app.Store.Rows.{Db, Workflow, Action, WorkflowRun, GithubRepo, GithubConnection}
use shob_app.Store.Table.{delete_many}

-- An action goes with its `ActionRun`s.
abbrev pub delete_actions : (Action → Bool) → Db → Db
delete_actions p d = record d {
  actions = delete_many p d.actions;
  action_runs = delete_many (λ r. any (λ a. p a && a.id == r.action_id) d.actions) d.action_runs;
}

-- A workflow run goes with its `ActionRun`s.
abbrev pub delete_workflow_runs : (WorkflowRun → Bool) → Db → Db
delete_workflow_runs p d = record d {
  workflow_runs = delete_many p d.workflow_runs;
  action_runs =
      delete_many (λ r. any (λ w. p w && w.id == r.workflow_run_id) d.workflow_runs) d.action_runs;
}

-- A workflow goes with its actions and its runs.
abbrev pub delete_workflows : (Workflow → Bool) → Db → Db
delete_workflows p d =
    let ws = d.workflows in
    let d1 = delete_actions (λ a. any (λ w. p w && w.id == a.workflow_id) ws) d in
    let d2 = delete_workflow_runs (λ r. any (λ w. p w && w.id == r.workflow_id) ws) d1 in
    record d2 { workflows = delete_many p ws }

-- A repository goes with its workflows, and a GitHub connection with its repositories.
abbrev pub delete_repos : (GithubRepo → Bool) → Db → Db
delete_repos p d =
    let rs = d.repos in
    let d1 = delete_workflows (λ w. any (λ r. p r && r.id == w.repo) rs) d in
    record d1 { repos = delete_many p rs }

abbrev pub delete_connections : (GithubConnection → Bool) → Db → Db
delete_connections p d =
    let cs = d.connections in
    let d1 = delete_repos (λ r. any (λ c. p c && c.id == r.connection_id) cs) d in
    record d1 { connections = delete_many p cs }
