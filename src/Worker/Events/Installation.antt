-- ===== src/Worker/Events/Installation.antt =====
-- worker/github/core/event/Installation/installation-event.ts
pub mod Effects
use shob_app.Prelude.{
  ℕ, String, Bool, true, false, not, ◌&&◌, Option, some, none, List, [], ◌∷◌, map, if◌then◌else◌,
  ◌==◌, str_eq, any,
}
use shob_app.Store.Rows.{Db, GithubRepo, GithubConnection}
use shob_app.Store.Table.{insert}
use shob_app.Store.Cascade.{delete_connections, delete_repos}
use shob_app.Store.Effects.{
  M, Prisma, Exception, ok, throw, pure, call, modify, transaction, try_catch, ◌>>=◌, ◌>>◌,
}
use shob_app.Worker.Types.{MessageResult, Repository}

-- `payload.data`, as far as it is stored
pub record InstallationPayload : Type 0 where
  pub action : String
  pub installation : ℕ
  pub account : ℕ
  pub repositories : List Repository

-- `createMany({ skipDuplicates: true })`: a row whose `repoId` is taken is left out
abbrev pub add_repos : (List ℕ → ℕ) → ℕ → List Repository → List GithubRepo → List GithubRepo
add_repos cuid connection_id [] rows = rows
add_repos cuid connection_id (r ∷ rs) rows =
    let row : GithubRepo = record {
      id = cuid (map (λ x. x.id) rows);
      connection_id = connection_id;
      repo_id = r.id;
      name = r.name;
      full_name = r.full_name;
      is_private = r.is_private;
    } in
    add_repos cuid connection_id rs
      (if any (λ x. x.repo_id == r.id) rows then rows else insert row rows)

abbrev pub names_installation : InstallationPayload → GithubConnection → Bool
names_installation p c = c.installation_id == p.installation && c.account_id == p.account

module _ (prisma : Prisma) where
  -- `installationId` is unique: a second row is refused with P2002.
  create_connection : InstallationPayload → M ℕ
  create_connection p = call prisma (λ d.
      let id = prisma.cuid (map (λ c. c.id) d.connections) in
      let row : GithubConnection = record {
        id = id;
        user_id = none;
        installation_id = p.installation;
        account_id = p.account;
      } in
      if any (λ c. c.installation_id == p.installation) d.connections
      then (throw (Exception.known_request 2002), d)
      else (ok id, record d { connections = insert row d.connections }))

  -- `delete` of no row is refused with P2025.
  delete_connection : InstallationPayload → M ℕ
  delete_connection p = call prisma (λ d.
      elim (prisma.find_first GithubConnection (names_installation p) d.connections) [
        | none ↦ (throw (Exception.known_request 2025), d)
        | some c ↦ (ok c.id, delete_connections (λ x. x.id == c.id) d)
      ])

  -- `case "created"`
  unfoldable pub created : InstallationPayload → M (Unit {0})
  unfolding create_connection
  created p = transaction (do
    id ← create_connection p
    elim p.repositories [
      | [] ↦ pure tt
      | r ∷ rs ↦ modify prisma (λ d. record d { repos = add_repos prisma.cuid id (r ∷ rs) d.repos })
    ])

  -- `case "deleted"`
  unfoldable pub deleted : InstallationPayload → M (Unit {0})
  unfolding delete_connection
  deleted p =
      transaction
        (do id ← delete_connection p; modify prisma (delete_repos (λ r. r.connection_id == id)))

  abbrev pub failure_of : Exception → MessageResult
  failure_of (Exception.known_request code) =
      MessageResult.failure false (if code == 2025 then false else true)
  failure_of _ = MessageResult.failure false true

  unfoldable pub handle_event : InstallationPayload → M MessageResult
  unfolding created deleted
  handle_event p =
      try_catch
        (do
          if str_eq p.action "created"
              then created p
              else (if str_eq p.action "deleted" then deleted p else pure tt)
          pure MessageResult.success)
        (λ e. pure (failure_of e))
