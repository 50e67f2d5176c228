-- ===== src/Worker/Events/Installation/Effects.antt =====
-- What a message about an installation does to the tables, on every branch.
use shob_app.Prelude.{
  suc, ◌≡◌, refl, Bool, true, false, none, map, arith, ◌==◌, any, In, inl, inr, ◌⊎◌, str_eq,
  Option-cases,
}
use shob_app.Store.Rows.{Db, GithubConnection}
use shob_app.Store.Table.{insert}
use shob_app.Store.Cascade.{delete_connections, delete_repos}
use shob_app.Store.Effects.{Prisma, World, Result, ok, throw}
use shob_app.Worker.Types.{MessageResult}
use shob_app.Worker.Events.Installation.{
  InstallationPayload, add_repos, names_installation, create_connection, delete_connection, created,
  deleted, handle_event,
}

module _ (prisma : Prisma) (p : InstallationPayload) where
  -- The connection of an installation that has just been made; nobody has claimed it.
  abbrev connection : Db → GithubConnection
  connection d = record {
    id = prisma.cuid (map (λ c. c.id) d.connections);
    user_id = none;
    installation_id = p.installation;
    account_id = p.account;
  }

  abbrev has_installation : GithubConnection → Bool
  has_installation c = c.installation_id == p.installation

  abbrev Connected : Db → World → Type 0
  Connected d w =
      (any has_installation d.connections ≡ false)
      × (w.db ≡ record d {
        connections = insert (connection d) d.connections;
        repos = add_repos prisma.cuid (connection d).id p.repositories d.repos;
      })

  abbrev Created : Db → Result (Unit {0}) × World → Type 0
  Created d (ok u, w) = Connected d w
  Created d (throw e, w) = w.db ≡ d

  created-Created : (w : World) → Created w.db (created prisma p w)
  unfolding created create_connection
  created-Created w = ground arith

  abbrev Disconnected : Db → World → Type 0
  Disconnected d w =
      (c : GithubConnection) × In c d.connections
      × (names_installation p c ≡ true)
      × (w.db
          ≡ delete_repos (λ r. r.connection_id == c.id) (delete_connections (λ x. x.id == c.id) d))

  abbrev Deleted : Db → Result (Unit {0}) × World → Type 0
  Deleted d (ok u, w) = Disconnected d w
  Deleted d (throw e, w) = w.db ≡ d

  deleted-Deleted : (w : World) → Deleted w.db (deleted prisma p w)
  unfolding deleted delete_connection
  deleted-Deleted w =
      elim (Option-cases
        (prisma.find_first GithubConnection (names_installation p) w.db.connections)) [
          | inl missing ↦ ground arith
          | inr (c, found) ↦
              let (listed, named) =
                prisma.find_first_some GithubConnection (names_installation p) w.db.connections c
                  found in
              let gone : Disconnected w.db (record w {
                db =
                    delete_repos (λ r. r.connection_id == c.id)
                      (delete_connections (λ x. x.id == c.id) w.db);
                calls = suc (suc w.calls);
              }) =
                (c, listed, named, refl) in
              ground (arith, gone)
        ]

  -- What the handler does: with a success, the connection that is made or removed with its
  -- repositories, or nothing for another action; otherwise nothing, also when a later write throws.
  abbrev pub Installed : Db → Result MessageResult × World → Type 0
  Installed d (ok MessageResult.success, w) =
      ((str_eq p.action "created" ≡ true) × Connected d w)
      ⊎ ((str_eq p.action "deleted" ≡ true) × Disconnected d w)
      ⊎ ((str_eq p.action "created" ≡ false) × (str_eq p.action "deleted" ≡ false) × (w.db ≡ d))
  Installed d (ok (MessageResult.failure all_up_to requeue), w) = (w.db ≡ d) × (all_up_to ≡ false)
  Installed d (throw e, w) = ⊥

  -- The handler of an installation always answers. With a success, for the action created the
  -- installation had no connection, and one without a user is added with the repositories that are
  -- not yet there; for deleted a connection of this installation and account is gone with its
  -- repositories; for another action no table has changed. With a failure no table has changed,
  -- whichever database call threw.
  pub handle_event-Installed : (w : World) → Installed w.db (handle_event prisma p w)
  unfolding handle_event
  handle_event-Installed w = ground (arith, created-Created w, deleted-Deleted w)
