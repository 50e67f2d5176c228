-- ===== src/Tests/Runs.antt =====
-- Messages of the queue, run.
use shob_app.Prelude.{◌≡◌, refl, [], ◌∷◌, some, true, arith}
use shob_app.Store.Effects.{World, Result, ok}
use shob_app.Flow.{is_action_allowed}
use shob_app.Worker.Types.{MessageResult}
use shob_app.Worker.Base.Journal.{IsFaultless}
use shob_app.Worker.Base.Journal.Runs.{Handled}
use shob_app.Worker.Events.Installation.{InstallationPayload, handle_event}
use shob_app.Worker.Events.Installation.Effects.{Installed, handle_event-Installed}
use shob_app.Worker.Main.{Delivery, Content, consume}
use shob_app.Worker.Main.Runs.{Subject, class_of, filter}
use shob_app.Worker.Main.Settling.{settlement, consume-Handled}
use shob_app.Worker.Main.Allowed.{consume_barred}
use shob_app.Tests.Client.{client}
use shob_app.Tests.Data.{js, net, world, starred}

client-IsFaultless : IsFaultless client
client-IsFaultless n = refl

consume-Handled_example :
    (r : Result MessageResult) × (v : World) × (consume client js net
        (some (Content.delivery starred))
        world
      ≡ (ok (some (settlement r)), v))
    × Handled client js
        (class_of js net Subject.star)
        starred.payload
        starred.payload.installation
        (filter Subject.star starred.payload)
        world.db
        (r, v)
consume-Handled_example =
    consume-Handled client js net Subject.star starred world client-IsFaultless refl

-- An installation on one repository.
abbrev installing : InstallationPayload
installing = record {
  action = "created";
  installation = 78;
  account = 6;
  repositories = record { id = 34; name = "lib"; full_name = "me/lib"; is_private = true } ∷ [];
}

handle_event-Installed_example :
    Installed client installing world.db (handle_event client installing world)
handle_event-Installed_example = handle_event-Installed client installing world

-- A fork of the repository.
abbrev forked : Delivery
forked = record starred { event = "fork" }

consume_barred_example :
    (consume client js net (some (Content.delivery forked)) world).1.db ≡ world.db
unfolding is_action_allowed
consume_barred_example =
    consume_barred client js net Subject.fork forked "created" world client-IsFaultless refl refl
      (ground arith) (ground arith)
