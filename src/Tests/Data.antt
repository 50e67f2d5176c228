-- ===== src/Tests/Data.antt =====
-- A user on the free plan with one workflow on the star event, whose two actions are a webhook and
-- the viewer's data.
use shob_app.Prelude.{true, false, some, none, [], ◌∷◌}
use shob_app.Platform.{EventType, ActionTypes}
use shob_app.Store.Rows.{Json, Value, Db, Action}
use shob_app.Store.Effects.{World}
use shob_app.Action.Zod.{Js}
use shob_app.Action.Schema.{RawAction, TypeText, Platform}
use shob_app.Worker.Network.{Network}
use shob_app.Worker.Main.{Delivery}

-- Texts without blanks and capitals; every address is fine, and JSON is not decoded.
abbrev pub js : Js
js = record {
  trim = λ s. s;
  to_lower_case = λ s. s;
  text_length = λ s. 5;
  is_email = λ s. true;
  is_url = λ s. true;
  stringify = λ j. "json";
  json_parse = λ s. some (Json.obj (("url", Value.str "https://example.org/hook") ∷ []));
}

-- Every request is answered with an empty object, and the mail channel is up.
abbrev pub net : Network
net = record {
  respond = λ n r.
      some
        (record { is_ok = true; is_json = true; json = some (Json.obj []); text_body = some "" });
  mail_channel = λ n. true;
  email_element = λ s. none;
}

abbrev pub hook : Action
hook = record {
  id = 1;
  workflow_id = 10;
  kind = ActionTypes.webhook;
  config = some (Json.obj (("url", Value.str "https://example.org/hook") ∷ []));
  step = 1;
}

abbrev pub viewer : Action
viewer = record {
  id = 2;
  workflow_id = 10;
  kind = ActionTypes.collect_viewer_data;
  config = none;
  step = 2;
}

abbrev pub db : Db
db = record {
  users = [];
  connections = record { id = 4; user_id = some 7; installation_id = 77; account_id = 5 } ∷ [];
  repos =
      record {
        id = 3;
        connection_id = 4;
        repo_id = 33;
        name = "app";
        full_name = "me/app";
        is_private = false;
      }
      ∷ [];
  workflows =
      record {
        id = 10;
        user_id = 7;
        name = "stars";
        enabled = true;
        repo = 3;
        event_type = EventType.star;
        action = some "created";
        config = none;
      }
      ∷ [];
  actions = hook ∷ viewer ∷ [];
  workflow_runs = [];
  action_runs = [];
  subscriptions = [];
  payments = [];
}

abbrev pub world : World
world = record { db = db; calls = 0; emails = []; requests = []; viewer_data = none }

abbrev pub new_action : RawAction
new_action = record {
  platform = some Platform.github;
  kind = some (TypeText.known ActionTypes.webhook);
  step = some 3;
  config = some (Json.obj (("url", Value.str "https://example.org/hook") ∷ []));
}

abbrev pub starred : Delivery
starred = record {
  event = "star";
  payload = record {
    action = some "created";
    installation = some 77;
    repository = some (record { id = 33; name = "app"; full_name = "me/app"; is_private = false });
    sender = some (record {
      url = some "https://example.org/u";
      html_url = some "https://example.org/h";
      organizations_url = some "https://example.org/o";
    });
    raw = Json.obj [];
  };
  installation = none;
}
