-- ===== src/Tests/Linking.antt =====
-- The callback of GitHub, run.
use shob_app.Prelude.{some, true, [], ◌∷◌}
use shob_app.Store.Rows.{Json}
use shob_app.Store.Effects.{ok}
use shob_app.Linking.{Redis, Callback, callback}
use shob_app.Linking.Laws.{Linked, callback-Linked}
use shob_app.Linking.Webhook.{
  Crypto, Header, Received, receive_webhook_from_github, receive_webhook_from_github-Received,
}
use shob_app.Tests.Client.{client}
use shob_app.Tests.Data.{world}

-- Every state is kept for the user 8, who has no installation yet.
abbrev pub redis : Redis
redis = record { set = λ n state user. ok tt; get = λ n state. ok (some 8); del = λ n state. ok tt }

abbrev pub query_8 : Callback
query_8 = record { installation = some 77; state = some 1 }

callback-Linked_example :
    Linked client redis query_8 8 world (callback client redis query_8 8 world)
callback-Linked_example = callback-Linked client redis query_8 8 world

-- Every signature fits, and every payload is an empty object.
abbrev crypto : Crypto
crypto = record {
  after_prefix = λ s. "00";
  is_hex = λ s. true;
  from_hex = λ s. 0 ∷ [];
  hmac = λ k p. 0 ∷ [];
  json_parse = λ s. some (Json.obj []);
  queue = λ n. true;
}

receive_webhook_from_github-Received_example :
    Received crypto (some "secret") (Header.one "sha256=00") (some "push") (some "{}") world (
      receive_webhook_from_github crypto
        (some "secret")
        (Header.one "sha256=00")
        (some "push")
        (some "{}")
        world)
receive_webhook_from_github-Received_example =
    receive_webhook_from_github-Received crypto (some "secret") (Header.one "sha256=00")
      (some "push") (some "{}") world
