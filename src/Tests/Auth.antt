-- ===== src/Tests/Auth.antt =====
-- A user who has not verified the address signs up again, after the token of the mail is gone.
use shob_app.Prelude.{some, none, true, false, [], ◌∷◌}
use shob_app.Store.Effects.{World, ok}
use shob_app.Auth.{AuthApi, Tokens, Reset, sign_up}
use shob_app.Auth.Laws.{SignedUp, sign_up-SignedUp}
use shob_app.Tests.Client.{client}
use shob_app.Tests.Data.{world}

abbrev api : AuthApi
api = record {
  sign_up_email = λ n email. some tt;
  send_verification_email = λ n email. some true;
  verify_email = λ n token. none;
  sign_in_email = λ n email. none;
  revoke_session = λ n token. some true;
  request_password_reset = λ n email. some tt;
  reset_password = λ n token. Reset.done;
  change_password = λ n. none;
  get_session = λ n. some none;
}

abbrev tokens : Tokens
tokens = record { verification = λ n id. ok false; reset = λ n email. ok false }

abbrev newcomer : World
newcomer = record world {
  db = record world.db {
    users =
        record {
          id = 9;
          email = "you@example.org";
          email_verified = false;
          stripe_customer_id = none;
        }
        ∷ [];
  };
}

sign_up-SignedUp_example :
    SignedUp client api tokens "you@example.org" newcomer
      (sign_up client api tokens "you@example.org" newcomer)
sign_up-SignedUp_example = sign_up-SignedUp client api tokens "you@example.org" newcomer
