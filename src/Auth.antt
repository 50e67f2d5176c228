-- ===== src/Auth.antt =====
-- auth.service.ts. The library better-auth and Redis are parameters; names, passwords and headers are
-- left out of the calls, which are logged.
pub mod Laws
use shob_app.Prelude.{
  ℕ, suc, String, Bool, true, false, not, ◌&&◌, Option, some, none, [], ◌∷◌, ◌++◌, str_eq, ◌==◌,
  leb, if◌then◌else◌,
}
use shob_app.Store.Rows.{User}
use shob_app.Store.Table.{count}
use shob_app.Store.Effects.{
  M, Prisma, Exception, Result, ok, throw, Request, AuthCall, bad_request, not_found, pure, raise,
  query, throw_if, or_throw, try_catch, ◌>>=◌, ◌>>◌,
}

-- An answer with `asResponse`: the status and the cookie.
pub record AuthResponse : Type 0 where
  pub status : ℕ
  pub cookie : Option String

-- How `resetPassword` ends: done, refused with the code INVALID_TOKEN and the status 400, or refused
-- in another way.
pub data Reset : Type 0 where
  done invalid_token refused : Reset

-- The user and the end of a session.
pub record Session : Type 0 where
  pub email : String
  pub email_verified : Bool
  pub expires_at : ℕ

-- The answers at a moment; `none` where the call rejects.
pub record AuthApi : Type 0 where
  pub sign_up_email : ℕ → String → Option (Unit {0})
  pub send_verification_email : ℕ → String → Option Bool
  pub verify_email : ℕ → String → Option AuthResponse
  pub sign_in_email : ℕ → String → Option AuthResponse
  pub revoke_session : ℕ → String → Option Bool
  pub request_password_reset : ℕ → String → Option (Unit {0})
  pub reset_password : ℕ → String → Reset
  pub change_password : ℕ → Option AuthResponse
  pub get_session : ℕ → Option (Option Session)

-- Whether Redis has the token of the mail of a user id, or of an address, at a moment.
pub record Tokens : Type 0 where
  pub verification : ℕ → ℕ → Result Bool
  pub reset : ℕ → String → Result Bool

abbrev pub ask_auth : {A : Type 0} → AuthCall → (ℕ → Option A) → M A
ask_auth c answer w =
    let w' = record w { calls = suc w.calls; requests = w.requests ++ Request.auth c ∷ [] } in
    elim (answer w.calls) [ none ↦ (throw Exception.other, w') | some a ↦ (ok a, w') ]

abbrev pub read_token : (ℕ → Result Bool) → M Bool
read_token f w = (f w.calls, record w { calls = suc w.calls })

abbrev pub has_email : String → User → Bool
has_email email u = str_eq u.email email

abbrev pub unverified : String → User → Bool
unverified email u = has_email email u && not u.email_verified

module _ (prisma : Prisma) (api : AuthApi) (tokens : Tokens) where
  -- Another mail, unless the token of the last one is still there.
  abbrev pub send_again : ℕ → String → M (Unit {0})
  send_again id email = do
    kept ← read_token (λ n. tokens.verification n id)
    throw_if kept bad_request
    sent ←
        ask_auth (AuthCall.send_verification_email email) (λ n. api.send_verification_email n email)
    throw_if (not sent) (Exception.http 500)

  unfoldable pub sign_up : String → M (Unit {0})
  sign_up email = do
    user ← query prisma (λ d. prisma.find_first User (has_email email) d.users)
    elim user [
      | none ↦ ask_auth (AuthCall.sign_up_email email) (λ n. api.sign_up_email n email)
      | some u ↦ if u.email_verified then raise bad_request else send_again u.id u.email
    ]

  unfoldable pub verify_email : String → M (Option String)
  verify_email token = do
    result ← ask_auth (AuthCall.verify_email token) (λ n. api.verify_email n token)
    throw_if (result.status == 401) bad_request
    throw_if (leb 500 result.status) (Exception.http 500)
    pure result.cookie

  unfoldable pub login : String → M (Option String)
  login email = do
    res ← ask_auth (AuthCall.sign_in_email email) (λ n. api.sign_in_email n email)
    throw_if (res.status == 401) bad_request
    throw_if (res.status == 403) (Exception.http 403)
    pure res.cookie

  unfoldable pub resend_verify_email : String → M (Unit {0})
  resend_verify_email email = do
    user ← query prisma (λ d. prisma.find_first User (unverified email) d.users)
    u ← or_throw user bad_request
    send_again u.id email

  unfoldable pub logout : String → M Bool
  logout session_token = do
    res ← ask_auth (AuthCall.revoke_session session_token) (λ n. api.revoke_session n session_token)
    throw_if (not res) (Exception.http 500)
    pure res

  unfoldable pub request_password_reset : String → M (Unit {0})
  request_password_reset email = do
    user ← query prisma (λ d. count (has_email email) d.users)
    throw_if (user == 0) bad_request
    kept ← read_token (λ n. tokens.reset n email)
    throw_if kept bad_request
    ask_auth (AuthCall.request_password_reset email) (λ n. api.request_password_reset n email)

  unfoldable pub reset_password : String → M (Unit {0})
  reset_password token = do
    ended ← ask_auth (AuthCall.reset_password token) (λ n. some (api.reset_password n token))
    elim ended [
      | Reset.done ↦ pure tt
      | Reset.invalid_token ↦ raise bad_request
      | Reset.refused ↦ raise Exception.other
    ]

  unfoldable pub change_password : M AuthResponse
  change_password = do
    answer ← ask_auth AuthCall.change_password api.change_password
    throw_if (answer.status == 400) bad_request
    pure answer

  unfoldable pub get_session : M Session
  get_session = do user ← ask_auth AuthCall.get_session api.get_session; or_throw user not_found
