-- ===== src/Auth/Laws.antt =====
-- Which mails the service asks for.
use shob_app.Prelude.{
  ℕ, suc, not, ◌≡◌, ◌⊎◌, inl, inr, refl, String, Bool, true, false, Option, some, none, [], ◌∷◌,
  ◌++◌, arith, In, if◌then◌else◌,
}
use shob_app.Store.Rows.{User}
use shob_app.Store.Table.{count}
use shob_app.Store.Effects.{
  M, Prisma, World, Result, Exception, ok, throw, Request, AuthCall, bad_request, raise, throw_if,
  ◌>>=◌, ◌>>◌,
}
use shob_app.Store.Effects.Cases.{query_then}
use shob_app.Auth.{AuthApi, Tokens, ask_auth, has_email, send_again, sign_up}

module _ (prisma : Prisma) (api : AuthApi) (tokens : Tokens) where
  abbrev Asked : AuthCall → World → World → Type 0
  Asked c v w = w.requests ≡ v.requests ++ Request.auth c ∷ []

  -- A user of the address, who is not verified and whose token is gone.
  abbrev pub Waiting : String → World → User → Type 0
  Waiting email v u =
      In u v.db.users
      × (has_email email u ≡ true)
      × (u.email_verified ≡ false)
      × (tokens.verification (suc v.calls) u.id ≡ ok false)

  unfoldable pub SignedUp : String → World → Result (Unit {0}) × World → Type 0
  SignedUp email v (r, w) =
      (w.db ≡ v.db)
      × ((((e : Exception) × (r ≡ throw e)) × (w.requests ≡ v.requests))
          ⊎ (((count (has_email email) v.db.users ≡ 0) × Asked (AuthCall.sign_up_email email) v w)
              ⊎ ((u : User) × Waiting email v u
                  × Asked (AuthCall.send_verification_email u.email) v w)))

  asking :
      {A : Type 0} (c : AuthCall) (answer : ℕ → Option A) (v : World)
      → let (r, w) = ask_auth c answer v in (w.db ≡ v.db) × Asked c v w
  asking c answer v = ground arith

  sending :
      (email : String) (v : World)
      → let (r, w) =
          (ask_auth
                (AuthCall.send_verification_email email)
                (λ n. api.send_verification_email n email)
              >>= λ s. throw_if (not s) (Exception.http 500))
            v in
        (w.db ≡ v.db) × Asked (AuthCall.send_verification_email email) v w
  sending email v = ground arith

  send_again-SignedUp :
      (email : String) (u : User) (w : World)
      → In u w.db.users
      → has_email email u ≡ true
      → u.email_verified ≡ false
      → SignedUp email w
          (send_again prisma api tokens u.id u.email (record w { calls = suc w.calls }))
  unfolding SignedUp
  send_again-SignedUp email u w there his fresh = go (tokens.verification (suc w.calls) u.id) refl
    where
      v : World
      v = record w { calls = suc w.calls }

      sent : M (Unit {0})
      sent =
          ask_auth (AuthCall.send_verification_email u.email)
            (λ n. api.send_verification_email n u.email)
          >>= λ s. throw_if (not s) (Exception.http 500)

      go :
          (r : Result Bool)
          → tokens.verification (suc w.calls) u.id ≡ r
          → SignedUp email w (
              (◌>>=◌
                  (λ x. (r, record x { calls = suc x.calls }))
                  (λ kept. throw_if kept bad_request >> sent))
                v)
      go (throw e) eq = (refl, inl ((e, refl), refl))
      go (ok true) eq = (refl, inl ((bad_request, refl), refl))
      go (ok false) eq = (
        (sending u.email (record v { calls = suc v.calls })).0,
        inr (
            inr
              (u, (there, his, fresh, eq), (sending u.email (record v { calls = suc v.calls })).1)),
      )

  by_verified :
      (email : String) (u : User) (w : World)
      → In u w.db.users
      → has_email email u ≡ true
      → (b : Bool) → u.email_verified ≡ b
      → SignedUp email w (
          (if b then raise bad_request else send_again prisma api tokens u.id u.email)
            (record w { calls = suc w.calls }))
  unfolding SignedUp
  by_verified email u w there his true old = (refl, inl ((bad_request, refl), refl))
  by_verified email u w there his false fresh = send_again-SignedUp email u w there his fresh

  -- A sign-up changes no table of its own, and either throws and asks the library for nothing, or
  -- asks it once: for a new user, where nobody has the address; or for another verification mail,
  -- where the user with the address is not verified and Redis has no token of the last mail.
  pub sign_up-SignedUp :
      (email : String) (w : World) → SignedUp email w (sign_up prisma api tokens email w)
  unfolding sign_up SignedUp
  sign_up-SignedUp email w =
      query_then (SignedUp email w) answer w prisma
        (λ d. prisma.find_first User (has_email email) d.users) (λ e. (refl, inl ((e, refl), refl)))
        (answered (prisma.find_first User (has_email email) w.db.users) refl)
    where
      answer : Option User → M (Unit {0})
      answer none = ask_auth (AuthCall.sign_up_email email) (λ n. api.sign_up_email n email)
      answer (some u) =
          if u.email_verified then raise bad_request else send_again prisma api tokens u.id u.email

      answered :
          (o : Option User)
          → prisma.find_first User (has_email email) w.db.users ≡ o
          → SignedUp email w (answer o (record w { calls = suc w.calls }))
      answered none missing =
          let asks =
            asking (AuthCall.sign_up_email email) (λ n. api.sign_up_email n email)
              (record w { calls = suc w.calls }) in
          (
            asks.0,
            inr (inl (prisma.find_first_none User (has_email email) w.db.users missing, asks.1)),
          )
      answered (some u) found =
          let (there, his) = prisma.find_first_some User (has_email email) w.db.users u found in
          by_verified email u w there his u.email_verified refl
