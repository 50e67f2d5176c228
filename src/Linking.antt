-- ===== src/Linking.antt =====
-- github.service.ts: how a user asks for and claims an installation of the GitHub app. Redis is a parameter: what
-- a key holds at a moment, and which command throws.
pub mod Laws
pub mod Repos
pub mod Webhook
use shob_app.Prelude.{ℕ, suc, Bool, true, false, not, Option, some, none, if◌then◌else◌, ◌==◌}
use shob_app.Store.Rows.{GithubConnection}
use shob_app.Store.Table.{count, update_many}
use shob_app.Store.Effects.{
  M, Prisma, Exception, Result, ok, throw, bad_request, pure, raise, query, call, throw_if,
  or_throw, ◌>>=◌, ◌>>◌,
}

pub record Redis : Type 0 where
  -- `set` of the key of a state at a moment, with a user id
  pub set : ℕ → ℕ → ℕ → Result (Unit {0})
  -- `get` of the key of a state at a moment: the user id that is kept there
  pub get : ℕ → ℕ → Result (Option ℕ)
  -- `del` of the key of a state at a moment
  pub del : ℕ → ℕ → Result (Unit {0})

-- The parameters of the callback; `none` is one that is missing or falsy.
pub record Callback : Type 0 where
  pub installation : Option ℕ
  pub state : Option ℕ

abbrev pub command : {A : Type 0} → (ℕ → Result A) → M A
command f w = (f w.calls, record w { calls = suc w.calls })

abbrev pub is_owner : ℕ → Option ℕ → Bool
is_owner user_id none = false
is_owner user_id (some u) = u == user_id

abbrev pub of_installation : ℕ → GithubConnection → Bool
of_installation i c = c.installation_id == i

abbrev pub claimed : ℕ → GithubConnection → GithubConnection
claimed user_id c = record c { user_id = some user_id }

module _ (prisma : Prisma) (redis : Redis) where
  -- A new state for the user, which the URL of the app names; `randomUUID` gives one at a moment.
  unfoldable pub connect : (ℕ → ℕ) → ℕ → M ℕ
  connect random user_id w =
      (do command (λ n. redis.set n (random w.calls) user_id); pure (random w.calls)) w

  unfoldable pub callback : Callback → ℕ → M (Unit {0})
  callback q user_id = do
    i ← or_throw q.installation bad_request
    state ← or_throw q.state bad_request
    owner ← command (λ n. redis.get n state)
    throw_if (not (is_owner user_id owner)) bad_request
    installation ← query prisma (λ d. count (of_installation i) d.connections)
    throw_if (installation == 0) bad_request
    command (λ n. redis.del n state)
    call prisma (λ d.
        if count (of_installation i) d.connections == 0
        then (throw (Exception.known_request 2025), d)
        else (
          ok tt,
          record d {
            connections = update_many (of_installation i) (claimed user_id) d.connections;
          },
        ))
