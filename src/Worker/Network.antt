-- ===== src/Worker/Network.antt =====
-- Requests to other servers and the queue of outgoing mail. What a server answers, whether the mail
-- channel takes a message, and what Cheerio finds in a page are not decided by the repository.
use shob_app.Prelude.{ℕ, suc, String, Bool, Option, some, none, [], ◌∷◌, ◌++◌, true, false}
use shob_app.Store.Rows.{Json}
use shob_app.Store.Effects.{M, Exception, Request, Email, ok, throw}

pub record Response : Type 0 where
  -- `res.ok`, and whether the content type names `application/json`
  pub is_ok : Bool
  pub is_json : Bool
  -- `res.json()` and `res.text()`; `none` where they reject
  pub json : Option Json
  pub text_body : Option String

pub record Network : Type 0 where
  -- the answer to a request at a moment, `none` where `fetch` rejects
  pub respond : ℕ → Request → Option Response
  -- whether `sendToQueue` of the mail channel succeeds at a moment
  pub mail_channel : ℕ → Bool
  -- `$('li[itemprop="email"] a')`: its trimmed text, and its `href`
  pub email_element : String → Option (String × Option String)

module _ (net : Network) where
  abbrev pub fetch : Request → M Response
  fetch r w =
      let w' = record w { calls = suc w.calls; requests = w.requests ++ r ∷ [] } in
      elim (net.respond w.calls r) [ none ↦ (throw Exception.other, w') | some res ↦ (ok res, w') ]

  -- `sendEmail` of utils/rabbitmq.ts
  abbrev pub send_email : Email → M (Unit {0})
  send_email e w = elim (net.mail_channel w.calls) [
    | true ↦ (ok tt, record w { calls = suc w.calls; emails = w.emails ++ e ∷ [] })
    | false ↦ (throw Exception.other, record w { calls = suc w.calls })
  ]
