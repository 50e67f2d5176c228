-- ===== src/Linking/Webhook.antt =====
-- The webhook of GitHub: verify-webhook-request.ts, and receiveWebhookFromGitHub of github.controller.ts
-- and github.service.ts. The functions of JavaScript on texts, HMAC and the queue are parameters.
use shob_app.Prelude.{
  ℕ, String, Bool, true, false, not, ◌&&◌, Option, some, none, List, [], ◌∷◌, if◌then◌else◌, ◌==◌,
  str_eq, ◌≡◌, refl, arith, Bool-cases, Option-cases, inl, inr, ◌++◌, suc,
}
use shob_app.Store.Rows.{Json, Value}
use shob_app.Store.Effects.{
  M, World, Body, Result, ok, throw, Request, bad_request, pure, raise, throw_if, or_throw, ◌>>=◌,
  ◌>>◌,
}
use shob_app.Store.Effects.Http.{as_http}
use shob_app.Store.Effects.Queue.{enqueue}
use text.Mathlib.Text.{starts_with}

-- A header that is not there, one, or many with the same name.
pub data Header : Type 0 where
  absent many : Header
  one : String → Header

pub record Crypto : Type 0 where
  -- `slice` after the prefix
  pub after_prefix : String → String
  -- an even number of hexadecimal digits, and at least one
  pub is_hex : String → Bool
  -- `Buffer.from(text, "hex")`
  pub from_hex : String → List ℕ
  -- the digest of a payload under a secret
  pub hmac : String → String → List ℕ
  -- `JSON.parse`, which may throw
  pub json_parse : String → Option Json
  -- whether `sendToQueue` succeeds at a moment
  pub queue : ℕ → Bool

-- `timingSafeEqual`, after the test of the lengths
abbrev pub same_bytes : List ℕ → List ℕ → Bool
same_bytes [] [] = true
same_bytes [] (b ∷ bs) = false
same_bytes (a ∷ as_) [] = false
same_bytes (a ∷ as_) (b ∷ bs) = a == b && same_bytes as_ bs

same_bytes-eq : (xs ys : List ℕ) → same_bytes xs ys ≡ true → xs ≡ ys
same_bytes-eq [] [] h = refl
same_bytes-eq [] (b ∷ bs) h = absurd (ground (arith, h))
same_bytes-eq (a ∷ xs) [] h = absurd (ground (arith, h))
same_bytes-eq (a ∷ xs) (b ∷ ys) h = ground (arith, h, same_bytes-eq xs ys)

-- `GITHUB_SECRET`, or a text of the source where it is missing or empty
abbrev pub github_secret : Option String → String
github_secret none = "GitHub_secret"
github_secret (some s) = if str_eq s "" then "GitHub_secret" else s

module _ (crypto : Crypto) where
  unfoldable pub verify_github_webhook : String → Option String → String → Bool
  verify_github_webhook payload none secret = false
  verify_github_webhook payload (some signature) secret =
      not (str_eq signature "")
      && not (str_eq secret "")
      && starts_with signature "sha256="
      && crypto.is_hex (crypto.after_prefix signature)
      && same_bytes (crypto.from_hex (crypto.after_prefix signature)) (crypto.hmac secret payload)

  abbrev pub single : Header → M (Option String)
  single Header.absent = pure none
  single Header.many = raise bad_request
  single (Header.one s) = pure (some s)

  -- `{ event, data }`, whose JSON has no event where the header is missing
  abbrev pub github_message : Option String → Json → Body
  github_message none payload = Body.object (("data", payload) ∷ [])
  github_message (some event) payload =
      Body.object (("event", Json.plain (Value.str event)) ∷ ("data", payload) ∷ [])

  -- The headers are `x-hub-signature-256` and `x-github-event`; the body is `none` where it is no
  -- buffer.
  unfoldable pub receive_webhook_from_github :
      Option String → Header → Option String → Option String → M (Unit {0})
  unfolding verify_github_webhook
  receive_webhook_from_github config header event body = as_http (do
    signature ← single header
    payload ← or_throw body bad_request
    throw_if (not (verify_github_webhook payload signature (github_secret config))) bad_request
    parsed ← or_throw (crypto.json_parse payload) bad_request
    enqueue "sendGitHubWebhookData" (github_message event parsed) crypto.queue)

  -- The parsed value of a signed body is queued, with the name of the event; nothing else happens.
  abbrev pub Received :
      Option String
      → Header
      → Option String
      → Option String
      → World
      → Result (Unit {0}) × World
      → Type 0
  Received config header event body v (ok u, w) =
      (payload : String) × (signature : String) × (parsed : Json) × (body ≡ some payload)
      × (header ≡ Header.one signature)
      × (starts_with signature "sha256=" ≡ true)
      × (crypto.from_hex (crypto.after_prefix signature)
          ≡ crypto.hmac (github_secret config) payload)
      × (crypto.json_parse payload ≡ some parsed)
      × (w.requests
          ≡ v.requests
            ++ Request.enqueue "sendGitHubWebhookData" (github_message event parsed) ∷ [])
      × (w.db ≡ v.db)
  Received config header event body v (throw e, w) = (w.requests ≡ v.requests) × (w.db ≡ v.db)

  -- A webhook of GitHub that answers has a body, which is a JSON text, and one signature, which
  -- begins with its prefix and whose bytes are the digest of the body under the secret; an object
  -- of the event of the header, where there is one, and of the parsed body is queued, once, and no
  -- table has changed. One that throws has queued nothing and changed no table.
  pub receive_webhook_from_github-Received :
      (config : Option String) (header : Header) (event body : Option String) (w : World)
      → Received config header event body w (receive_webhook_from_github config header event body w)
  unfolding receive_webhook_from_github verify_github_webhook
  receive_webhook_from_github-Received config Header.absent event body w = ground arith
  receive_webhook_from_github-Received config Header.many event body w = ground arith
  receive_webhook_from_github-Received config (Header.one signature) event none w = ground arith
  receive_webhook_from_github-Received config (Header.one signature) event (some payload) w =
      elim (Bool-cases (verify_github_webhook payload (some signature) (github_secret config))) [
        | inr refused ↦ ground (arith, refused)
        | inl verified ↦ elim (Option-cases (crypto.json_parse payload)) [
          | inl broken ↦ ground (arith, verified, broken)
          | inr (parsed, read) ↦
              let bytes : crypto.from_hex (crypto.after_prefix signature)
                  ≡ crypto.hmac (github_secret config) payload =
                same_bytes-eq (crypto.from_hex (crypto.after_prefix signature))
                  (crypto.hmac (github_secret config) payload) (ground (arith, verified)) in
              let prefixed : starts_with signature "sha256=" ≡ true = ground (arith, verified) in
              let queued : World = record w {
                calls = suc w.calls;
                requests =
                    w.requests
                    ++ Request.enqueue "sendGitHubWebhookData" (github_message event parsed) ∷ [];
              } in
              let fact : Received config (Header.one signature) event (some payload) w
                  (ok tt, queued) =
                (payload, signature, parsed, refl, refl, prefixed, bytes, read, refl, refl) in
              ground (arith, verified, read, fact)
        ]
      ]
