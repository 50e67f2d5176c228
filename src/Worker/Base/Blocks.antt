-- ===== src/Worker/Base/Blocks.antt =====
-- The blocks that the `executeSingleAction` of several events are made of.
use Prim.Native.String.{◌++◌ as text_append}
use shob_app.Prelude.{String, Bool, true, false, Option, some, none, [], ◌∷◌, if◌then◌else◌, str_eq}
use shob_app.Store.Rows.{Json, Value, Dict}
use shob_app.Store.Effects.{M, Exception, Answer, Body, Request, pure, or_throw, ◌>>=◌, ◌>>◌}
use shob_app.Action.Zod.{Js, lookup, has_key}
use shob_app.Action.Schema.{ActionDto}
use shob_app.Worker.Types.{ActionResult, Payload}
use shob_app.Worker.Network.{Network, Response, fetch, send_email}
use shob_app.Worker.Viewer.{collect_viewer_email}

-- `action.config`
abbrev pub config_of : ActionDto → Dict
config_of a = elim a.config [ none ↦ [] | some d ↦ d ]

-- a text that is there and is not empty
abbrev pub has_text : Option String → Bool
has_text none = false
has_text (some s) = if str_eq s "" then false else true

-- `"<key>" in action.config`
abbrev pub asks : String → ActionDto → Bool
asks key a = has_key key (config_of a)

-- `action.config.<key> || ""`
abbrev pub text_at : String → Dict → String
text_at key d = elim (lookup key d) [ some (Value.str s) ↦ s | _ ↦ "" ]

abbrev pub queued : ActionResult
queued =
    ActionResult.success
      (some (Json.obj (("custom_message", Value.str "The data is added to the queue.") ∷ [])))

-- `sections.filter(Boolean).join("\n\n")` for two sections, the second of which is not empty
abbrev join_sections : String → String → String
join_sections a b = if str_eq a "" then b else text_append a (text_append "\n\n" b)

-- What the code reads from a response that is a success.
abbrev response_output : Response → Option Json
response_output res =
    if res.is_json
    then res.json
    else elim res.text_body [ none ↦ none | some t ↦ some (Json.plain (Value.str t)) ]

module _ (js : Js) (net : Network) where
  -- `buildEmailBody`; `none` where the viewer's data could not be had
  unfoldable pub build_email_body : String → Bool → M (Answer Json) → M (Option String)
  build_email_body body false get_viewer = pure (some body)
  build_email_body body true get_viewer = do
    answer ← get_viewer
    elim answer [
      | Answer.success shown ↦
          pure (some (join_sections body (text_append "Viewer info:\n" (js.stringify shown))))
      | _ ↦ pure none
    ]

  -- `if (action.type === "collect_viewer_data")`
  unfoldable pub collect_block : M (Answer Json) → M ActionResult
  collect_block get_viewer = do
    answer ← get_viewer
    elim answer [
      | Answer.success shown ↦ pure (ActionResult.success (some shown))
      | _ ↦ pure (ActionResult.failure none)
    ]

  -- `await sendEmail({ … })` with the texts of the config, and the answer after it
  unfoldable pub send_queued : String → String → String → M ActionResult
  send_queued email subject body = do
    send_email net (record { email = email; subject = subject; body = body })
    pure queued

  -- `if (action.type === "send_email")`, and whether the viewer's data goes into the body
  unfoldable pub send_email_block : Bool → ActionDto → M (Answer Json) → M ActionResult
  unfolding build_email_body send_queued
  send_email_block include a get_viewer = do
    built ← build_email_body (text_at "body" (config_of a)) include get_viewer
    elim built [
      | none ↦ pure (ActionResult.failure none)
      | some body ↦
          send_queued (text_at "email" (config_of a)) (text_at "subject" (config_of a)) body
    ]

  -- `if (action.type === "send_email_to_me")`
  unfoldable pub send_email_to_me_block : Bool → ActionDto → M (Answer Json) → M ActionResult
  unfolding build_email_body send_queued
  send_email_to_me_block include a get_viewer = do
    built ← build_email_body (text_at "body" (config_of a)) include get_viewer
    elim built [
      | none ↦ pure (ActionResult.failure none)
      | some body ↦
          if has_key "email" (config_of a)
          then send_queued (text_at "email" (config_of a)) (text_at "subject" (config_of a)) body
          else pure (ActionResult.failure none)
    ]

  -- `if (action.type === "send_email_to_who_send_the_trigger")`
  unfoldable pub send_email_to_trigger_block : ActionDto → Payload → M ActionResult
  unfolding send_queued
  send_email_to_trigger_block a payload = do
    sender ← or_throw payload.sender Exception.other
    address ← collect_viewer_email net sender.html_url
    elim address [
      | Answer.success email ↦
          send_queued email (text_at "subject" (config_of a)) (text_at "body" (config_of a))
      | _ ↦ pure (ActionResult.failure none)
    ]

  -- The request of `if (action.type === "webhook")` and what is made of the response.
  unfoldable pub post_block : ActionDto → Body → M ActionResult
  post_block a sent = do
    res ← fetch net (Request.post (text_at "url" (config_of a)) sent)
    if res.is_ok
        then (do
          output ← or_throw (response_output res) Exception.other
          pure (ActionResult.success (some output)))
        else (do or_throw res.text_body Exception.other; pure (ActionResult.failure (some false)))

  -- `buildWebhookPayload`, and the request with the payload and the viewer's data
  unfoldable pub webhook_payload_block : ActionDto → Payload → M (Answer Json) → M ActionResult
  unfolding post_block
  webhook_payload_block a payload get_viewer = do
    answer ← get_viewer
    elim answer [
      | Answer.success shown ↦
          post_block a
            (Body.object (("trigger_payload", payload.raw) ∷ ("viewer_info", shown) ∷ []))
      | _ ↦ pure (ActionResult.failure none)
    ]

  -- The request with the viewer's data alone
  unfoldable pub webhook_viewer_block : ActionDto → M (Answer Json) → M ActionResult
  unfolding post_block
  webhook_viewer_block a get_viewer = do
    answer ← get_viewer
    elim answer [
      | Answer.success shown ↦ post_block a (Body.whole shown)
      | _ ↦ pure (ActionResult.failure none)
    ]
