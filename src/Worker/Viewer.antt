-- ===== src/Worker/Viewer.antt =====
-- worker/github/core/actions: what is collected about the user who caused an event.
pub mod Quiet
use Prim.Native.String.{len, slice}
use shob_app.Prelude.{
  ℕ, String, Bool, true, false, not, Option, some, none, List, [], ◌∷◌, ◌++◌, if◌then◌else◌, str_eq,
  ◌==◌,
}
use shob_app.Store.Rows.{Json, Value, Dict}
use shob_app.Store.Effects.{
  M, Exception, Request, Answer, pure, raise, try_catch, or_throw, ◌>>=◌, ◌>>◌,
}
use shob_app.Action.Zod.{lookup}
use shob_app.Worker.Network.{Network, fetch}
use text.Mathlib.Text.{starts_with}

-- `fetch(url)`, which rejects where the url is undefined
abbrev pub url_of : Option String → M String
url_of url = or_throw url Exception.other

-- `href.replace("mailto:", "")` where the text starts so
abbrev after_mailto : String → String
after_mailto href = slice href 7 (len href)

abbrev address_in : String × Option String → String
address_in (shown, none) = shown
address_in (shown, some href) = if starts_with href "mailto:" then after_mailto href else shown

-- `user_Info.<key> = userInfoFromGithub.<field>`
abbrev copied : List (String × String) → Dict → Dict
copied [] d = []
copied ((key, field) ∷ more) d = elim (lookup field d) [
  | none ↦ copied more d
  | some v ↦ (key, v) ∷ copied more d
]

abbrev profile_fields : List (String × String)
profile_fields =
    ("username", "login")
    ∷ ("avatar_url", "avatar_url")
    ∷ ("url", "html_url")
    ∷ ("type", "type")
    ∷ ("user_view_type", "user_view_type")
    ∷ ("name", "name")
    ∷ ("company", "company")
    ∷ ("blog", "blog")
    ∷ ("location", "location")
    ∷ ("email", "email")
    ∷ ("bio", "bio")
    ∷ ("public_repos", "public_repos")
    ∷ ("followers", "followers")
    ∷ ("following", "following")
    ∷ ("account_created_at", "created_at")
    ∷ []

-- reading a field of what `response.json()` gave: null has none to read
abbrev fields_of : Json → M Dict
fields_of (Json.obj d) = pure d
fields_of (Json.plain Value.null) = raise Exception.other
fields_of (Json.plain _) = pure []

abbrev truthy : Option Value → Bool
truthy none = false
truthy (some Value.null) = false
truthy (some (Value.bool b)) = b
truthy (some (Value.num n)) = not (n == 0)
truthy (some (Value.str s)) = not (str_eq s "")
truthy (some Value.other) = true

abbrev text_value : Option Value → Option String
text_value (some (Value.str s)) = some s
text_value _ = none

abbrev email_value : Answer String → Value
email_value (Answer.success s) = Value.str s
email_value _ = Value.null

module _ (net : Network) where
  unfoldable pub collect_viewer_email : Option String → M (Answer String)
  collect_viewer_email html_url =
      try_catch
        (do
          url ← url_of html_url
          res ← fetch net (Request.get url)
          html ← or_throw res.text_body Exception.other
          pure (elim (net.email_element html) [
            | none ↦ Answer.failure
            | some element ↦ Answer.success (address_in element)
          ]))
        (λ e. pure Answer.failure)

  -- The rest of `collect_viewer_info`, once the profile is read and there are organizations to read.
  with_organizations : Dict → String → M (Answer Json)
  unfolding collect_viewer_email
  with_organizations profile organizations_url = do
    res ← fetch net (Request.get organizations_url)
    organizations ← or_throw res.json Exception.other
    fields_of organizations
    let info = ("organizations", Value.other) ∷ copied profile_fields profile
    if truthy (lookup "email" profile) then pure (Answer.success (Json.obj info)) else (do
      email ← collect_viewer_email (text_value (lookup "html_url" profile))
      pure (Answer.success (Json.obj (("email", email_value email) ∷ info))))

  unfoldable pub collect_viewer_info : Option String → Option String → M (Answer Json)
  unfolding with_organizations
  collect_viewer_info sender_url sender_organizations_url =
      try_catch
        (do
          url ← url_of sender_url
          res ← fetch net (Request.get url)
          answer ← or_throw res.json Exception.other
          profile ← fields_of answer
          elim sender_organizations_url [
            | none ↦ pure Answer.malformed
            | some organizations_url ↦
                if str_eq organizations_url ""
                then pure Answer.malformed
                else with_organizations profile organizations_url
          ])
        (λ e. pure Answer.failure)
