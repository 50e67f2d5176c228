-- ===== src/Action/Zod.antt =====
-- The part of a Zod schema that the action DTOs are written in: an object of texts with a chain of
-- checks, and of flags with a default. Unknown keys are stripped. What the JavaScript runtime and
-- Zod decide about a text (trimming, lower case, length, e-mail addresses, URLs) and JSON texts are
-- the fields of `Js`.
use shob_app.Prelude.{
  ℕ, String, Bool, true, false, not, ◌&&◌, Option, some, none, List, [], ◌∷◌, if◌then◌else◌, leb,
  str_eq,
}
use shob_app.Store.Rows.{Value, Dict, Json}
use text.Mathlib.Text.{starts_with, find?}

pub record Js : Type 0 where
  pub trim : String → String
  pub to_lower_case : String → String
  pub text_length : String → ℕ
  pub is_email : String → Bool
  pub is_url : String → Bool
  pub stringify : Json → String
  pub json_parse : String → Option Json

pub data Check : Type 0 where
  trim to_lower_case email url : Check
  min max : ℕ → Check
  -- `.refine(val => !val.includes("localhost") && val.startsWith("https://"))`
  safe_url : Check

pub data Field : Type 0 where
  -- `z.string()…`, and whether `.optional()` ends it
  string : List Check → Bool → Field
  -- `z.boolean().default(b)`
  flag : Bool → Field

abbrev pub Shape : Type 0
Shape = List (String × Field)

abbrev pub includes_text : String → String → Bool
includes_text s t = elim (find? s t) [ none ↦ false | some _ ↦ true ]

abbrev pub keep_if : {A : Type 0} → Bool → A → Option A
keep_if b a = if b then some a else none

infixl 5 ◌>>=◌
abbrev pub ◌>>=◌ : {A B : Type 0} → Option A → (A → Option B) → Option B
none >>= k = none
some a >>= k = k a

-- `key in object`, and the value there
abbrev pub lookup {ℓ} : {V : Type ℓ} → String → List (String × V) → Option V
lookup k [] = none
lookup k ((j, v) ∷ d) = if str_eq j k then some v else lookup k d

abbrev pub has_key {ℓ} : {V : Type ℓ} → String → List (String × V) → Bool
has_key k d = elim (lookup k d) [ none ↦ false | some _ ↦ true ]

-- a value under a key that may be absent
abbrev pub put : String → Option Value → Dict → Dict
put k none d = d
put k (some v) d = (k, v) ∷ d

module _ (js : Js) where
  unfoldable pub run_check : Check → String → Option String
  run_check Check.trim s = some (js.trim s)
  run_check Check.to_lower_case s = some (js.to_lower_case s)
  run_check Check.email s = keep_if (js.is_email s) s
  run_check Check.url s = keep_if (js.is_url (js.trim s)) (js.trim s)
  run_check (Check.min n) s = keep_if (leb n (js.text_length s)) s
  run_check (Check.max n) s = keep_if (leb (js.text_length s) n) s
  run_check Check.safe_url s =
      keep_if (not (includes_text s "localhost") && starts_with s "https://") s

  unfoldable pub run_checks : List Check → String → Option String
  unfolding run_check
  run_checks [] s = some s
  run_checks (c ∷ cs) s = do t ← run_check c s; run_checks cs t

  -- `none`: refused; `some none`: accepted without a value
  unfoldable pub parse_field : Field → Option Value → Option (Option Value)
  unfolding run_checks
  parse_field (Field.string cs optional) none = keep_if optional none
  parse_field (Field.string cs optional) (some (Value.str s)) = do
    t ← run_checks cs s
    some (some (Value.str t))
  parse_field (Field.string cs optional) (some v) = none
  parse_field (Field.flag b) none = some (some (Value.bool b))
  parse_field (Field.flag b) (some (Value.bool c)) = some (some (Value.bool c))
  parse_field (Field.flag b) (some v) = none

  unfoldable pub parse_object : Shape → Dict → Option Dict
  unfolding parse_field
  parse_object [] d = some []
  parse_object ((k, f) ∷ shape) d = do
    v ← parse_field f (lookup k d)
    rest ← parse_object shape d
    some (put k v rest)
