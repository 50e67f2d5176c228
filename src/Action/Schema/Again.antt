-- ===== src/Action/Schema/Again.antt =====
-- A config that a schema gave, read by the same schema once more.
use shob_app.Prelude.{
  ℕ, ◌≡◌, refl, String, Bool, true, not, ◌&&◌, Option, some, none, [], ◌∷◌, arith, str_eq,
  Option-cases, inl, inr, str_eq_iff,
}
use shob_app.Store.Rows.{Value, Dict}
use shob_app.Action.Zod.{
  Js, Check, Field, Shape, parse_object, parse_field, run_checks, run_check, put, lookup,
}

-- What JavaScript says of trimming and lower case.
pub record IsTidy (js : Js) : Type 0 where
  pub trim_again : (s : String) → js.trim (js.trim s) ≡ js.trim s
  pub lower_again : (s : String) → js.to_lower_case (js.to_lower_case s) ≡ js.to_lower_case s
  pub trim_lower :
      (s : String) → js.trim (js.to_lower_case (js.trim s)) ≡ js.to_lower_case (js.trim s)

-- No field of the shape has this key.
abbrev pub fresh : String → Shape → Bool
fresh k [] = true
fresh k ((j, f) ∷ shape) = not (str_eq j k) && not (str_eq k j) && fresh k shape

str_eq_self : (s : String) → str_eq s s ≡ true
str_eq_self s = (str_eq_iff s s).1 refl

module _ (js : Js) where
  -- What the field gives, it gives again.
  abbrev pub IsStable : Field → Type 0
  IsStable f = (o v : Option Value) → parse_field js f o ≡ some v → parse_field js f v ≡ some v

  abbrev pub IsShape : Shape → Type 0
  IsShape [] = Unit
  IsShape ((k, f) ∷ shape) = IsStable f × (fresh k shape ≡ true) × IsShape shape

  lookup-parse_object :
      (k : String) (shape : Shape) (d r : Dict)
      → fresh k shape ≡ true
      → parse_object js shape d ≡ some r
      → lookup k r ≡ none
  unfolding parse_object
  lookup-parse_object k [] d r h e = ground (arith, e)
  lookup-parse_object k ((j, f) ∷ shape) d r h e =
      elim (Option-cases (parse_field js f (lookup j d))) [
        | inl refused ↦ absurd (ground (arith, e, refused))
        | inr (v, parsed) ↦ elim (Option-cases (parse_object js shape d)) [
          | inl refused ↦ absurd (ground (arith, e, parsed, refused))
          | inr (rest, others) ↦ elim (Option-cases v) [
            | inl nothing ↦
                ground (arith, h, e, parsed, others, nothing, lookup-parse_object k shape d rest)
            | inr (x, there) ↦
                ground (arith, h, e, parsed, others, there, lookup-parse_object k shape d rest)
          ]
        ]
      ]

  parse_object-put :
      (k : String) (v : Option Value) (shape : Shape) (d : Dict)
      → fresh k shape ≡ true
      → parse_object js shape (put k v d) ≡ parse_object js shape d
  unfolding parse_object
  parse_object-put k v [] d h = refl
  parse_object-put k none ((j, f) ∷ shape) d h = refl
  parse_object-put k (some v) ((j, f) ∷ shape) d h =
      ground (arith, h, parse_object-put k (some v) shape d)

  pub parse_object_again :
      (shape : Shape) (d r : Dict)
      → IsShape shape
      → parse_object js shape d ≡ some r
      → parse_object js shape r ≡ some r
  unfolding parse_object
  parse_object_again [] d r h e = e
  parse_object_again ((k, f) ∷ shape) d r (stable, new, hs) e =
      elim (Option-cases (parse_field js f (lookup k d))) [
        | inl refused ↦ absurd (ground (arith, e, refused))
        | inr (v, parsed) ↦ elim (Option-cases (parse_object js shape d)) [
          | inl refused ↦ absurd (ground (arith, e, parsed, refused))
          | inr (rest, others) ↦ elim (Option-cases v) [
            | inl nothing ↦ ground (
              arith,
              e,
              parsed,
              others,
              nothing,
              lookup-parse_object k shape d rest new others,
              stable (lookup k d) v parsed,
              parse_object_again shape d rest hs others,
            )
            | inr (x, there) ↦ ground (
              arith,
              e,
              parsed,
              others,
              there,
              str_eq_self k,
              parse_object-put k v shape rest new,
              stable (lookup k d) v parsed,
              parse_object_again shape d rest hs others,
            )
          ]
        ]
      ]

  module _ (tidy : IsTidy js) where
    pub url-IsStable :
        (optional : Bool) → IsStable (Field.string (Check.url ∷ Check.safe_url ∷ []) optional)
    unfolding parse_field run_checks run_check
    url-IsStable optional none v e = ground (arith, e)
    url-IsStable optional (some (Value.str s)) v e = ground (arith, e, tidy.trim_again s)
    url-IsStable optional (some Value.null) v e = ground (arith, e)
    url-IsStable optional (some Value.other) v e = ground (arith, e)
    url-IsStable optional (some (Value.bool b)) v e = ground (arith, e)
    url-IsStable optional (some (Value.num n)) v e = ground (arith, e)

    pub email-IsStable :
        (optional : Bool)
        → IsStable (Field.string (Check.trim ∷ Check.to_lower_case ∷ Check.email ∷ []) optional)
    unfolding parse_field run_checks run_check
    email-IsStable optional none v e = ground (arith, e)
    email-IsStable optional (some (Value.str s)) v e =
        ground (arith, e, tidy.trim_lower s, tidy.lower_again (js.trim s))
    email-IsStable optional (some Value.null) v e = ground (arith, e)
    email-IsStable optional (some Value.other) v e = ground (arith, e)
    email-IsStable optional (some (Value.bool b)) v e = ground (arith, e)
    email-IsStable optional (some (Value.num n)) v e = ground (arith, e)

    pub long_text-IsStable :
        (n : ℕ) (optional : Bool)
        → IsStable (Field.string (Check.trim ∷ Check.min 3 ∷ Check.max n ∷ []) optional)
    unfolding parse_field run_checks run_check
    long_text-IsStable n optional none v e = ground (arith, e)
    long_text-IsStable n optional (some (Value.str s)) v e = ground (arith, e, tidy.trim_again s)
    long_text-IsStable n optional (some Value.null) v e = ground (arith, e)
    long_text-IsStable n optional (some Value.other) v e = ground (arith, e)
    long_text-IsStable n optional (some (Value.bool b)) v e = ground (arith, e)
    long_text-IsStable n optional (some (Value.num m)) v e = ground (arith, e)

    pub flag-IsStable : (b : Bool) → IsStable (Field.flag b)
    unfolding parse_field
    flag-IsStable b none v e = ground (arith, e)
    flag-IsStable b (some (Value.bool c)) v e = ground (arith, e)
    flag-IsStable b (some (Value.str s)) v e = ground (arith, e)
    flag-IsStable b (some Value.null) v e = ground (arith, e)
    flag-IsStable b (some Value.other) v e = ground (arith, e)
    flag-IsStable b (some (Value.num n)) v e = ground (arith, e)
