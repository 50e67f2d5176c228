-- ===== src/Prelude/Lists.antt =====
-- Lists measured by native numbers, membership and bounded quantification by recursion.
use Prim.Native.Nat.{ℕ, zero, suc}
use Prim.Native.String.{String}
use text.Mathlib.Text.{◌==◌ as str_eq}
use shob_app.Prelude.Tests.{if◌then◌else◌}
use mathlib.Core.Path.{◌≡◌, subst}
use mathlib.Core.Logic.{◌⊎◌, inl, inr}
use mathlib.Core.Bool.{Bool, false, ◌||◌}
use mathlib.Core.List.{List, [], ◌∷◌}

module _ {ℓ} {A : Type ℓ} where
  abbrev pub length : List A → ℕ
  length [] = 0
  length (x ∷ xs) = suc (length xs)

  abbrev pub take : ℕ → List A → List A
  take zero xs = []
  take (suc n) [] = []
  take (suc n) (x ∷ xs) = x ∷ take n xs

  abbrev pub drop : ℕ → List A → List A
  drop zero xs = xs
  drop (suc n) [] = []
  drop (suc n) (x ∷ xs) = drop n xs

  -- `xs.some(p)`
  abbrev pub any : (A → Bool) → List A → Bool
  any p [] = false
  any p (x ∷ xs) = p x || any p xs

abbrev pub In : {A : Type 0} → A → List A → Type 0
In a [] = ⊥
In a (x ∷ xs) = (x ≡ a) ⊎ In a xs

module _ {κ} {A : Type 0} (P : A → Type κ) where
  abbrev pub All : List A → Type κ
  All [] = Unit
  All (x ∷ xs) = P x × All xs

  pub All-In : (xs : List A) (a : A) → All xs → In a xs → P a
  All-In (x ∷ xs) a (p, h) (inl e) = subst P e p
  All-In (x ∷ xs) a (p, h) (inr i) = All-In xs a h i
  All-In [] a h i = elim i [ ]

-- `switch (s) { case …: return …; default: return … }`
abbrev pub switch : {A : Type 0} → String → List (String × A) → A → A
switch s [] otherwise = otherwise
switch s ((name, a) ∷ cases) otherwise = if str_eq s name then a else switch s cases otherwise
