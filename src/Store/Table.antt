-- ===== src/Store/Table.antt =====
-- A table as the list of its rows, and what a statement with a `where` clause does to it.
pub mod Counting
use shob_app.Prelude.{
  ℕ, suc, Bool, true, false, Option, some, none, List, [], ◌∷◌, ◌++◌, map, if◌then◌else◌, not,
}

module _ {A : Type 0} where
  -- `count({ where })`
  abbrev pub count : (A → Bool) → List A → ℕ
  count p [] = 0
  count p (x ∷ xs) = if p x then suc (count p xs) else count p xs

  -- `create({ data })`
  abbrev pub insert : A → List A → List A
  insert a xs = xs ++ a ∷ []

  -- the rows that a `where` clause selects
  abbrev pub select : (A → Bool) → List A → List A
  select p [] = []
  select p (x ∷ xs) = if p x then x ∷ select p xs else select p xs

  -- `deleteMany({ where })`
  abbrev pub delete_many : (A → Bool) → List A → List A
  delete_many p [] = []
  delete_many p (x ∷ xs) = if p x then delete_many p xs else x ∷ delete_many p xs

  -- `updateMany({ where, data })`
  abbrev pub update_many : (A → Bool) → (A → A) → List A → List A
  update_many p f [] = []
  update_many p f (x ∷ xs) = (if p x then f x else x) ∷ update_many p f xs
