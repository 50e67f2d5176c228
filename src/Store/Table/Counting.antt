-- ===== src/Store/Table/Counting.antt =====
-- How inserting, deleting and updating rows changes a count.
use shob_app.Prelude.{
  ◌+◌, ◌≤◌, ◌≡◌, refl, Bool, true, ◌&&◌, not, List, [], ◌∷◌, arith, if◌then◌else◌, In, inl, inr,
  length, All,
}
use shob_app.Store.Table.{count, insert, select, delete_many, update_many}

module _ {A : Type 0} where
  pub count-insert :
      (p : A → Bool) (a : A) (xs : List A)
      → count p (insert a xs) ≡ count p xs + (if p a then 1 else 0)
  count-insert p a [] = ground arith
  count-insert p a (x ∷ xs) = ground (arith, count-insert p a xs)

  pub count-ext : (p q : A → Bool) (xs : List A) → ((x : A) → p x ≡ q x) → count p xs ≡ count q xs
  count-ext p q [] h = refl
  count-ext p q (x ∷ xs) h = ground (arith, h x, count-ext p q xs h)

  pub count-delete_many :
      (p q : A → Bool) (xs : List A)
      → count p (delete_many q xs) + count (λ x. p x && q x) xs ≡ count p xs
  count-delete_many p q [] = ground arith
  count-delete_many p q (x ∷ xs) = ground (arith, count-delete_many p q xs)

  pub count-update_many :
      (p q : A → Bool) (f : A → A) (xs : List A)
      → count p (update_many q f xs) ≡ count (λ x. p (if q x then f x else x)) xs
  count-update_many p q f [] = refl
  count-update_many p q f (x ∷ xs) = ground (arith, count-update_many p q f xs)

  pub count-split :
      (p q : A → Bool) (xs : List A)
      → count p xs ≡ count (λ x. p x && q x) xs + count (λ x. p x && not (q x)) xs
  count-split p q [] = ground arith
  count-split p q (x ∷ xs) = ground (arith, count-split p q xs)

  pub count-le : (p q : A → Bool) (xs : List A) → count (λ x. p x && q x) xs ≤ count q xs
  count-le p q [] = ground arith
  count-le p q (x ∷ xs) = ground (arith, count-le p q xs)

  pub count-eq-zero :
      (p q : A → Bool) (xs : List A)
      → count q xs ≡ 0
      → ((x : A) → p x ≡ true → q x ≡ true)
      → count p xs ≡ 0
  count-eq-zero p q [] h k = refl
  count-eq-zero p q (x ∷ xs) h k = ground (arith, k x, count-eq-zero p q xs)

  -- A row that is there is counted.
  pub In-count : (p : A → Bool) (a : A) (xs : List A) → In a xs → p a ≡ true → 1 ≤ count p xs
  In-count p a [] i h = elim i [ ]
  In-count p a (x ∷ xs) (inl e) h = rw e (ground arith)
  In-count p a (x ∷ xs) (inr i) h = ground (arith, In-count p a xs i h)

  -- Where a key test holds of one row alone, a second test is counted by that row's answer.
  pub count_unique :
      (p key : A → Bool) (a : A) (xs : List A)
      → In a xs
      → key a ≡ true
      → count key xs ≤ 1
      → count (λ x. p x && key x) xs ≡ (if p a then 1 else 0)
  count_unique p key a [] i h u = elim i [ ]
  count_unique p key a (x ∷ xs) (inl e) h u = ground (arith, count-le p key xs)
  count_unique p key a (x ∷ xs) (inr i) h u =
      ground (arith, In-count key a xs i h, count_unique p key a xs i h)

  pub length-select : (p : A → Bool) (xs : List A) → length (select p xs) ≡ count p xs
  length-select p [] = refl
  length-select p (x ∷ xs) = ground (arith, length-select p xs)

  pub All-select : (p : A → Bool) (xs : List A) → All (λ x. p x ≡ true) (select p xs)
  All-select p [] = tt
  All-select p (x ∷ xs) = ground (arith, All-select p xs)
