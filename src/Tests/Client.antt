-- ===== src/Tests/Client.antt =====
-- A client that never throws: `findFirst` gives the first row, `orderBy` sorts by insertion, and a
-- new id is one more than the sum of the others.
use shob_app.Prelude.{
  ℕ, suc, ◌+◌, ◌≤◌, ◌≡◌, refl, Bool, true, Option, some, none, List, [], ◌∷◌, if◌then◌else◌, leb,
  In, All, inl, inr, arith, ap, sym, ◌∙◌, Bool-cases,
}
use shob_app.Store.Table.{count}
use shob_app.Store.Effects.{Prisma, Ascending}

module _ {A : Type 0} where
  abbrev pub first_row : (A → Bool) → List A → Option A
  first_row p [] = none
  first_row p (x ∷ xs) = if p x then some x else first_row p xs

  pub first_row-some :
      (p : A → Bool) (xs : List A) (a : A) → first_row p xs ≡ some a → In a xs × (p a ≡ true)
  first_row-some p [] a e = absurd (ground (arith, e))
  first_row-some p (x ∷ xs) a e = elim (Bool-cases (p x)) [
    | inl holds ↦ let same : x ≡ a = ground (arith, e, holds) in (inl same, sym (ap p same) ∙ holds)
    | inr fails ↦ let (i, h) = first_row-some p xs a (ground (arith, e, fails)) in (inr i, h)
  ]

  pub first_row-none : (p : A → Bool) (xs : List A) → first_row p xs ≡ none → count p xs ≡ 0
  first_row-none p [] e = refl
  first_row-none p (x ∷ xs) e = ground (arith, first_row-none p xs)

  module _ (key : A → ℕ) where
    abbrev pub place : A → List A → List A
    place a [] = a ∷ []
    place a (x ∷ xs) = let rest = place a xs in if leb (key a) (key x) then a ∷ x ∷ xs else x ∷ rest

    abbrev pub sort : List A → List A
    sort [] = []
    sort (x ∷ xs) = place x (sort xs)

    count-place : (p : A → Bool) (a : A) (xs : List A) → count p (place a xs) ≡ count p (a ∷ xs)
    count-place p a [] = refl
    count-place p a (x ∷ xs) = ground (arith, count-place p a xs)

    pub count-sort : (p : A → Bool) (xs : List A) → count p (sort xs) ≡ count p xs
    count-sort p [] = refl
    count-sort p (x ∷ xs) = ground (arith, count-place p x (sort xs), count-sort p xs)

    All-le : (n m : ℕ) (xs : List A) → n ≤ m → All (λ y. m ≤ key y) xs → All (λ y. n ≤ key y) xs
    All-le n m [] h k = tt
    All-le n m (x ∷ xs) h (k, ks) = (ground (arith, h, k), All-le n m xs h ks)

    All-place :
        (n : ℕ) (a : A) (xs : List A)
        → n ≤ key a
        → All (λ y. n ≤ key y) xs
        → All (λ y. n ≤ key y) (place a xs)
    All-place n a [] h k = (h, tt)
    All-place n a (x ∷ xs) h (k, ks) = ground (arith, h, k, ks, All-place n a xs h ks)

    place-Ascending : (a : A) (xs : List A) → Ascending key xs → Ascending key (place a xs)
    place-Ascending a [] h = (tt, tt)
    place-Ascending a (x ∷ xs) (above, h) = elim (Bool-cases (leb (key a) (key x))) [
      | inl small ↦ ground (arith, small, above, h, All-le (key a) (key x) xs)
      | inr large ↦ ground (arith, large, All-place (key x) a xs, place-Ascending a xs h)
    ]

    pub sort-Ascending : (xs : List A) → Ascending key (sort xs)
    sort-Ascending [] = tt
    sort-Ascending (x ∷ xs) = place-Ascending x (sort xs) (sort-Ascending xs)

abbrev pub total : List ℕ → ℕ
total [] = 0
total (n ∷ ns) = n + total ns

In-total : (n : ℕ) (ns : List ℕ) → In n ns → n ≤ total ns
In-total n [] i = elim i [ ]
In-total n (m ∷ ns) (inl e) = ground (arith, e)
In-total n (m ∷ ns) (inr i) = ground (arith, In-total n ns i)

pub total-new : (ids : List ℕ) → In (suc (total ids)) ids → ⊥
total-new ids i = absurd (ground (arith, In-total (suc (total ids)) ids i))

abbrev pub client : Prisma
client = record {
  fault = λ n. none;
  find_first = λ A p xs. first_row p xs;
  find_first_some = λ A p xs a e. first_row-some p xs a e;
  find_first_none = λ A p xs e. first_row-none p xs e;
  order_by = λ A key xs. sort key xs;
  order_by_ascending = λ A key xs. sort-Ascending key xs;
  order_by_count = λ A key xs p. count-sort key p xs;
  cuid = λ ids. suc (total ids);
  cuid_new = total-new;
}
