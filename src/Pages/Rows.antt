-- ===== src/Pages/Rows.antt =====
-- Which rows a page has.
use shob_app.Prelude.{
  ℕ, zero, suc, ◌≡◌, refl, Bool, true, not, List, [], ◌∷◌, arith, length, All, take, drop, ◌-◌, ◌*◌,
  ◌∙◌,
}
use shob_app.Store.Table.{count, select}
use shob_app.Store.Table.Counting.{length-select}
use shob_app.Pages.{Order, page_of}

module _ {A : Type 0} where
  All-take : (P : A → Type 0) (n : ℕ) (xs : List A) → All P xs → All P (take n xs)
  All-take P zero xs h = tt
  All-take P (suc n) [] h = tt
  All-take P (suc n) (x ∷ xs) (h, hs) = (h, All-take P n xs hs)

  All-drop : (P : A → Type 0) (n : ℕ) (xs : List A) → All P xs → All P (drop n xs)
  All-drop P zero xs h = h
  All-drop P (suc n) [] h = tt
  All-drop P (suc n) (x ∷ xs) (h, hs) = All-drop P n xs hs

  length-count : (xs : List A) → length xs ≡ count (λ x. true) xs
  length-count [] = refl
  length-count (x ∷ xs) = ground (arith, length-count xs)

  length_other : (p : A → Bool) (xs : List A) → count (λ x. not (p x)) (select p xs) ≡ 0
  length_other p [] = refl
  length_other p (x ∷ xs) = ground (arith, length_other p xs)

  zero_others :
      (p : A → Bool) (xs : List A) → count (λ x. not (p x)) xs ≡ 0 → All (λ x. p x ≡ true) xs
  zero_others p [] h = tt
  zero_others p (x ∷ xs) h = ground (arith, h, zero_others p xs)

  module _ (order : Order) (p : A → Bool) (rows : List A) where
    pub length-falling : length (order.falling A (select p rows)) ≡ count p rows
    length-falling =
        length-count (order.falling A (select p rows))
        ∙ order.falling_count A (λ x. true) (select p rows)
        ∙ ground (arith, length-count (select p rows), length-select p rows)

    -- Every row of a page is one that was asked for.
    pub page_of-All :
        (limit page : ℕ)
        → All (λ x. p x ≡ true) (page_of limit page (order.falling A (select p rows)))
    page_of-All limit page =
        All-take (λ x. p x ≡ true) limit
          (drop ((page - 1) * limit) (order.falling A (select p rows)))
          (All-drop (λ x. p x ≡ true) ((page - 1) * limit) (order.falling A (select p rows))
            (zero_others p (order.falling A (select p rows))
              (order.falling_count A (λ x. not (p x)) (select p rows) ∙ length_other p rows)))
