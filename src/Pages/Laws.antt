-- ===== src/Pages/Laws.antt =====
-- The pages of a listing, one after another, against the whole list.
use shob_app.Prelude.{
  ℕ, zero, suc, ◌+◌, ◌-◌, ◌*◌, ◌%◌, ◌≤◌, ◌<◌, ◌↔◌, ◌≡◌, refl, sym, ap, ◌∙◌, true, List, [], ◌∷◌,
  ◌++◌, arith, ltb, leb, take, drop, length, Bool-cases, inl, inr, leb→le,
}
use native.Mathlib.Numerals.{unary_clauses}
use native.Mathlib.Nat.{div-add-mod, mod-lt, mul-le-mul_right}
use shob_app.Pages.{page_of, total_pages_of}

-- The pages 1, …, n.
abbrev pub pages_up_to : {A : Type 0} → ℕ → ℕ → List A → List A
pages_up_to limit zero rows = []
pages_up_to limit (suc n) rows = pages_up_to limit n rows ++ page_of limit (suc n) rows

module _ {A : Type 0} where
  pub take_all : (n : ℕ) (xs : List A) → length xs ≤ n → take n xs ≡ xs
  take_all zero [] h = refl
  take_all zero (x ∷ xs) h = absurd (omega arith)
  take_all (suc n) [] h = refl
  take_all (suc n) (x ∷ xs) h = ap (λ ys. x ∷ ys) (take_all n xs (omega arith))

  drop_all : (n : ℕ) (xs : List A) → length xs ≤ n → drop n xs ≡ []
  drop_all zero [] h = refl
  drop_all zero (x ∷ xs) h = absurd (omega arith)
  drop_all (suc n) [] h = refl
  drop_all (suc n) (x ∷ xs) h = drop_all n xs (omega arith)

  pub length-take_le : (n : ℕ) (xs : List A) → length (take n xs) ≤ n
  length-take_le zero xs = omega arith
  length-take_le (suc n) [] = omega arith
  length-take_le (suc n) (x ∷ xs) = omega (arith, length-take_le n xs)

  take-add : (n m : ℕ) (xs : List A) → take (n + m) xs ≡ take n xs ++ take m (drop n xs)
  take-add zero m xs = ap (λ k. take k xs) (omega arith)
  take-add (suc n) zero [] = simp unary_clauses refl
  take-add (suc n) (suc m) [] = simp unary_clauses refl
  take-add (suc n) m (x ∷ xs) =
      let step : suc n + m ≡ suc (n + m) = omega arith in
      ap (λ k. take k (x ∷ xs)) step ∙ ap (λ ys. x ∷ ys) (take-add n m xs)

  length-drop : (n : ℕ) (xs : List A) → length (drop n xs) ≡ length xs - n
  length-drop zero xs = omega arith
  length-drop (suc n) [] = omega arith
  length-drop (suc n) (x ∷ xs) = omega (arith, length-drop n xs)

  pub pages_up_to-take :
      (limit n : ℕ) (rows : List A) → pages_up_to limit n rows ≡ take (n * limit) rows
  pages_up_to-take limit zero rows =
      let none_skipped : 0 ≡ 0 * limit = omega arith in ap (λ k. take k rows) none_skipped
  pages_up_to-take limit (suc n) rows =
      ap (λ pages. pages ++ take limit (drop ((suc n - 1) * limit) rows))
        (pages_up_to-take limit n rows)
      ∙ (let same : (suc n - 1) * limit ≡ n * limit = ap (λ k. k * limit) (omega arith) in
          ap (λ k. take (n * limit) rows ++ take limit (drop k rows)) same)
      ∙ sym (take-add (n * limit) limit rows)
      ∙ ap (λ k. take k rows) (omega arith)

pub total_pages_bounds :
    (total limit : ℕ)
    → 1 ≤ limit
    → (total ≤ total_pages_of total limit * limit)
      × (total_pages_of total limit * limit < total + limit)
total_pages_bounds total limit h =
    let rest : (total + (limit - 1)) % limit < limit =
      mod-lt (total + (limit - 1)) (omega (arith, h)) in
    (
      omega (arith, div-add-mod (total + (limit - 1)) limit, rest),
      omega (arith, div-add-mod (total + (limit - 1)) limit, rest),
    )

-- A page but the last is followed by one that is not empty.
pub has_next_page_iff :
    (total limit page : ℕ)
    → 1 ≤ limit
    → (ltb (page * limit) total ≡ true) ↔ (page < total_pages_of total limit)
has_next_page_iff total limit page h =
    let (enough, not_more) = total_pages_bounds total limit h in
    (
      λ more. elim (Bool-cases (leb (total_pages_of total limit) page)) [
        | inl last ↦ absurd (
            ground (
              arith,
              mul-le-mul_right limit (leb→le (total_pages_of total limit) page last),
              enough,
              more,
            ))
        | inr fewer ↦ ground (arith, fewer)
      ],
      λ more.
          let before : suc page * limit ≤ total_pages_of total limit * limit =
            mul-le-mul_right limit more in
          ground (arith, before, not_more),
    )
