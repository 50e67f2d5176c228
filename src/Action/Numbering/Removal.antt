-- ===== src/Action/Numbering/Removal.antt =====
-- Removing one row and moving the later steps of its workflow down by one.
use shob_app.Prelude.{
  ℕ, ◌+◌, ◌-◌, ◌≤◌, ◌≡◌, refl, Bool, true, false, ◌&&◌, List, [], ◌∷◌, arith, if◌then◌else◌, ◌==◌,
  leb, ltb, In, inl, inr, Bool-cases, subst, ==_iff,
}
use shob_app.Store.Rows.{Action}
use shob_app.Store.Table.{count, delete_many}
use shob_app.Store.Table.Counting.{count-delete_many, count_unique, In-count}
use shob_app.Action.Service.{in_workflow}
use shob_app.Action.Service.Effects.{close_gap}
use shob_app.Action.Numbering.{at_step, with_id, HasUniqueIds, IsOrdered}

-- Counting after one row, found by its id, is gone.
count-removed :
    (p : Action → Bool) (a : Action) (id : ℕ) (t : List Action)
    → HasUniqueIds t
    → In a t
    → with_id id a ≡ true
    → count p (delete_many (with_id id) t) + (if p a then 1 else 0) ≡ count p t
count-removed p a id t unique i e =
    ground
      (arith, count-delete_many p (with_id id) t, count_unique p (with_id id) a t i e (unique id))

module _ (w s : ℕ) where
  close_gap-other :
      (v k : ℕ) (t : List Action)
      → (w == v) ≡ false
      → count (at_step v k) (close_gap w s t) ≡ count (at_step v k) t
  close_gap-other v k [] h = refl
  close_gap-other v k (a ∷ t) h = ground (arith, close_gap-other v k t h)

  close_gap-below :
      (k : ℕ) (t : List Action)
      → ltb k s ≡ true
      → count (at_step w k) (close_gap w s t) ≡ count (at_step w k) t
  close_gap-below k [] h = refl
  close_gap-below k (a ∷ t) h = ground (arith, close_gap-below k t h)

  close_gap-above :
      (k : ℕ) (t : List Action)
      → ltb k s ≡ false
      → count (at_step w s) t ≡ 0
      → count (at_step w k) (close_gap w s t) ≡ count (at_step w (k + 1)) t
  close_gap-above k [] h none_at = refl
  close_gap-above k (a ∷ t) h none_at = ground (arith, close_gap-above k t h)

  close_gap-same :
      (p : Action → Bool) (t : List Action)
      → ((a : Action) (k : ℕ) → p (record a { step = k }) ≡ p a)
      → count p (close_gap w s t) ≡ count p t
  close_gap-same p [] same = refl
  close_gap-same p (a ∷ t) same = ground (arith, same a (a.step - 1), close_gap-same p t same)

module _ (a : Action) (id : ℕ) (t : List Action) (inv : IsOrdered t) (i : In a t)
    (e : with_id id a ≡ true) where
  abbrev w : ℕ
  w = a.workflow_id

  abbrev rest : List Action
  rest = delete_many (with_id id) t

  -- The row stands at a step from 1 to n, and was alone there.
  step_bounds :
      (1 ≤ a.step) × (a.step ≤ count (in_workflow w) t) × (count (at_step w a.step) rest ≡ 0)
  step_bounds =
      let self : at_step w a.step a ≡ true = ground arith in
      let mem = In-count (at_step w a.step) a t i self in
      let gone = count-removed (at_step w a.step) a id t inv.1 i e in
      let here = inv.0 w a.step in
      (ground (arith, mem, here), ground (arith, mem, here), ground (arith, mem, here, gone))

  remove-IsNumbered_here :
      (k : ℕ)
      → count (at_step w k) (close_gap w a.step rest)
        ≡ (if leb 1 k && leb k (count (in_workflow w) (close_gap w a.step rest)) then 1 else 0)
  remove-IsNumbered_here k =
      let (low, high, alone) = step_bounds in
      let total = close_gap-same w a.step (in_workflow w) rest (λ b k. refl) in
      let fewer = count-removed (in_workflow w) a id t inv.1 i e in
      elim (Bool-cases (ltb k a.step)) [
        | inl below ↦ ground (
          arith,
          low,
          high,
          total,
          fewer,
          close_gap-below w a.step k rest below,
          count-removed (at_step w k) a id t inv.1 i e,
          inv.0 w k,
        )
        | inr above ↦ ground (
          arith,
          low,
          high,
          total,
          fewer,
          close_gap-above w a.step k rest above alone,
          count-removed (at_step w (k + 1)) a id t inv.1 i e,
          inv.0 w (k + 1),
        )
      ]

  remove-IsNumbered_other :
      (v k : ℕ)
      → (w == v) ≡ false
      → count (at_step v k) (close_gap w a.step rest)
        ≡ (if leb 1 k && leb k (count (in_workflow v) (close_gap w a.step rest)) then 1 else 0)
  remove-IsNumbered_other v k differs = ground (
    arith,
    close_gap-same w a.step (in_workflow v) rest (λ b k. refl),
    close_gap-other w a.step v k rest differs,
    count-removed (in_workflow v) a id t inv.1 i e,
    count-removed (at_step v k) a id t inv.1 i e,
    inv.0 v k,
  )

  pub remove-IsOrdered : IsOrdered (close_gap w a.step rest)
  remove-IsOrdered = (
    λ v k. elim (Bool-cases (w == v)) [
      | inl same ↦
          subst
            (λ u. count (at_step u k) (close_gap w a.step rest) ≡ (
              if leb 1 k && leb k (count (in_workflow u) (close_gap w a.step rest)) then 1 else 0))
            ((==_iff w v).0 same) (remove-IsNumbered_here k)
      | inr differs ↦ remove-IsNumbered_other v k differs
    ],
    λ j. ground (
      arith,
      close_gap-same w a.step (with_id j) rest (λ b k. refl),
      count-removed (with_id j) a id t inv.1 i e,
      inv.1 j,
    ),
  )
