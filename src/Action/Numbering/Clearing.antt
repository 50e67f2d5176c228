-- ===== src/Action/Numbering/Clearing.antt =====
-- Removing all rows of some workflows.
use shob_app.Prelude.{
  ℕ, ◌≡◌, refl, ap, ◌∙◌, Bool, true, false, List, [], ◌∷◌, arith, ◌==◌, inl, inr, Bool-cases,
}
use shob_app.Store.Rows.{Action}
use shob_app.Store.Table.{count, delete_many}
use shob_app.Store.Table.Counting.{count-delete_many}
use shob_app.Action.Service.{in_workflow}
use shob_app.Action.Numbering.{at_step, with_id, IsOrdered}

module _ (q p : Action → Bool) where
  cleared_self :
      (t : List Action) → ((a : Action) → p a ≡ true → q a ≡ true) → count p (delete_many q t) ≡ 0
  cleared_self [] h = refl
  cleared_self (a ∷ t) h = ground (arith, h a, cleared_self t h)

  cleared-other :
      (t : List Action)
      → ((a : Action) → p a ≡ true → q a ≡ false)
      → count p (delete_many q t) ≡ count p t
  cleared-other [] h = refl
  cleared-other (a ∷ t) h = ground (arith, h a, cleared-other t h)

-- The rows of the workflows that a test on their ids selects.
abbrev pub of_workflows : (ℕ → Bool) → Action → Bool
of_workflows g a = g a.workflow_id

same_answer :
    (g : ℕ → Bool) (v : ℕ) (b : Bool) (a : Action)
    → g v ≡ b
    → in_workflow v a ≡ true
    → of_workflows g a ≡ b
same_answer g v b a h e = let same : a.workflow_id ≡ v = ground (arith, e) in ap g same ∙ h

pub clear_where-IsOrdered :
    (g : ℕ → Bool) (t : List Action) → IsOrdered t → IsOrdered (delete_many (of_workflows g) t)
clear_where-IsOrdered g t inv = (
  λ v k. elim (Bool-cases (g v)) [
    | inl gone ↦ ground (
      arith,
      cleared_self (of_workflows g) (at_step v k) t
          (λ a h. same_answer g v true a gone (ground (arith, h))),
      cleared_self (of_workflows g) (in_workflow v) t (λ a h. same_answer g v true a gone h),
    )
    | inr stays ↦ ground (
      arith,
      cleared-other (of_workflows g) (at_step v k) t
          (λ a h. same_answer g v false a stays (ground (arith, h))),
      cleared-other (of_workflows g) (in_workflow v) t (λ a h. same_answer g v false a stays h),
      inv.0 v k,
    )
  ],
  λ j. ground (arith, count-delete_many (with_id j) (of_workflows g) t, inv.1 j),
)

pub clear-IsOrdered :
    (w : ℕ) (t : List Action) → IsOrdered t → IsOrdered (delete_many (in_workflow w) t)
clear-IsOrdered w t h = clear_where-IsOrdered (λ v. v == w) t h
