-- ===== src/Action/Numbering.antt =====
-- The steps of every workflow are 1, 2, …, n, each once: what inserting at the end, removing with
-- the gap closed, and retyping a row do to that.
pub mod Removal
pub mod Clearing
use shob_app.Prelude.{
  ℕ, suc, ◌+◌, ◌-◌, ◌≤◌, ◌≡◌, refl, sym, Bool, true, false, not, ◌&&◌, List, [], ◌∷◌, map, arith,
  if◌then◌else◌, ◌==◌, leb, ltb, In, inl, inr, Bool-cases, Option, subst, ==_iff,
}
use shob_app.Platform.{ActionTypes}
use shob_app.Store.Rows.{Action, Json}
use shob_app.Store.Table.{count, insert, delete_many, update_many}
use shob_app.Store.Table.Counting.{
  count-insert, count-ext, count-delete_many, count-update_many, count_unique, In-count, count-le,
  count-eq-zero,
}
use shob_app.Action.Service.{in_workflow}
use shob_app.Action.Service.Effects.{close_gap, retype}

-- How many rows of the workflow stand at a step.
abbrev pub at_step : ℕ → ℕ → Action → Bool
at_step workflow_id k a = in_workflow workflow_id a && a.step == k

abbrev pub with_id : ℕ → Action → Bool
with_id id a = a.id == id

abbrev pub IsNumbered : List Action → Type 0
IsNumbered t =
    (w k : ℕ)
    → count (at_step w k) t ≡ (if leb 1 k && leb k (count (in_workflow w) t) then 1 else 0)

abbrev pub HasUniqueIds : List Action → Type 0
HasUniqueIds t = (id : ℕ) → count (with_id id) t ≤ 1

-- The invariant of the table.
abbrev pub IsOrdered : List Action → Type 0
IsOrdered t = IsNumbered t × HasUniqueIds t

count-with_id_new :
    (id : ℕ) (t : List Action) → (In id (map (λ b. b.id) t) → ⊥) → count (with_id id) t ≡ 0
count-with_id_new id [] h = refl
count-with_id_new id (a ∷ t) h =
    ground (arith, count-with_id_new id t (λ i. h (inr i)), λ (e : a.id ≡ id). h (inl e))

pub insert-IsOrdered :
    (a : Action) (t : List Action)
    → IsOrdered t
    → a.step ≡ count (in_workflow a.workflow_id) t + 1
    → (In a.id (map (λ b. b.id) t) → ⊥)
    → IsOrdered (insert a t)
insert-IsOrdered a t (numbered, unique) step new = (
  λ w k.
      ground
        (arith, count-insert (at_step w k) a t, count-insert (in_workflow w) a t, numbered w k),
  λ id. ground (arith, count-insert (with_id id) a t, unique id, count-with_id_new a.id t new),
)

retype-same :
    (p : Action → Bool) (id : ℕ) (kind : ActionTypes) (config : Option Json) (t : List Action)
    → ((a : Action) → p (record a { kind = kind; config = config }) ≡ p a)
    → count p (retype id kind config t) ≡ count p t
retype-same p id kind config [] same = refl
retype-same p id kind config (a ∷ t) same =
    ground (arith, same a, retype-same p id kind config t same)

pub retype-IsOrdered :
    (id : ℕ) (kind : ActionTypes) (config : Option Json) (t : List Action)
    → IsOrdered t
    → IsOrdered (retype id kind config t)
retype-IsOrdered id kind config t (numbered, unique) = (
  λ w k. ground (
    arith,
    retype-same (at_step w k) id kind config t (λ a. refl),
    retype-same (in_workflow w) id kind config t (λ a. refl),
    numbered w k,
  ),
  λ i. ground (arith, retype-same (with_id i) id kind config t (λ a. refl), unique i),
)
