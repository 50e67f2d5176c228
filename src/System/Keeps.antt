-- ===== src/System/Keeps.antt =====
-- Steps that keep the actions in order, and rules for the ways to build them.
use shob_app.Prelude.{
  ◌≡◌, subst, sym, Bool, true, false, Option, some, none, if◌then◌else◌, any, ◌&&◌, ◌==◌,
}
use shob_app.Store.Rows.{Db, Workflow}
use shob_app.Store.Cascade.{delete_workflows}
use shob_app.Store.Effects.{M, World, Result, Exception, ok, throw, pure, throw_if, or_throw, ◌>>=◌}
use shob_app.Store.Effects.Http.{as_http}
use shob_app.Action.Numbering.{IsOrdered}
use shob_app.Action.Numbering.Clearing.{clear_where-IsOrdered}

-- The actions are as before.
abbrev pub Untouched : {A : Type 0} → M A → Type 0
Untouched m = (w : World) → (m w).1.db.actions ≡ w.db.actions

abbrev pub Keeps : {A : Type 0} → M A → Type 0
Keeps m = (w : World) → IsOrdered w.db.actions → IsOrdered (m w).1.db.actions

pub Untouched-Keeps : {A : Type 0} (m : M A) → Untouched m → Keeps m
Untouched-Keeps m same w h = subst IsOrdered (sym (same w)) h

pub bind-Keeps :
    {A B : Type 0} (m : M A) (k : A → M B) → Keeps m → ((a : A) → Keeps (k a)) → Keeps (m >>= k)
bind-Keeps {A} {B} m k h g w i = go (m w) (h w i)
  where
    go :
        (x : Result A × World)
        → IsOrdered x.1.db.actions
        → IsOrdered (◌>>=◌ (λ v. x) k w).1.db.actions
    go (ok a, v) j = g a v j
    go (throw e, v) j = j

pub as_http-Keeps : {A : Type 0} (m : M A) → Keeps m → Keeps (as_http m)
as_http-Keeps {A} m h w i = go (m w) (h w i)
  where
    go :
        (x : Result A × World)
        → IsOrdered x.1.db.actions
        → IsOrdered (as_http (λ v. x) w).1.db.actions
    go (ok a, v) j = j
    go (throw e, v) j = j

pub pure-Keeps : {A : Type 0} (a : A) → Keeps (pure a)
pure-Keeps a w h = h

pub throw_if-Keeps : (c : Bool) (e : Exception) → Keeps (throw_if c e)
throw_if-Keeps true e w h = h
throw_if-Keeps false e w h = h

pub or_throw-Keeps : {A : Type 0} (o : Option A) (e : Exception) → Keeps (or_throw o e)
or_throw-Keeps none e w h = h
or_throw-Keeps (some a) e w h = h

pub if-Keeps : {A : Type 0} (b : Bool) (m n : M A) → Keeps m → Keeps n → Keeps (if b then m else n)
if-Keeps true m n h k = h
if-Keeps false m n h k = k

pub delete_workflows-IsOrdered :
    (p : Workflow → Bool) (d : Db) → IsOrdered d.actions → IsOrdered (delete_workflows p d).actions
delete_workflows-IsOrdered p d h =
    clear_where-IsOrdered (λ v. any (λ w. p w && w.id == v) d.workflows) d.actions h
