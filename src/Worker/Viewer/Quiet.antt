-- ===== src/Worker/Viewer/Quiet.antt =====
-- What the collectors of data about a viewer do to the tables.
use shob_app.Prelude.{String, Option, ◌≡◌, refl, arith}
use shob_app.Store.Rows.{Dict}
use shob_app.Store.Effects.{M, World, Result, ok, throw, try_catch, pure}
use shob_app.Worker.Network.{Network}
use shob_app.Worker.Viewer.{collect_viewer_email, collect_viewer_info, with_organizations}

-- A step that changes no table.
abbrev pub Quiet : {A : Type 0} → M A → Type 0
Quiet m = (w : World) → (m w).1.db ≡ w.db

-- A step that returns.
abbrev pub Returns : {A : Type 0} → M A → Type 0
Returns {A} m = (w : World) → (a : A) × ((m w).0 ≡ ok a)

pub try_catch-Returns : {A : Type 0} (m : M A) (b : A) → Returns (try_catch m (λ e. pure b))
try_catch-Returns {A} m b w = go (m w)
  where
    go : (x : Result A × World) → (a : A) × ((try_catch (λ v. x) (λ e. pure b) w).0 ≡ ok a)
    go (ok a, v) = (a, refl)
    go (throw e, v) = (b, refl)

module _ (net : Network) where
  pub collect_viewer_email-Quiet : (url : Option String) → Quiet (collect_viewer_email net url)
  unfolding collect_viewer_email
  collect_viewer_email-Quiet url w = ground arith

  with_organizations-Quiet : (d : Dict) (url : String) → Quiet (with_organizations net d url)
  unfolding with_organizations
  with_organizations-Quiet d url w = ground arith

  pub collect_viewer_info-Quiet :
      (url organizations : Option String) → Quiet (collect_viewer_info net url organizations)
  unfolding collect_viewer_info
  collect_viewer_info-Quiet url organizations w = ground arith
