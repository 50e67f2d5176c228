-- ===== src/System/Listings.antt =====
-- The listings, against the order of the actions.
use shob_app.Prelude.{ℕ, List, arith, Option, Bool, leb}
use shob_app.Store.Rows.{Db}
use shob_app.Store.Effects.{M, Prisma, throw_if, bad_request, ◌>>◌}
use shob_app.Pages.{Order, Pagination, Parsed, list_page, paged, clamped, max_limit_of}
use shob_app.System.Keeps.{Untouched, Keeps, bind-Keeps, as_http-Keeps, throw_if-Keeps}

pub list_page-Untouched :
    {A : Type 0} (prisma : Prisma) (order : Order) (table : Db → List A) (p : A → Bool)
    (limit page : ℕ)
    → Untouched (list_page prisma order table p limit page)
unfolding list_page
list_page-Untouched prisma order table p limit page w = ground arith

module _ (prisma : Prisma) where
  pub paged-Keeps :
      {A : Type 0} (max_limit : Option ℕ) (page limit : Parsed)
      (service : ℕ → ℕ → M (List A × Pagination))
      → ((l p : ℕ) → Keeps (service l p))
      → Keeps (paged max_limit page limit service)
  unfolding paged
  paged-Keeps max_limit page limit service h =
      as_http-Keeps
        (throw_if (leb (max_limit_of max_limit) (clamped limit 10)) bad_request
          >> service (clamped limit 10) (clamped page 1))
        (bind-Keeps (throw_if (leb (max_limit_of max_limit) (clamped limit 10)) bad_request)
          (λ u. service (clamped limit 10) (clamped page 1))
          (throw_if-Keeps (leb (max_limit_of max_limit) (clamped limit 10)) bad_request)
          (λ u. h (clamped limit 10) (clamped page 1)))
