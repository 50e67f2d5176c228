-- ===== src/Flow/Listing.antt =====
-- The pages of a user's workflows.
use shob_app.Prelude.{ℕ, ◌≡◌, ◌≤◌, ◌<◌, refl, false, Option, List, arith, Bool-cases, inl, inr, leb}
use shob_app.Store.Rows.{Db, Workflow}
use shob_app.Store.Table.{count, select}
use shob_app.Store.Effects.{Prisma, World, Result, ok, throw}
use shob_app.Worker.Base.Journal.{IsFaultless}
use shob_app.Pages.{
  Order, Pagination, Parsed, list_page, clamped, max_limit_of, paged, total_pages_of,
}
use shob_app.Pages.Walk.{walk, walk_all}
use shob_app.Pages.Listed.{Listed, list_page-Listed}
use shob_app.Flow.Endpoints.{is_of, get_all_workflow, get_all_workflow_route}

-- Where no database call throws and the limit is positive, the rows of the pages from 1 to the
-- number of pages, one after another, are all workflows of the user in the order of the listing.
pub walk-get_all_workflow :
    (prisma : Prisma) (order : Order) (user_id limit : ℕ) (w : World)
    → IsFaultless prisma
    → 1 ≤ limit
    → (walk
        (get_all_workflow prisma order user_id limit)
        (total_pages_of (count (is_of user_id) w.db.workflows) limit)
        w).0
      ≡ ok (order.falling Workflow (select (is_of user_id) w.db.workflows))
unfolding get_all_workflow
walk-get_all_workflow prisma order user_id limit w faultless h =
    walk_all prisma faultless order (λ d. d.workflows) (is_of user_id) limit w h

clamped_positive : (p : Parsed) (default : ℕ) → 1 ≤ clamped p default
clamped_positive Parsed.nan default = omega arith
clamped_positive Parsed.negative default = omega arith
clamped_positive (Parsed.natural n) default = ground arith

-- The page that was asked for, with fewer rows than the configured number.
abbrev pub Served :
    Order
    → ℕ
    → Option ℕ
    → Parsed
    → Parsed
    → Db
    → Result (List Workflow × Pagination) × World
    → Type 0
Served order user_id max_limit page limit d (ok answer, w) =
    (clamped limit 10 < max_limit_of max_limit)
    × Listed order (is_of user_id) d.workflows (clamped limit 10) (clamped page 1) d (ok answer, w)
Served order user_id max_limit page limit d (throw e, w) = w.db ≡ d

-- An answer to a request for a page of workflows has a limit below the configured one, at most so
-- many rows, all of them of the user and those that the page has in the order of the listing, the
-- number of all of them, and a next page exactly if the page is below the number of pages. No
-- table is changed, also by a request that throws.
pub get_all_workflow_route-Served :
    (prisma : Prisma) (order : Order) (max_limit : Option ℕ) (page limit : Parsed) (user_id : ℕ)
    (w : World)
    → Served order user_id max_limit page limit w.db
        (get_all_workflow_route prisma order max_limit page limit user_id w)
unfolding get_all_workflow_route get_all_workflow paged
get_all_workflow_route-Served prisma order max_limit page limit user_id w =
    elim (Bool-cases (leb (max_limit_of max_limit) (clamped limit 10))) [
      | inl too_big ↦ ground (arith, too_big)
      | inr fine ↦
          go
            (list_page prisma order (λ d. d.workflows) (is_of user_id) (clamped limit 10)
              (clamped page 1) w)
            refl
            (list_page-Listed prisma order (λ d. d.workflows) (is_of user_id) (clamped limit 10)
              (clamped page 1) w (clamped_positive limit 10))
            fine
    ]
  where
    go :
        (x : Result (List Workflow × Pagination) × World)
        → list_page prisma order
            (λ d. d.workflows)
            (is_of user_id)
            (clamped limit 10)
            (clamped page 1)
            w
          ≡ x
        → Listed order (is_of user_id) w.db.workflows (clamped limit 10) (clamped page 1) w.db x
        → leb (max_limit_of max_limit) (clamped limit 10) ≡ false
        → Served order user_id max_limit page limit w.db
            (get_all_workflow_route prisma order max_limit page limit user_id w)
    go (ok a, v) e h fine = ground (arith, e, h, fine)
    go (throw x, v) e h fine = ground (arith, e, h, fine)
