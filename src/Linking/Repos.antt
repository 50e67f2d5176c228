-- ===== src/Linking/Repos.antt =====
-- The listing of repositories of github.service.ts (getAllUserRepo) and its route.
use shob_app.Prelude.{ℕ, Option, List, Bool, ◌==◌}
use shob_app.Store.Rows.{GithubConnection, GithubRepo}
use shob_app.Store.Effects.{M, Prisma, not_found, query, or_throw, ◌>>=◌}
use shob_app.Linking.{is_owner}
use shob_app.Pages.{Order, Pagination, Parsed, list_page, paged}

-- where: { userId }
abbrev pub connection_of : ℕ → GithubConnection → Bool
connection_of user_id c = is_owner user_id c.user_id

-- where: { GithubConnectionsId }
abbrev pub of_connection : ℕ → GithubRepo → Bool
of_connection id r = r.connection_id == id

module _ (prisma : Prisma) (order : Order) where
  unfoldable pub get_all_user_repo : ℕ → ℕ → ℕ → M (List GithubRepo × Pagination)
  get_all_user_repo user_id limit page = do
    found ←
        query prisma (λ d. prisma.find_first GithubConnection (connection_of user_id) d.connections)
    connection ← or_throw found not_found
    list_page prisma order (λ d. d.repos) (of_connection connection.id) limit page

  unfoldable pub get_all_user_repo_route :
      Option ℕ → Parsed → Parsed → ℕ → M (List GithubRepo × Pagination)
  get_all_user_repo_route max_limit page limit user_id =
      paged max_limit page limit (get_all_user_repo user_id)
