-- ===== src/RateLimit/Uncached.antt =====
-- The guard without a cache: a new limiter for each request.
use shob_app.Prelude.{
  ℕ, ◌≡◌, refl, inl, inr, true, some, none, List, [], ◌∷◌, map, All, arith, if◌then◌else◌,
  Option-cases, Bool-cases, str_eq_iff,
}
use shob_app.RateLimit.{
  RateLimitOptions, RouteKey, HttpRequest, Limiter, LimiterKey, Limiters, Consume, Verdict,
  same_route, same_key, get_route_key, config_of, identity_of, key_of, new_limiter, get,
  get_limiter, skips, verdict_of, can_activate,
}

module _ (consume : Consume) where
  abbrev pub uncached : ℕ × HttpRequest → Verdict
  uncached (n, r) =
      if skips r
      then Verdict.pass
      else verdict_of
          (consume n (new_limiter (get_route_key r) (config_of r)) (get_route_key r, identity_of r))

  -- The verdicts of the guard on requests, one after another.
  abbrev pub verdicts : List (ℕ × HttpRequest) → Limiters → List Verdict
  verdicts [] ls = []
  verdicts ((n, r) ∷ rs) ls =
      (can_activate consume n r ls).0 ∷ verdicts rs (can_activate consume n r ls).1

abbrev options_of : LimiterKey → RateLimitOptions
options_of k = record { points = k.points; duration = k.duration; block_duration = none }

-- Each limiter is the one that a request without a block duration makes.
abbrev IsExact : Limiters → Type 0
IsExact ls = All (λ p. p.1 ≡ new_limiter p.0.route (options_of p.0)) ls

same_route-eq : (r s : RouteKey) → same_route r s ≡ true → r ≡ s
same_route-eq (RouteKey.path m p) (RouteKey.path n q) h =
    let e : m ≡ n = (str_eq_iff m n).0 (ground (arith, h)) in
    let f : p ≡ q = (str_eq_iff p q).0 (ground (arith, h)) in cc
same_route-eq (RouteKey.handler m p) (RouteKey.handler n q) h =
    let e : m ≡ n = (str_eq_iff m n).0 (ground (arith, h)) in
    let f : p ≡ q = (str_eq_iff p q).0 (ground (arith, h)) in cc
same_route-eq (RouteKey.path m p) (RouteKey.handler n q) h = absurd (ground (arith, h))
same_route-eq (RouteKey.handler m p) (RouteKey.path n q) h = absurd (ground (arith, h))

get-exact :
    (route : RouteKey) (config : RateLimitOptions) (ls : Limiters) (l : Limiter)
    → config.block_duration ≡ none
    → IsExact ls
    → get (key_of route config) ls ≡ some l
    → l ≡ new_limiter route config
get-exact route config [] l b h e = absurd (ground (arith, e))
get-exact route config ((k, m) ∷ ls) l b (exact, hs) e =
    elim (Bool-cases (same_key k (key_of route config))) [
      | inl same ↦
          let r : k.route ≡ route = same_route-eq k.route route (ground (arith, same)) in
          let p : k.points ≡ config.points = ground (arith, same) in
          let d : k.duration ≡ config.duration = ground (arith, same) in
          ground (arith, e, same, exact, r, p, d, b)
      | inr other ↦ get-exact route config ls l b hs (ground (arith, e, other))
    ]

module _ (consume : Consume) where
  can_activate-uncached :
      (n : ℕ) (r : HttpRequest) (ls : Limiters)
      → (config_of r).block_duration ≡ none
      → IsExact ls
      → ((can_activate consume n r ls).0 ≡ uncached consume (n, r))
        × IsExact (can_activate consume n r ls).1
  unfolding can_activate get_limiter
  can_activate-uncached n r ls b h = elim (Bool-cases (skips r)) [
    | inl skipped ↦ ground (arith, skipped, h)
    | inr counted ↦ elim (Option-cases (get (key_of (get_route_key r) (config_of r)) ls)) [
      | inl new ↦ ground (arith, counted, new, h, b)
      | inr (l, found) ↦
          let exact : l ≡ new_limiter (get_route_key r) (config_of r) =
            get-exact (get_route_key r) (config_of r) ls l b h found in
          ground (arith, counted, found, h, exact)
    ]
  ]

  verdicts_from :
      (rs : List (ℕ × HttpRequest)) (ls : Limiters)
      → All (λ p. (config_of p.1).block_duration ≡ none) rs
      → IsExact ls
      → verdicts consume rs ls ≡ map (uncached consume) rs
  verdicts_from [] ls b h = refl
  verdicts_from ((n, r) ∷ rs) ls (b, bs) h =
      let (same, exact) = can_activate-uncached n r ls b h in
      ground (arith, same, verdicts_from rs (can_activate consume n r ls).1 bs exact)

  -- If no route of the requests has a block duration, the guard with its cache, which is empty at
  -- first, judges the requests, one after another, as a guard that makes a new limiter for each
  -- request.
  pub verdicts-uncached :
      (rs : List (ℕ × HttpRequest))
      → All (λ p. (config_of p.1).block_duration ≡ none) rs
      → verdicts consume rs [] ≡ map (uncached consume) rs
  verdicts-uncached rs b = verdicts_from rs [] b tt
