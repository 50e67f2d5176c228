-- ===== src/RateLimit/Laws.antt =====
-- That a request is counted by a limiter with the numbers of its own route.
use shob_app.Prelude.{
  ℕ, ◌≡◌, refl, ◌⊎◌, inl, inr, true, false, some, List, [], ◌∷◌, All, arith, Option-cases,
  Bool-cases, str_eq_iff,
}
use shob_app.RateLimit.{
  RateLimitOptions, RouteKey, HttpRequest, Limiter, Limiters, Consume, Verdict, same_route,
  same_key, get_route_key, config_of, identity_of, key_of, get, get_limiter, skips, can_activate,
  serve_requests, verdict_of,
}

-- Each limiter has the numbers of its key.
abbrev pub IsCache : Limiters → Type 0
IsCache ls =
    All
      (λ p.
        (p.1.key_prefix ≡ p.0.route) × (p.1.points ≡ p.0.points) × (p.1.duration ≡ p.0.duration))
      ls

-- A limiter for this route, with the numbers of this configuration.
abbrev pub Fits : RouteKey → RateLimitOptions → Limiter → Type 0
Fits route config l =
    (same_route l.key_prefix route ≡ true)
    × (l.points ≡ config.points)
    × (l.duration ≡ config.duration)

same_route_self : (r : RouteKey) → same_route r r ≡ true
same_route_self (RouteKey.path m p) =
    ground (arith, (str_eq_iff m m).1 refl, (str_eq_iff p p).1 refl)
same_route_self (RouteKey.handler m p) =
    ground (arith, (str_eq_iff m m).1 refl, (str_eq_iff p p).1 refl)

get-Fits :
    (route : RouteKey) (config : RateLimitOptions) (ls : Limiters) (l : Limiter)
    → IsCache ls
    → get (key_of route config) ls ≡ some l
    → Fits route config l
get-Fits route config [] l h e = absurd (ground (arith, e))
get-Fits route config ((k, m) ∷ ls) l ((prefix, points, duration), hs) e =
    elim (Bool-cases (same_key k (key_of route config))) [
      | inl same ↦ ground (arith, e, same, prefix, points, duration)
      | inr other ↦ get-Fits route config ls l hs (ground (arith, e, other))
    ]

get_limiter-Fits :
    (route : RouteKey) (config : RateLimitOptions) (ls : Limiters)
    → IsCache ls
    → Fits route config (get_limiter route config ls).0 × IsCache (get_limiter route config ls).1
unfolding get_limiter
get_limiter-Fits route config ls h = elim (Option-cases (get (key_of route config) ls)) [
  | inl new ↦ ground (arith, new, h, same_route_self route)
  | inr (l, found) ↦ ground (arith, found, h, get-Fits route config ls l h found)
]

module _ (consume : Consume) where
  can_activate-IsCache :
      (n : ℕ) (r : HttpRequest) (ls : Limiters)
      → IsCache ls
      → IsCache (can_activate consume n r ls).1
  unfolding can_activate
  can_activate-IsCache n r ls h = elim (Bool-cases (skips r)) [
    | inl skipped ↦ ground (arith, skipped, h)
    | inr counted ↦
        ground (arith, counted, (get_limiter-Fits (get_route_key r) (config_of r) ls h).1)
  ]

  serve_requests-IsCache :
      (rs : List (ℕ × HttpRequest)) (ls : Limiters)
      → IsCache ls
      → IsCache (serve_requests consume rs ls)
  unfolding serve_requests
  serve_requests-IsCache [] ls h = h
  serve_requests-IsCache ((n, r) ∷ rs) ls h =
      serve_requests-IsCache rs (can_activate consume n r ls).1 (can_activate-IsCache n r ls h)

  -- A request that is not skipped passes exactly if a limiter for its route, with its own points
  -- and duration, has taken the key of its route and its user or address.
  abbrev pub Counted : ℕ → HttpRequest → Verdict → Type 0
  Counted n r verdict =
      ((skips r ≡ true) × (verdict ≡ Verdict.pass))
      ⊎ ((skips r ≡ false)
          × ((l : Limiter) × Fits (get_route_key r) (config_of r) l
              × (verdict ≡ verdict_of (consume n l (get_route_key r, identity_of r)))))

  -- After any requests, a request either is one of those that are not limited, and passes, or it
  -- is judged by the answer for its key of a limiter of its route with the points and the duration
  -- of its own route.
  pub can_activate-Counted :
      (before : List (ℕ × HttpRequest)) (n : ℕ) (r : HttpRequest)
      → Counted n r (can_activate consume n r (serve_requests consume before [])).0
  unfolding can_activate
  can_activate-Counted before n r =
      let ls = serve_requests consume before [] in
      let fits : Fits (get_route_key r) (config_of r)
          (get_limiter (get_route_key r) (config_of r) ls).0 =
        (get_limiter-Fits (get_route_key r) (config_of r) ls
          (serve_requests-IsCache before [] tt)).0 in
      elim (Bool-cases (skips r)) [
        | inl skipped ↦ inl (skipped, ground (arith, skipped))
        | inr counted ↦ inr (
          counted,
          ((get_limiter (get_route_key r) (config_of r) ls).0, fits, ground (arith, counted)),
        )
      ]
