-- ===== src/RateLimit.antt =====
-- rate-limit.guard.ts: the guard and its cache of limiters. The limiter of the library
-- rate-limiter-flexible, on Redis, is a parameter.
pub mod Laws
pub mod Uncached
use shob_app.Prelude.{
  ℕ, suc, String, Bool, true, false, ◌&&◌, ◌||◌, Option, some, none, List, [], ◌∷◌, ◌==◌, str_eq,
  if◌then◌else◌,
}

pub record RateLimitOptions : Type 0 where
  pub points : ℕ
  pub duration : ℕ
  pub block_duration : Option ℕ

-- Method and path of a route, or the names of the class and of the handler.
pub data RouteKey : Type 0 where
  path : String → String → RouteKey
  handler : String → String → RouteKey

pub data Identity : Type 0 where
  user : ℕ → Identity
  ip : String → Identity

-- What the guard reads: the address is `getIp` of the request.
pub record HttpRequest : Type 0 where
  pub method : String
  pub route_path : Option String
  pub class_name : String
  pub handler_name : String
  pub skip_rate_limit : Bool
  pub rate_limit : Option RateLimitOptions
  pub user : Option ℕ
  pub address : String

-- `new RateLimiterRedis(…)`
pub record Limiter : Type 0 where
  pub key_prefix : RouteKey
  pub points : ℕ
  pub duration : ℕ
  pub block_duration : ℕ

-- `limiterKey`
pub record LimiterKey : Type 0 where
  pub route : RouteKey
  pub points : ℕ
  pub duration : ℕ

abbrev pub Limiters : Type 0
Limiters = List (LimiterKey × Limiter)

-- How `consume` of a key ends at a moment: taken, or refused for some milliseconds, or an error of
-- Redis, which has no such number.
pub data Consumption : Type 0 where
  taken failed : Consumption
  refused : ℕ → Consumption

abbrev pub Consume : Type 0
Consume = ℕ → Limiter → RouteKey × Identity → Consumption

pub data Verdict : Type 0 where
  pass too_many_requests : Verdict

abbrev pub default_rate_limit : RateLimitOptions
default_rate_limit = record { points = 100; duration = 60; block_duration = none }

abbrev pub same_route : RouteKey → RouteKey → Bool
same_route (RouteKey.path m p) (RouteKey.path n q) = str_eq m n && str_eq p q
same_route (RouteKey.handler c h) (RouteKey.handler d i) = str_eq c d && str_eq h i
same_route _ _ = false

abbrev pub same_key : LimiterKey → LimiterKey → Bool
same_key j k = same_route j.route k.route && j.points == k.points && j.duration == k.duration

-- `if (request.route?.path)`
abbrev pub get_route_key : HttpRequest → RouteKey
get_route_key r = elim r.route_path [
  | none ↦ RouteKey.handler r.class_name r.handler_name
  | some p ↦
      if str_eq p "" then RouteKey.handler r.class_name r.handler_name else RouteKey.path r.method p
]

abbrev pub config_of : HttpRequest → RateLimitOptions
config_of r = elim r.rate_limit [ none ↦ default_rate_limit | some c ↦ c ]

abbrev pub identity_of : HttpRequest → Identity
identity_of r = elim r.user [ none ↦ Identity.ip r.address | some id ↦ Identity.user id ]

abbrev pub key_of : RouteKey → RateLimitOptions → LimiterKey
key_of route config = record { route = route; points = config.points; duration = config.duration }

abbrev pub new_limiter : RouteKey → RateLimitOptions → Limiter
new_limiter route config = record {
  key_prefix = route;
  points = config.points;
  duration = config.duration;
  block_duration = elim config.block_duration [ none ↦ 0 | some n ↦ n ];
}

-- `limiters.get(limiterKey)`
abbrev pub get : LimiterKey → Limiters → Option Limiter
get k [] = none
get k ((j, l) ∷ ls) = if same_key j k then some l else get k ls

-- The limiter of the cache, or a new one that is put into it.
unfoldable pub get_limiter : RouteKey → RateLimitOptions → Limiters → Limiter × Limiters
get_limiter route config ls = elim (get (key_of route config) ls) [
  | some l ↦ (l, ls)
  | none ↦ (new_limiter route config, (key_of route config, new_limiter route config) ∷ ls)
]

abbrev pub verdict_of : Consumption → Verdict
verdict_of Consumption.taken = Verdict.pass
verdict_of Consumption.failed = Verdict.too_many_requests
verdict_of (Consumption.refused ms) = Verdict.too_many_requests

abbrev pub skips : HttpRequest → Bool
skips r = str_eq r.method "OPTIONS" || r.skip_rate_limit

module _ (consume : Consume) where
  unfoldable pub can_activate : ℕ → HttpRequest → Limiters → Verdict × Limiters
  unfolding get_limiter
  can_activate n r ls =
      if skips r
      then (Verdict.pass, ls)
      else (let (l, ls') = get_limiter (get_route_key r) (config_of r) ls in
          (verdict_of (consume n l (get_route_key r, identity_of r)), ls'))

  -- The cache after requests that are served one after another.
  unfoldable pub serve_requests : List (ℕ × HttpRequest) → Limiters → Limiters
  serve_requests [] ls = ls
  serve_requests ((n, r) ∷ rs) ls = serve_requests rs (can_activate n r ls).1
