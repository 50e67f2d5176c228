-- ===== src/Health.antt =====
-- formatUptime and classifyLatency of health.service.ts. A number of seconds or of milliseconds is
-- whole here, and one that is below zero is none.
pub mod Laws
use shob_app.Prelude.{
  ℕ, zero, suc, String, Bool, true, false, Option, some, none, List, [], ◌∷◌, ◌++◌, ◌/◌, ◌%◌, ltb,
  leb, ◌==◌, if◌then◌else◌,
}

-- The parts of the text `human`, without those that are 0; seconds are always there.
pub record Uptime : Type 0 where
  pub seconds : ℕ
  pub days : ℕ
  pub hours : ℕ
  pub minutes : ℕ
  pub secs : ℕ
  pub recently_restarted : Bool

-- `formatUptime`, where null and 0 are the same
unfoldable pub format_uptime : Option ℕ → Uptime
format_uptime none = record {
  seconds = 0;
  days = 0;
  hours = 0;
  minutes = 0;
  secs = 0;
  recently_restarted = true;
}
format_uptime (some zero) = record {
  seconds = 0;
  days = 0;
  hours = 0;
  minutes = 0;
  secs = 0;
  recently_restarted = true;
}
format_uptime (some (suc n)) = record {
  seconds = suc n;
  days = suc n / 86400;
  hours = (suc n % 86400) / 3600;
  minutes = (suc n % 3600) / 60;
  secs = suc n % 60;
  recently_restarted = ltb (suc n) 300;
}

-- The text `human`: each part that is not 0 with its letter, and the seconds
abbrev pub part : ℕ → String → List (ℕ × String)
part n unit = if n == 0 then [] else (n, unit) ∷ []

abbrev pub human : Uptime → List (ℕ × String)
human u = part u.days "d" ++ part u.hours "h" ++ part u.minutes "m" ++ (u.secs, "s") ∷ []

pub data Latency : Type 0 where
  unknown fast ok slow : Latency

unfoldable pub classify_latency : Option ℕ → ℕ × Latency
classify_latency none = (0, Latency.unknown)
classify_latency (some ms) =
    (ms, if leb 500 ms then Latency.slow else if leb 100 ms then Latency.ok else Latency.fast)
