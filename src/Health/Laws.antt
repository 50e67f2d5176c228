-- ===== src/Health/Laws.antt =====
-- The parts of an uptime and the classes of a latency.
use shob_app.Prelude.{◌+◌, ◌*◌, ◌<◌, ◌≡◌, ◌↔◌, true}
use shob_app.Health.{Uptime}

-- The parts are digits of a clock that together are the seconds.
abbrev pub IsClock : Uptime → Type 0
IsClock u =
    (u.days * 86400 + u.hours * 3600 + u.minutes * 60 + u.secs ≡ u.seconds)
    × (u.hours < 24)
    × (u.minutes < 60)
    × (u.secs < 60)
    × ((u.recently_restarted ≡ true) ↔ (u.seconds < 300))
