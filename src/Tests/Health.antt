-- ===== src/Tests/Health.antt =====
-- An uptime of a day, an hour and a minute.
