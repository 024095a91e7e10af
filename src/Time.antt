-- ===== src/Time.antt =====
-- Instants (`DateTime<Utc>` and `SystemTime`) as nanoseconds since the least instant that `chrono`
-- represents, so that every instant is a natural number.
use multi_agent_orchestrator.Prelude.{
  ℕ, ◌+◌, ◌-◌, ◌*◌, ◌/◌, ◌%◌, ◌^◌, Option, none, some, leb, if◌then◌else◌,
}

abbrev pub second : ℕ
second = 1000000000

-- `t + Duration::seconds(n)`
abbrev pub after : ℕ → ℕ → ℕ
after t n = t + n * second

-- `(now - t).num_seconds().max(0) as u64`
abbrev pub seconds_since : ℕ → ℕ → ℕ
seconds_since now t = (now - t) / second

-- `(now - t).num_seconds() as u64`: a negative difference is cut towards zero and then wraps.
unfoldable pub wrapped_seconds_since : ℕ → ℕ → ℕ
wrapped_seconds_since now t =
    if leb t now then (now - t) / second else (2 ^ 64 - (t - now) / second) % 2 ^ 64

-- `mtime.elapsed().ok()` in whole seconds: none where the file is newer than the clock.
unfoldable pub elapsed_secs : ℕ → ℕ → Option ℕ
elapsed_secs now mtime = if leb mtime now then some ((now - mtime) / second) else none
