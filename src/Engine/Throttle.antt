-- ===== src/Engine/Throttle.antt =====
-- engine.go: shouldLogSkip, which throttles the events for a step that this engine cannot handle. Its
-- answer is `log_skip` of the environment. The table is skipLogNextAllowed.
pub mod Spaced
use floxy_pro.Prelude.{
  Bool, Option, String, false, if◌then◌else◌, ltb, nat_eq, none, some, string_eq, true, ◌+◌, ◌==◌,
}
use floxy_pro.Model.{Duration, Time}
use floxy_pro.Prelude.Maps.{Map, insert, lookup}

-- `next, ok := table[key]; ok && now.Before(next)`
abbrev pub is_early : Time → Option Time → Bool
is_early now none = false
is_early now (some next) = ltb now next

unfoldable pub should_log_skip : Duration → Time → String → Map String Time → Bool × Map String Time
should_log_skip throttle now key table =
    if throttle == 0
    then (true, table)
    else if is_early now (lookup key table)
    then (false, table)
    else (true, insert key (now + throttle) table)
