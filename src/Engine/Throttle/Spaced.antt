-- ===== src/Engine/Throttle/Spaced.antt =====
-- How far apart the events for one key are.
use floxy_pro.Prelude.{
  String, arith, ltb, nat_eq, not, refl, some, string_eq, true, ℕ, ◌+◌, ◌<◌, ◌↔◌, ◌≡◌, ◌≢◌, ◌≤◌,
}
use floxy_pro.Engine.Throttle.{is_early, should_log_skip}
use floxy_pro.Model.{Time}
use floxy_pro.Prelude.Maps.{Map, insert, lookup, lookup-insert}

-- The answer with a positive throttle, and the table after an event.
answer :
    (throttle now : ℕ) (key : String) (table : Map String Time)
    → 0 < throttle
    → (should_log_skip throttle now key table).0 ≡ not (is_early now (lookup key table))
unfolding should_log_skip
answer throttle now key table positive = ground (arith, nat_eq.beq_iff throttle 0)

table-after :
    (throttle now : ℕ) (key : String) (table : Map String Time)
    → 0 < throttle
    → (should_log_skip throttle now key table).0 ≡ true
    → (should_log_skip throttle now key table).1 ≡ insert key (now + throttle) table
unfolding should_log_skip
table-after throttle now key table positive = ground (arith, nat_eq.beq_iff throttle 0)

not-early : (now next : ℕ) → not (ltb now next) ≡ true ↔ next ≤ now
not-early now next = (ground arith, ground arith)

-- With a positive throttle, after an event for a key at `now` the next event for that key is let
-- through exactly from `now + throttle` on; the answers for every other key are what they were.
pub should_log_skip_bounds :
    (throttle now later : ℕ) (key other : String) (table : Map String Time)
    → 0 < throttle
    → (should_log_skip throttle now key table).0 ≡ true
    → let after = (should_log_skip throttle now key table).1 in
      ((should_log_skip throttle later key after).0 ≡ true ↔ now + throttle ≤ later)
      × (key ≢ other
          → (should_log_skip throttle later other after).0
            ≡ (should_log_skip throttle later other table).0)
should_log_skip_bounds throttle now later key other table positive logged =
    let after = insert key (now + throttle) table in
    let here : lookup key after ≡ some (now + throttle) =
      ground (arith, lookup-insert key key (now + throttle) table, string_eq.beq_iff key key) in
    let there : key ≢ other → lookup other after ≡ lookup other table = λ differ.
      ground (arith, lookup-insert key other (now + throttle) table, string_eq.beq_iff key other) in
    rw
      (
        table-after throttle now key table positive logged,
        answer throttle later key after positive,
        here,
      )
      (
        not-early later (now + throttle),
        λ differ.
            rw
              (
                answer throttle later other after positive,
                answer throttle later other table positive,
                there differ,
              )
              refl,
      )
