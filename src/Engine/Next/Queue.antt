-- ===== src/Engine/Next/Queue.antt =====
-- What ExecuteNext leaves in the store.
use floxy_pro.Prelude.{
  Bool, Option, String, arith, false, inl, inr, none, refl, some, string_eq, true, ◌||◌, ◌≡◌, ◌⊎◌,
}
use floxy_pro.Engine.Env.{Env}
use floxy_pro.Engine.Monad.{Run, blocked, choose, failed, ignore, on_option, pure, returned, ◌>>=◌}
use floxy_pro.Engine.Next.{execute_next, take_item}
use floxy_pro.Model.{QueueItem}
use floxy_pro.Store.Defs.{MemoryStore}
use floxy_pro.Store.Queue.{dequeue_step}
use floxy_pro.Store.Queue.Idle.{dequeue_step-none}
use floxy_pro.Store.Queue.Leases.{release-dequeue}
use floxy_pro.Store.Valid.{IsValid}

-- How ExecuteNext ends with the handling of an item.
abbrev pub next_run : Run Bool → MemoryStore → Run Bool
next_run (returned b u) t = returned false t
next_run (failed e u) t = failed e t
next_run blocked t = blocked

-- In a valid store, when the worker is shut down before or after it takes an item, or nothing is due,
-- ExecuteNext returns `true` and leaves the store as it was: an item that was taken is given back.
pub execute_next-idle :
    (env : Env) (worker : String) (s : MemoryStore)
    → IsValid s
    → ((env.shutdown 0 || env.shutdown 1) ≡ true)
      ⊎ (env.shutdown 2 ≡ true)
      ⊎ ((dequeue_step worker env.now s).0 ≡ none)
    → execute_next env worker s ≡ returned true s
unfolding execute_next take_item choose ◌>>=◌ on_option ignore pure
execute_next-idle env worker s v idle =
    go (env.shutdown 0 || env.shutdown 1) (dequeue_step worker env.now s).0 refl refl idle
  where
    go :
        (early : Bool) (taken : Option QueueItem)
        → (env.shutdown 0 || env.shutdown 1) ≡ early
        → (dequeue_step worker env.now s).0 ≡ taken
        → ((env.shutdown 0 || env.shutdown 1) ≡ true)
          ⊎ (env.shutdown 2 ≡ true)
          ⊎ ((dequeue_step worker env.now s).0 ≡ none)
        → execute_next env worker s ≡ returned true s
    go true taken off e cause = rw off refl
    go false none on e cause = rw (on, e, (dequeue_step-none worker env.now s e).1) refl
    go false (some item) on e (inr (inl off)) =
        rw (on, e, off, release-dequeue worker env.now s item v e) refl
    go false (some item) on e (inl off) = ground arith
    go false (some item) on e (inr (inr nothing)) = ground arith
