-- ===== src/Tests/EngineNext.antt =====
-- ExecuteNext on concrete stores.
use floxy_pro.Prelude.{inl, inr, nat_eq, refl, string_eq, true, ◌==◌, ◌≡◌}
use floxy_pro.Engine.Env.{Env}
use floxy_pro.Engine.Monad.{returned}
use floxy_pro.Engine.Next.{execute_next}
use floxy_pro.Engine.Next.Queue.{execute_next-idle}
use floxy_pro.Store.Defs.{MemoryStore}
use floxy_pro.Store.Queue.{dequeue_step}
use floxy_pro.Store.Valid.Sequences.{reachable-IsValid}
use floxy_pro.Tests.Engine.{open_store, opened, plain_env}

abbrev taken_store : MemoryStore
taken_store = (dequeue_step "w" 100 open_store).1

-- The worker is shut down after it has taken the item.
abbrev halted_env : Env
halted_env = record plain_env { shutdown = λ i. i == 2 }

execute_next-idle_example : execute_next halted_env "w" open_store ≡ returned true open_store
execute_next-idle_example =
    execute_next-idle halted_env "w" open_store (reachable-IsValid opened) (inr (inl refl))
