-- ===== src/Engine/Calls/Delays.antt =====
-- The delays between the attempts of a compensation.
use floxy_pro.Prelude.{nat_eq}
use floxy_pro.Engine.Env.{Env}
