-- ===== src/Commands/Health.antt =====
-- The whole deployment: what every request, worker, sweep and dispatch keeps.
use nutanix_hack.Prelude.{◌≡◌}
use nutanix_hack.Queue.{Env}
use nutanix_hack.Service.Exec.{Keeps}
use nutanix_hack.Service.Stored.{IsStored}
use nutanix_hack.Service.Definitions.{AreVersioned}
use nutanix_hack.Graph.History.{IsRecorded}
use nutanix_hack.Commands.{System, Act, starts_run, decides, works, sweeps, dispatches}
use nutanix_hack.Commands.Served.{Served}

-- Logs without gaps, a sound task table, an outbox that accounts for each entity, and versions that
-- count.
pub record IsHealthy (env : Env) (y : System) : Type 0 where
  pub stored : IsStored env y.store
  pub recorded : IsRecorded y.graph
  pub versioned : AreVersioned y.definitions

-- All processes have the digest of the settings, and what happens while a step runs keeps the store.
abbrev pub Suits : Env → Act → Type 0
Suits env (starts_run used now rid tenant payload) = env.digest ≡ used.digest
Suits env (decides used now tenant query rid payload) = env.digest ≡ used.digest
Suits env (works used outside beat locked now worker) =
    (env.digest ≡ used.digest) × Keeps (IsStored used) beat
Suits env (sweeps rounds used locked now) = env.digest ≡ used.digest
Suits env (dispatches rounds r) = env.digest ≡ r.env.digest
Suits env _ = Unit {0}
