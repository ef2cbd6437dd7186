-- ===== src/Worker/Logged.antt =====
-- The invariant of the logs and of the task table, and a round of engine/worker.py.
use nutanix_hack.Prelude.{ℕ, Bool, String}
use nutanix_hack.Plugins.{Outside}
use nutanix_hack.Queue.{Env}
use nutanix_hack.Queue.Steps.{History}
use nutanix_hack.Service.Exec.{Keeps}
use nutanix_hack.Service.Store.{Store, Db}
use nutanix_hack.Service.Gapless.{IsLogged}
use nutanix_hack.Service.Logged.{logs}
use nutanix_hack.Service.Transacts.{Reaches, transacts}
use nutanix_hack.Service.Stored.{IsStored, stored}
use nutanix_hack.Worker.Kept.{run_once-Keeps}
use nutanix_hack.Worker.Visit.{run_once}

-- The logs alone: no hypothesis about the table is needed.
pub run_once-IsLogged :
    (env : Env) (outside : Outside) (beat : Db Bool) (locked : ℕ → Bool) (now : ℕ) (worker : String)
    (s : Store)
    → Keeps IsLogged beat
    → IsLogged s
    → IsLogged (run_once env outside beat locked now worker s).1
run_once-IsLogged env outside beat locked now worker s beats h =
    (run_once-Keeps env IsLogged (logs env) outside beat beats locked now worker).at s h

-- What a round does to the task table, it does by the transactions of Queue/Steps, if the others
-- change it by these while a step runs.
pub run_once-History :
    (env : Env) (outside : Outside) (beat : Db Bool) (locked : ℕ → Bool) (now : ℕ) (worker : String)
    (s : Store)
    → Keeps (Reaches env s.queue) beat
    → History env s.queue (run_once env outside beat locked now worker s).1.queue
run_once-History env outside beat locked now worker s beats =
    (run_once-Keeps env (Reaches env s.queue) (transacts env s.queue) outside beat beats locked now
        worker).at
      s History.here

-- If every run's log is numbered without a gap and its last_seq counts it, the task table is sound
-- (unique ids and keys, each key the digest of its row, an expiry exactly on LEASED rows), and what
-- happens while a step runs keeps both, then a round of a worker keeps both too, on every path,
-- those that raise included.
pub run_once-IsStored :
    (env : Env) (outside : Outside) (beat : Db Bool) (locked : ℕ → Bool) (now : ℕ) (worker : String)
    (s : Store)
    → Keeps (IsStored env) beat
    → IsStored env s
    → IsStored env (run_once env outside beat locked now worker s).1
run_once-IsStored env outside beat locked now worker s beats h =
    (run_once-Keeps env (IsStored env) (stored env) outside beat beats locked now worker).at s h
