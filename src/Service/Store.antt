-- ===== src/Service/Store.antt =====
-- engine/models.py: the rows of runs beside the task table, and the primitive reads and writes.
use nutanix_hack.Prelude.Texts.{text_length}
use nutanix_hack.Prelude.{ℕ, ltb, Bool, String, Option, none, some, List}
use nutanix_hack.Prelude.Dict
use nutanix_hack.Prelude.Dict.{Dict}
use nutanix_hack.Json.{Value}
use nutanix_hack.Spec.{Spec}
use nutanix_hack.Replay.State.{RunState, Event, Context}
use nutanix_hack.Queue.{Queue}
use nutanix_hack.Service.Exec.{Exec, ok, does_not_exist, pure, raise, gets, ◌>>=◌}

-- A `Run` row with its definition's spec and its events, in the order in which they were written.
pub record Run : Type 0 where
  pub spec : Spec
  pub input : Value
  pub events : List Event
  pub last_seq : ℕ
  pub status : RunState
  pub context : Context
  pub error : String

pub record Store : Type 0 where
  pub runs : Dict Run
  pub queue : Queue

abbrev pub Db : Type 0 → Type 0
Db A = Exec Store A

pub or_missing : Option Run → Db Run
or_missing none = raise does_not_exist
or_missing (some run) = pure run

unfoldable pub get_run : String → Db Run
unfolding or_missing
get_run rid = do row ← gets (λ s. Dict.get s.runs rid); or_missing row

unfoldable pub put_run : String → Run → Db Unit
put_run rid run s = (ok tt, record s { runs = Dict.set s.runs rid run })

-- A query on the task table.
unfoldable pub on_queue : {A : Type 0} → (Queue → A × Queue) → Db A
on_queue f s = let (a, q) = f s.queue in (ok a, record s { queue = q })

-- `max_length=200` of `step_id` and `lease_owner`, which the database checks.
abbrev pub max_length : ℕ
max_length = 200

unfoldable pub too_long : String → Bool
too_long text = ltb max_length (text_length text)
