-- ===== src/Dispatch.antt =====
-- graph/dispatcher.py: changes of entities become runs of workflows.
pub mod Next
pub mod Drained
pub mod Blocked
pub mod Logged
mod Examples
use nutanix_hack.Prelude.{
  ℕ, zero, suc, Bool, true, false, not, ◌&&◌, String, Option, none, some, List, [], ◌∷◌, str_eq,
  ltb, if◌then◌else◌,
}
use nutanix_hack.Prelude.Texts.{text_lt}
use nutanix_hack.Json.{Value, empty_object}
use nutanix_hack.Spec.{Spec}
use nutanix_hack.Queue.{Env}
use nutanix_hack.Expressions.{
  Rendered, rendered, expression_error, unhashable_key, other_key, render,
}
use nutanix_hack.Predicates.{Clauses, Change, matches, truth}
use nutanix_hack.Service.Exec.{
  Exec, ok, type_error, not_json, pure, raise, gets, atomic, ◌>>=◌, ◌>>◌,
}
use nutanix_hack.Service.Store.{Store, Db}
use nutanix_hack.Service.Reaper.{start_run}
use nutanix_hack.Graph.{Graph, EntityChange, change_context, is_unprocessed, mark_processed}

-- Its predicate is one that `validate_predicate` has passed; its definition is that row's spec.
pub record Trigger : Type 0 where
  pub id : String
  pub name : String
  pub tenant : String
  pub entity_type : String
  pub predicate : Clauses
  pub definition : Spec
  pub enabled : Bool
  pub input_template : Value

pub record World : Type 0 where
  pub graph : Graph
  pub triggers : List Trigger
  pub store : Store

-- What a round takes from outside: the settings, the clock, the rows that other transactions have
-- locked, Python's `str`, and the UUID of the run that a change and a trigger start.
pub record Round : Type 0 where
  pub env : Env
  pub now : ℕ
  pub locked : ℕ → Bool
  pub show : Value → String
  pub new_id : ℕ → String → String

unfoldable pub on_store : {A : Type 0} → Db A → Exec World A
on_store m w = let (r, s) = m w.store in (r, record w { store = s })

unfoldable pub is_open : (ℕ → Bool) → EntityChange → Bool
is_open locked change = is_unprocessed change && not (locked change.id)

abbrev older : EntityChange → Option EntityChange → Option EntityChange
older c none = some c
older c (some d) = if ltb d.id c.id then some d else some c

-- The unprocessed row with the smallest id, of those that are not locked.
unfoldable pub next_change : (ℕ → Bool) → List EntityChange → Option EntityChange
next_change locked [] = none
next_change locked (c ∷ cs) =
    let rest = next_change locked cs in if is_open locked c then older c rest else rest

insert_trigger : Trigger → List Trigger → List Trigger
insert_trigger t [] = t ∷ []
insert_trigger t (u ∷ us) =
    let later = u ∷ insert_trigger t us in if text_lt u.name t.name then later else t ∷ u ∷ us

abbrev listens : EntityChange → Trigger → Bool
listens change t =
    str_eq t.tenant change.entity.tenant && (str_eq t.entity_type change.entity.type && t.enabled)

-- The enabled triggers of the change's tenant and type, by name.
unfoldable pub triggers_of : EntityChange → List Trigger → List Trigger
unfolding insert_trigger
triggers_of change [] = []
triggers_of change (t ∷ ts) =
    let rest = triggers_of change ts in if listens change t then insert_trigger t rest else rest

-- `value or {}`
abbrev pub or_object : Value → Value
or_object v = if truth v then v else empty_object

abbrev pub delta : EntityChange → Change
delta change = record {
  changed_keys = change.changed_keys;
  before = change.before;
  after = change.after;
}

-- The second half of a trigger's turn; `rest` is the turns of the triggers after it.
unfoldable pub fire_rendered :
    Round
    → EntityChange
    → Trigger
    → Rendered
    → Exec World (List (String × String))
    → Exec World (List (String × String))
fire_rendered r change t (rendered input) rest = do
  run ← on_store (start_run r.env r.now (r.new_id change.id t.id) t.definition (or_object input))
  started ← rest
  pure ((t.id, run) ∷ started)
fire_rendered r change t expression_error rest = rest
fire_rendered r change t unhashable_key rest = raise type_error
fire_rendered r change t other_key rest = raise not_json

-- A predicate that raises counts as one that does not match.
unfoldable pub fire_matched :
    Round
    → EntityChange
    → Trigger
    → Option Bool
    → Exec World (List (String × String))
    → Exec World (List (String × String))
fire_matched r change t (some true) rest =
    fire_rendered r change t (render r.show (or_object t.input_template) (change_context change))
      rest
fire_matched r change t (some false) rest = rest
fire_matched r change t none rest = rest

unfoldable pub fire_triggers :
    Round → EntityChange → List Trigger → Exec World (List (String × String))
fire_triggers r change [] = pure []
fire_triggers r change (t ∷ ts) =
    fire_matched r change t (matches t.predicate (delta change)) (fire_triggers r change ts)

unfoldable pub mark_done : Round → EntityChange → Exec World Unit
mark_done r change w = (ok tt, record w { graph = mark_processed change r.now w.graph })

abbrev pub Dispatched : Type 0
Dispatched = EntityChange × List (String × String)

-- The body of the transaction, once the row is claimed.
unfoldable pub dispatch_change : Round → Option EntityChange → Exec World (Option Dispatched)
dispatch_change r none = pure none
dispatch_change r (some change) = do
  triggers ← gets (λ w. triggers_of change w.triggers)
  started ← fire_triggers r change triggers
  mark_done r change
  pure (some (change, started))

unfoldable pub dispatch_one : Round → Exec World (Option Dispatched)
dispatch_one r =
    atomic (do found ← gets (λ w. next_change r.locked w.graph.changes); dispatch_change r found)

-- The test of the loop: `break`, or keep the result and go on.
unfoldable pub or_break :
    Option Dispatched → Exec World (List Dispatched) → Exec World (List Dispatched)
or_break none others = pure []
or_break (some result) others = do rest ← others; pure (result ∷ rest)

-- `while limit is None or len(processed) < limit`: the rounds left under the limit, or fuel.
unfoldable pub dispatch_pending : ℕ → Round → Exec World (List Dispatched)
dispatch_pending zero r = pure []
dispatch_pending (suc n) r = do one ← dispatch_one r; or_break one (dispatch_pending n r)
