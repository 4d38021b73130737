-- ===== src/Hub/Fault/Machine.antt =====
-- hub/fault.go: the state machine of one fault.
use sakura_assistant.Base.{
  ℕ, ◌+◌, String, Option, none, some, Bool, true, false, ◌&&◌, ◌||◌, List, [], ◌∷◌, ◌==◌, ltb,
  if◌then◌else◌,
}
use text.Mathlib.Text.{is_lt}
use Prim.Native.String.{compare}
use sakura_assistant.Hub.Types.{
  EventPayload, FaultRow, FaultState, opened, resolved, PendingResolve,
}
use sakura_assistant.Hub.Severity.{max_sev}

unfoldable pub new_fault_row : String → String → String → EventPayload → FaultRow
new_fault_row id source_id fault_key ev = record {
  id = id;
  source_id = source_id;
  fault_key = fault_key;
  severity = ev.severity;
  title = ev.title;
  summary = ev.body;
  state = opened;
  incident = 1;
  opened_at = ev.occurred_at;
  opened_by_seq = ev.seq;
  last_event_at = ev.occurred_at;
  resolved_at = none;
  resolved_by_seq = none;
  resolved_by = none;
  event_count = 1;
  read_at = none;
  muted_at = none;
  muted_until = none;
  change_seq = 0;
}

-- Texts are compared by their bytes.
unfoldable pub later : String → String → Bool
later a b = is_lt (compare b a)

unfoldable pub merge_fault_event : FaultRow → EventPayload → FaultRow
merge_fault_event f ev = record f {
  event_count = f.event_count + 1;
  severity = max_sev f.severity ev.severity;
  title = ev.title;
  summary = ev.body;
  last_event_at = if later ev.occurred_at f.last_event_at then ev.occurred_at else f.last_event_at;
}

-- `SELECT ... WHERE source_id=? AND fault_key=? AND seq > ? ORDER BY seq LIMIT 1`
unfoldable pub sooner : PendingResolve → Option PendingResolve → PendingResolve
sooner p none = p
sooner p (some q) = if ltb q.seq p.seq then q else p

unfoldable pub earliest_pending : String → String → ℕ → List PendingResolve → Option PendingResolve
earliest_pending src key seq [] = none
earliest_pending src key seq (p ∷ rest) =
    let found = earliest_pending src key seq rest in
    if p.source_id == src && p.fault_key == key && ltb seq p.seq
    then some (sooner p found)
    else found

-- What an event does to its fault: the row after it, whether the message belongs to the row's
-- incident, the notification ("" for none), whether the row changed, and whether the recovery is
-- put on record to wait for its opening.
pub record Transition : Type 0 where
  pub row : Option FaultRow
  pub applied : Bool
  pub notify_kind : String
  pub changed : Bool
  pub waits : Bool

unfoldable pub resolve_row : FaultRow → String → ℕ → String → FaultRow
resolve_row f at seq by = record f {
  state = resolved;
  resolved_at = some at;
  resolved_by_seq = some seq;
  resolved_by = some by;
}

unfoldable pub reopen_row : FaultRow → EventPayload → FaultRow
reopen_row f ev = record f {
  incident = f.incident + 1;
  state = opened;
  severity = ev.severity;
  title = ev.title;
  summary = ev.body;
  opened_at = ev.occurred_at;
  opened_by_seq = ev.seq;
  last_event_at = ev.occurred_at;
  resolved_at = none;
  resolved_by_seq = none;
  resolved_by = none;
  event_count = 1;
  read_at = none;
}

abbrev changed_to : FaultRow → String → Transition
changed_to f kind = record {
  row = some f;
  applied = true;
  notify_kind = kind;
  changed = true;
  waits = false;
}

abbrev waiting : Option FaultRow → Transition
waiting o = record { row = o; applied = false; notify_kind = ""; changed = false; waits = true }

-- The cases "open" and "update".
unfoldable pub on_open :
    String → String → String → EventPayload → Option PendingResolve → Option FaultRow → Transition
unfolding new_fault_row resolve_row reopen_row
on_open id src key ev (some p) none =
    changed_to (resolve_row (new_fault_row id src key ev) p.occurred_at p.seq p.event_id) ""
on_open id src key ev none none = changed_to (new_fault_row id src key ev) "incident_open"
on_open id src key ev pending (some f) = elim f.state [
  | opened ↦ changed_to (merge_fault_event f ev) "incident_update"
  | resolved ↦ elim pending [
    | some p ↦ changed_to (merge_fault_event f ev) ""
    | none ↦ changed_to (reopen_row f ev) "incident_open"
  ]
]

-- The case "resolve".
abbrev pub is_opened : FaultState → Bool
is_opened opened = true
is_opened resolved = false

unfoldable pub close_row : FaultRow → EventPayload → FaultRow
unfolding resolve_row
close_row f ev = record (resolve_row f ev.occurred_at ev.seq ev.event_id) {
  last_event_at = ev.occurred_at;
  event_count = f.event_count + 1;
  title = ev.title;
  summary = ev.body;
}

unfoldable pub on_resolve : EventPayload → Option FaultRow → Transition
unfolding close_row
on_resolve ev none = waiting none
on_resolve ev (some f) =
    if is_opened f.state && ltb f.opened_by_seq ev.seq
    then changed_to (close_row f ev) "incident_resolved"
    else waiting (some f)

-- `none` is the error "unknown incidentAction".
unfoldable pub transition :
    String
    → String
    → String
    → EventPayload
    → String
    → Option PendingResolve
    → Option FaultRow
    → Option Transition
transition id src key ev action pending f =
    if action == "open" || action == "update"
    then some (on_open id src key ev pending f)
    else if action == "resolve"
    then some (on_resolve ev f)
    else none
