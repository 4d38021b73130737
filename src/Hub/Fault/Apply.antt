-- ===== src/Hub/Fault/Apply.antt =====
-- hub/fault.go, applyEventTx, emitHubEventTx and touchSourceSeenTx.
use sakura_assistant.Base.{
  ℕ, ◌+◌, ◌^◌, String, Option, none, some, Bool, true, false, ◌&&◌, List, [], ◌∷◌, ◌++◌, map, ◌==◌,
  if◌then◌else◌,
}
use Prim.Native.String.{◌++◌ as text_append}
use sakura_assistant.Hub.Types.{
  AttachmentDesc, EventPayload, FaultRow, FaultState, opened, resolved, MessageRow, EventRow,
  PendingResolve, SourceRow, NotifyBlock, fault, message,
}
use sakura_assistant.Hub.Store.{
  HubEnv, Hub, Tx, ok, unknown_action, ◌>>=◌, ◌>>◌, return, throw, modify, gets, now_ts, new_id,
  insert_change_obj, load_fault, update_source,
}
use sakura_assistant.Hub.Fault.Tables.{
  non_empty, ref_of, or_empty, insert_event, add_pending, upsert, message_kind, backfill,
}
use sakura_assistant.Hub.Fault.Machine.{Transition, transition, earliest_pending, is_opened}

-- An event with no fault key leaves the state machine alone.
abbrev pub no_fault : Transition
no_fault = record { row = none; applied = false; notify_kind = ""; changed = false; waits = false }

unfoldable pub attachments_json : HubEnv → List AttachmentDesc → String
attachments_json env [] = "[]"
attachments_json env (a ∷ rest) = env.marshal_attachments (a ∷ rest)

unfoldable pub event_row : HubEnv → SourceRow → EventPayload → Bool → Bool → String → EventRow
unfolding attachments_json
event_row env src ev internal out_of_order received = record {
  source_id = src.id;
  event_id = ev.event_id;
  seq = ev.seq;
  kind = ev.kind;
  occurred_at = ev.occurred_at;
  severity = ev.severity;
  fault_key = non_empty ev.fault_key;
  incident_action = non_empty ev.incident_action;
  title = ev.title;
  body = ev.body;
  ref = ref_of ev.ref;
  attachments = attachments_json env ev.attachments;
  out_of_order = out_of_order;
  internal = internal;
  received_at = received;
}

unfoldable pub pending_of : SourceRow → String → EventPayload → PendingResolve
pending_of src key ev = record {
  source_id = src.id;
  fault_key = key;
  seq = ev.seq;
  occurred_at = ev.occurred_at;
  title = ev.title;
  event_id = ev.event_id;
}

unfoldable pub settle : SourceRow → EventPayload → String → Option Transition → Tx Transition
unfolding pending_of
settle src ev key none = throw (unknown_action (or_empty ev.incident_action))
settle src ev key (some t) =
    if t.waits
    then (do
      modify (λ s. record s {
        pending_resolves = add_pending (pending_of src key ev) s.pending_resolves;
      })
      return t)
    else return t

-- Part 2: the state machine, when the fault key is not empty. The id of a new row is drawn whether
-- or not the row is new.
unfoldable pub move_fault : HubEnv → SourceRow → EventPayload → Option String → Tx Transition
unfolding settle
move_fault env src ev none = return no_fault
move_fault env src ev (some key) = do
  f ← load_fault src.id key
  pending ← gets (λ s. earliest_pending src.id key ev.seq s.pending_resolves)
  id ← new_id env "flt_"
  settle src ev key (transition id src.id key ev (or_empty ev.incident_action) pending f)

-- Part 3: the message row.
unfoldable pub message_row :
    HubEnv → SourceRow → EventPayload → Bool → Bool → Transition → String → String → MessageRow
unfolding message_kind attachments_json
message_row env src ev internal out_of_order t id received = record {
  id = id;
  source_id = src.id;
  kind = message_kind internal ev (non_empty ev.incident_action);
  severity = ev.severity;
  title = ev.title;
  body = ev.body;
  occurred_at = ev.occurred_at;
  received_at = received;
  read_at = none;
  fault_id = elim t.row [ none ↦ none | some f ↦ some f.id ];
  incident = elim t.row [ none ↦ none | some f ↦ if t.applied then some f.incident else none ];
  ref = ref_of ev.ref;
  attachments = some (attachments_json env ev.attachments);
  event_id = ev.event_id;
  event_seq = ev.seq;
  fault_key = non_empty ev.fault_key;
  out_of_order = out_of_order;
  change_seq = 0;
}

-- The row as `toFaultJSON` sends it: the number of its change is filled in.
abbrev pub numbered : FaultRow → ℕ → FaultRow
numbered f seq = record f { change_seq = seq }

abbrev pub last_change : Hub → ℕ
last_change s = elim s.change_seq [ none ↦ 0 | some n ↦ n ]

unfoldable pub record_row : HubEnv → SourceRow → Bool → Option FaultRow → Tx (Unit {0})
record_row env src changed none = return tt
record_row env src false (some f) = return tt
record_row env src true (some f) = do
  insert_change_obj env f.id (λ seq. fault (numbered f seq) src.name) none
  modify (λ s. record s { faults = upsert (numbered f (last_change s)) s.faults })

-- Part 4: the change entry and the row of a fault that changed.
unfoldable pub record_fault : HubEnv → SourceRow → Transition → Tx (Unit {0})
record_fault env src t = record_row env src t.changed t.row

abbrev pub is_over : FaultState → Bool
is_over opened = false
is_over resolved = true

-- `until` is the number of the recovery.
unfoldable pub backfill_until : FaultRow → Bool → String → Option ℕ → Tx (Unit {0})
backfill_until f applied key none = return tt
backfill_until f applied key (some until) =
    if is_over f.state && applied
    then modify (λ s. record s { messages = map (backfill f key until) s.messages })
    else return tt

unfoldable pub backfill_row : Bool → String → Option FaultRow → Tx (Unit {0})
backfill_row applied key none = return tt
backfill_row applied key (some f) = backfill_until f applied key f.resolved_by_seq

-- Part 5: the messages that came in between belong to the incident that is over.
unfoldable pub backfill_messages : Transition → Option String → Tx (Unit {0})
unfolding or_empty
backfill_messages t key = backfill_row t.applied (or_empty key) t.row

unfoldable pub notify_of : Transition → NotifyBlock
notify_of t = record {
  kind = if t.notify_kind == "" then "new_message" else t.notify_kind;
  fault_id = elim t.row [ none ↦ none | some f ↦ some f.id ];
  muted = elim t.row [ none ↦ false | some f ↦ elim f.muted_at [ none ↦ false | some _ ↦ true ] ];
}

unfoldable pub record_message : HubEnv → SourceRow → MessageRow → Transition → Tx (Unit {0})
unfolding notify_of
record_message env src m t = do
  insert_change_obj env m.id (λ seq. message (record m { change_seq = seq }) src.name)
      (some (notify_of t))
  modify (λ s. record s { messages = s.messages ++ record m { change_seq = last_change s } ∷ [] })

-- Parts 3 to 5 of `applyEventTx`, after the state machine.
unfoldable pub deliver :
    HubEnv → SourceRow → EventPayload → Bool → Bool → String → Transition → Tx (Unit {0})
deliver env src ev internal out_of_order received t = do
  id ← new_id env "msg_"
  record_fault env src t
  backfill_messages t (non_empty ev.fault_key)
  record_message env src (message_row env src ev internal out_of_order t id received) t

-- `applyEventTx`
unfoldable pub apply_event : HubEnv → SourceRow → EventPayload → Bool → Bool → Tx (Unit {0})
apply_event env src ev internal out_of_order = do
  received ← now_ts env
  insert_event (event_row env src ev internal out_of_order received)
  t ← move_fault env src ev (non_empty ev.fault_key)
  deliver env src ev internal out_of_order received t

-- Numbers of the hub's own events start above those of any source.
abbrev pub hub_seq_base : ℕ
hub_seq_base = 2 ^ 62

unfoldable pub next_hub_seq : Tx ℕ
next_hub_seq s =
    let seq : ℕ = elim s.hub_event_seq [ none ↦ hub_seq_base + 1 | some n ↦ n + 1 ] in
    (ok seq, record s { hub_event_seq = some seq })

unfoldable pub emit_hub_event :
    HubEnv
    → SourceRow
    → String
    → String
    → Option String
    → Option String
    → String
    → Option String
    → ℕ
    → Tx (Unit {0})
emit_hub_event env src kind severity key action title body at = do
  seq ← next_hub_seq
  id ← new_id env "hub_"
  apply_event env src
      (record {
        event_id = id;
        seq = seq;
        kind = kind;
        occurred_at = env.fmt_ts at;
        severity = severity;
        fault_key = key;
        incident_action = action;
        title = title;
        body = body;
        ref = "";
        attachments = [];
      })
      true false

-- A heartbeat fault that is open ends when its source is seen.
unfoldable pub end_heartbeat : HubEnv → SourceRow → ℕ → Option FaultRow → Tx SourceRow
end_heartbeat env src at none = return src
end_heartbeat env src at (some f) =
    if is_opened f.state
    then (do
      emit_hub_event env src "heartbeat_back" "info" (some "heartbeat") (some "resolve")
          (text_append src.name " 恢复接入") (some (text_append "来源恢复上报（" (text_append src.kind "）")))
          at
      return src)
    else return src

abbrev pub seen_at : HubEnv → ℕ → SourceRow → SourceRow
seen_at env at src = record src { last_seen_at = some (env.fmt_ts at) }

-- `touchSourceSeenTx`: any traffic of a source counts as seen.
unfoldable pub touch_source_seen : HubEnv → SourceRow → ℕ → Tx SourceRow
touch_source_seen env src at = do
  modify (λ s. record s { sources = update_source src.id (seen_at env at) s.sources })
  hb ← load_fault src.id "heartbeat"
  end_heartbeat env (seen_at env at src) at hb
