-- ===== src/Hub/Examples.antt =====
-- Runs of the hub at concrete inputs.
use sakura_assistant.Base.{ℕ, ◌+◌, String, ◌≡◌, refl, none, some, true, false, [], ◌∷◌, arith}
use sakura_assistant.Hub.Types.{EventPayload, FaultRow, opened, resolved, PendingResolve, SourceRow}
use sakura_assistant.Hub.Store.{HubEnv, Hub, with_tx}
use sakura_assistant.Hub.Fault.Machine.{transition, on_open, on_resolve, earliest_pending}
use sakura_assistant.Hub.Fault.Lifecycle.{IsWellFormed, RowIs, transition-IsWellFormed}
use sakura_assistant.Hub.Fault.Arrival.{late_after, late_event_reopens}
use sakura_assistant.Hub.Fault.Apply.{apply_event}
use sakura_assistant.Hub.Fault.Invariant.{IsSound, with_tx-IsSound}

abbrev event : ℕ → String → EventPayload
event n action = record {
  event_id = "ev_1";
  seq = n;
  kind = "feedback_error";
  occurred_at = "2025-01-01T00:00:00.000Z";
  severity = "warning";
  fault_key = some "feedback:1";
  incident_action = some action;
  title = "t";
  body = none;
  ref = "";
  attachments = [];
}

abbrev device : SourceRow
device = record {
  id = "src_1";
  name = "nas";
  kind = "device";
  enabled = true;
  key_hash = "h";
  key_plain = "k";
  key_hint = "k";
  mgmt_key_plain = "";
  mgmt_key_hint = "";
  attachment_base_url = none;
  last_seen_at = none;
  last_metrics_seq = 0;
  last_event_seq = 0;
  last_boot_time = none;
  deleted_at = none;
  created_at = "2025-01-01T00:00:00.000Z";
  updated_at = "2025-01-01T00:00:00.000Z";
}

abbrev fault_of : FaultRow
fault_of = record {
  id = "flt_1";
  source_id = "src_1";
  fault_key = "feedback:1";
  severity = "warning";
  title = "t";
  summary = none;
  state = opened;
  incident = 1;
  opened_at = "2025-01-01T00:00:00.000Z";
  opened_by_seq = 3;
  last_event_at = "2025-01-01T00:00:00.000Z";
  resolved_at = none;
  resolved_by_seq = none;
  resolved_by = none;
  event_count = 1;
  read_at = none;
  muted_at = none;
  muted_until = none;
  change_seq = 1;
}

abbrev fault_of-IsWellFormed : IsWellFormed fault_of
fault_of-IsWellFormed = record { counted = omega arith; has_events = omega arith; recovery = tt }

transition-IsWellFormed_example :
    RowIs IsWellFormed (on_resolve (event 5 "resolve") (some fault_of)).row
transition-IsWellFormed_example =
    transition-IsWellFormed "flt_2" "src_1" "feedback:1" (event 5 "resolve") "resolve" none
      (some fault_of) (on_resolve (event 5 "resolve") (some fault_of)) tt fault_of-IsWellFormed
      (unfold transition in refl)

abbrev quiet_hub : Hub
quiet_hub = record {
  events = [];
  faults = fault_of ∷ [];
  pending_resolves = [];
  messages = [];
  changes = [];
  change_seq = some 1;
  hub_event_seq = none;
  sources = device ∷ [];
  tick = 0;
  outbox = [];
}

late_event_reopens_example :
    RowIs
      (λ g. (g.state ≡ resolved) × (g.incident ≡ fault_of.incident))
      (on_resolve
        (event 7 "resolve")
        (on_open "flt_2" "src_1" "feedback:1" (event 5 "update") none (some fault_of)).row).row
    × RowIs
        (λ g. (g.state ≡ opened) × (g.incident ≡ fault_of.incident + 1))
        (late_after "flt_2" "feedback:1" device fault_of
          (event 5 "update")
          (event 7 "resolve")
          quiet_hub).row
    × ((late_after "flt_2" "feedback:1" device fault_of
          (event 5 "update")
          (event 7 "resolve")
          quiet_hub).notify_kind
        ≡ "incident_open")
unfolding earliest_pending
late_event_reopens_example =
    late_event_reopens "flt_2" "feedback:1" device fault_of (event 5 "update") (event 7 "resolve")
      quiet_hub refl (omega arith) (omega arith) refl

abbrev on_record : PendingResolve
on_record = record {
  source_id = "src_1";
  fault_key = "feedback:1";
  seq = 7;
  occurred_at = "2025-01-01T00:00:00.000Z";
  title = "t";
  event_id = "ev_7";
}

abbrev plain_env : HubEnv
plain_env = record {
  now = λ n. n;
  fresh = λ prefix n. prefix;
  fmt_ts = λ t. "2025-01-01T00:00:00.000Z";
  parse_ts = λ s. some 0;
  marshal_attachments = λ l. "[]";
}

abbrev with_fault : Hub
with_fault = record {
  events = [];
  faults = fault_of ∷ [];
  pending_resolves = [];
  messages = [];
  changes = [];
  change_seq = some 1;
  hub_event_seq = none;
  sources = device ∷ [];
  tick = 0;
  outbox = [];
}

with_tx-IsSound_example :
    IsSound
      (with_tx false (apply_event plain_env device (event 5 "resolve") false false) with_fault).1
with_tx-IsSound_example =
    with_tx-IsSound plain_env device (event 5 "resolve") false false false with_fault
      (record { rows = (fault_of-IsWellFormed, tt); log = omega arith })
