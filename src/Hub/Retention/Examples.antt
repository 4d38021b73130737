-- ===== src/Hub/Retention/Examples.antt =====
-- A retention run at a concrete database: an old resolved fault with its message, and an open fault.
use sakura_assistant.Base.{ℕ, none, some, Bool, false, List, [], ◌∷◌, ◌==◌, String, arith}
use sakura_assistant.Hub.Types.{FaultRow, opened, resolved, MessageRow, ChangeEntry, tombstone}
use sakura_assistant.Hub.Store.{HubEnv, Hub}
use sakura_assistant.Hub.Metrics.Tables.{MetricsDb}
use sakura_assistant.Hub.Fault.Invariant.{IsSound}
use sakura_assistant.Hub.Retention.Run.{RetentionConfig, Rollup, run_retention}
use sakura_assistant.Hub.Retention.Told.{Told}
use sakura_assistant.Hub.Retention.Sound.{Windowed, run_retention-Windowed}

abbrev env : HubEnv
env = record {
  now = λ n. n;
  fresh = λ prefix n. prefix;
  fmt_ts = λ t. "2026";
  parse_ts = λ s. some 0;
  marshal_attachments = λ l. "";
}

abbrev is_2025 : String → String → Bool
is_2025 a limit = a == "2025"

abbrev week : RetentionConfig
week = record {
  raw_days = 7;
  rollup_days = 90;
  messages_days = 90;
  changes_days = 7;
  changes_min_seq = 0;
}

abbrev open_fault : FaultRow
open_fault = record {
  id = "flt_1";
  source_id = "src_1";
  fault_key = "disk";
  severity = "warning";
  title = "t";
  summary = none;
  state = opened;
  incident = 1;
  opened_at = "2025";
  opened_by_seq = 1;
  last_event_at = "2025";
  resolved_at = none;
  resolved_by_seq = none;
  resolved_by = none;
  event_count = 1;
  read_at = none;
  muted_at = none;
  muted_until = none;
  change_seq = 1;
}

abbrev old_fault : FaultRow
old_fault = record open_fault {
  id = "flt_2";
  state = resolved;
  resolved_at = some "2025";
  resolved_by_seq = some 2;
  resolved_by = some "ev_2";
}

abbrev old_message : MessageRow
old_message = record {
  id = "msg_1";
  source_id = "src_1";
  kind = "custom";
  severity = "warning";
  title = "t";
  body = none;
  occurred_at = "2025";
  received_at = "2025";
  read_at = none;
  fault_id = some "flt_2";
  incident = some 1;
  ref = none;
  attachments = none;
  event_id = "ev_1";
  event_seq = 1;
  fault_key = some "disk";
  out_of_order = false;
  change_seq = 1;
}

abbrev change : ChangeEntry
change = record {
  seq = 1;
  ref_id = "flt_9";
  object = tombstone "fault" "flt_9";
  notify = none;
  created_at = "2025";
}

abbrev full : Hub
full = record {
  events = [];
  faults = open_fault ∷ old_fault ∷ [];
  pending_resolves = [];
  messages = old_message ∷ [];
  changes = change ∷ [];
  change_seq = some 1;
  hub_event_seq = none;
  sources = [];
  tick = 0;
  outbox = [];
}

abbrev no_metrics : MetricsDb ℕ
no_metrics = record { samples = []; raw = []; details = [] }

abbrev no_rollups : List (Rollup ℕ)
no_rollups = []

full-IsSound : IsSound full
full-IsSound = record {
  rows = (
    record { counted = omega arith; has_events = omega arith; recovery = tt },
    (record { counted = omega arith; has_events = omega arith; recovery = omega arith }, tt),
  );
  log = (omega arith, omega arith);
}

run_retention-Windowed_example :
    Windowed env is_2025 week
      (change ∷ [])
      "2026"
      (run_retention env is_2025 week false 0 no_metrics no_rollups full).1
run_retention-Windowed_example =
    run_retention-Windowed env is_2025 week false 0 no_metrics no_rollups full full-IsSound
