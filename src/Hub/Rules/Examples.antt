-- ===== src/Hub/Rules/Examples.antt =====
-- Rules of the hub at concrete inputs.
use sakura_assistant.Base.{
  List, ◌⊎◌, Bool, [], arith, false, none, refl, some, true, ℕ, ◌*◌, ◌+◌, ◌∷◌, ◌≡◌, ◌≤◌,
}
use sakura_assistant.Hub.Types.{SourceRow}
use sakura_assistant.Hub.Store.{HubEnv, Hub, find_source}
use sakura_assistant.Hub.Rules.Engine.{Timer, pause_source}
use sakura_assistant.Hub.Rules.Threshold.{judge, no_state, second}
use sakura_assistant.Hub.Rules.Types.{Rule}
use sakura_assistant.Hub.Rules.Window.{
  Reading, Since, Violates, Recovers, judge-opens, judge-resolves,
}
use sakura_assistant.Hub.Rules.Heartbeat.{check_source}
use sakura_assistant.Hub.Rules.Silence.{disabled, check_source-calm}

abbrev reading_at : ℕ → Bool → Bool → Reading
reading_at t violation fault_open = record {
  violation = violation;
  recovery = true;
  fault_open = fault_open;
  now = t * second;
}

judge-opens_example :
    (false ≡ false)
    × (t : ℕ) × (Since Violates (reading_at 70 true false ∷ reading_at 5 true false ∷ []) t)
    × (t + 60 * second ≤ 70 * second)
unfolding judge
judge-opens_example =
    judge-opens 60 30 (reading_at 70 true false) (reading_at 5 true false ∷ []) (omega arith) refl

judge-resolves_example :
    (true ≡ true)
    × (t : ℕ) × (Since Recovers (reading_at 70 false true ∷ reading_at 40 false true ∷ []) t)
    × (t + 30 * second ≤ 70 * second)
unfolding judge
judge-resolves_example =
    judge-resolves 60 30 (reading_at 70 false true) (reading_at 40 false true ∷ []) (omega arith)
      refl

abbrev tick_env : HubEnv
tick_env = record {
  now = λ n. n;
  fresh = λ prefix n. prefix;
  fmt_ts = λ t. "2025-01-01T00:00:00.000Z";
  parse_ts = λ s. some 5;
  marshal_attachments = λ l. "[]";
}

abbrev row_seen : Bool → SourceRow
row_seen enabled = record {
  id = "src_1";
  name = "nas";
  kind = "device";
  enabled = enabled;
  key_hash = "h";
  key_plain = "k";
  key_hint = "k";
  mgmt_key_plain = "";
  mgmt_key_hint = "";
  attachment_base_url = none;
  last_seen_at = some "2025-01-01T00:00:00.000Z";
  last_metrics_seq = 0;
  last_event_seq = 0;
  last_boot_time = none;
  deleted_at = none;
  created_at = "2025-01-01T00:00:00.000Z";
  updated_at = "2025-01-01T00:00:00.000Z";
}

abbrev hub_with_row : Hub
hub_with_row = record {
  events = [];
  faults = [];
  pending_resolves = [];
  messages = [];
  changes = [];
  change_seq = none;
  hub_event_seq = none;
  sources = row_seen false ∷ [];
  tick = 0;
  outbox = [];
}

-- The check had listed the device while it was enabled; it is disabled by now.
abbrev one_timer : List Timer
one_timer =
    record {
      key = record { source_id = "src_1"; rule_id = "cpu-high"; label_sel = "-" };
      state = no_state;
    }
    ∷ []

check_source-calm_example :
    (check_source tick_env
        (λ n. "180")
        (record { now = 500 * second; seconds = 180 })
        false
        (row_seen true)
        hub_with_row
        one_timer
      ≡ (hub_with_row, one_timer))
    ⊎ (check_source tick_env
          (λ n. "180")
          (record { now = 500 * second; seconds = 180 })
          false
          (row_seen true)
          hub_with_row
          one_timer
        ≡ (hub_with_row, pause_source "src_1" one_timer))
unfolding find_source
check_source-calm_example =
    check_source-calm tick_env (λ n. "180") (record { now = 500 * second; seconds = 180 }) false
      (row_seen true) (row_seen false) hub_with_row one_timer refl (disabled refl)

abbrev cpu_rule : Rule ℕ
cpu_rule = record {
  id = "cpu-high";
  kind = "threshold";
  metric = "cpu_percent";
  label = none;
  op = "gt";
  value = some 90;
  for_seconds = 60;
  recover_value = none;
  recover_for_seconds = 60;
  matching = none;
  severity = "warning";
  enabled = true;
}
