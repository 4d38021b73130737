-- ===== src/Hub/Metrics/Examples.antt =====
-- A batch of metrics that the hub had before.
use sakura_assistant.Base.{ℕ, refl, none, some, true, false, [], ◌∷◌, ltb, leb}
use sakura_assistant.Hub.Types.{SourceRow}
use sakura_assistant.Hub.Store.{HubEnv, Hub, find_source}
use sakura_assistant.Hub.Rules.Types.{Order, SamplePayload}
use sakura_assistant.Hub.Rules.Engine.{RuleTexts}
use sakura_assistant.Hub.Metrics.Tables.{MetricsReq}
use sakura_assistant.Hub.Metrics.Batch.{Memory, handle_ingest_metrics}
use sakura_assistant.Hub.Metrics.Stale.{IsDropped, handle_ingest_metrics-IsDropped}

abbrev metrics_env : HubEnv
metrics_env = record {
  now = λ n. n;
  fresh = λ prefix n. prefix;
  fmt_ts = λ t. "2025-01-01T00:00:00.000Z";
  parse_ts = λ s. some 5;
  marshal_attachments = λ l. "[]";
}

abbrev reported : SourceRow
reported = record {
  id = "src_1";
  name = "nas";
  kind = "device";
  enabled = true;
  key_hash = "h";
  key_plain = "k";
  key_hint = "k";
  mgmt_key_plain = "";
  mgmt_key_hint = "";
  attachment_base_url = none;
  last_seen_at = none;
  last_metrics_seq = 7;
  last_event_seq = 0;
  last_boot_time = none;
  deleted_at = none;
  created_at = "2025-01-01T00:00:00.000Z";
  updated_at = "2025-01-01T00:00:00.000Z";
}

abbrev metrics_hub : Hub
metrics_hub = record {
  events = [];
  faults = [];
  pending_resolves = [];
  messages = [];
  changes = [];
  change_seq = none;
  hub_event_seq = none;
  sources = reported ∷ [];
  tick = 0;
  outbox = [];
}

abbrev number_order : Order ℕ
number_order = record { lt = ltb; le = leb }

abbrev number_texts : RuleTexts ℕ
number_texts = record { over = λ sel v limit n. sel; under = λ sel v back n. sel; dec = λ n. "0" }

abbrev one_sample : SamplePayload ℕ
one_sample = record {
  ts = "2025-01-01T00:00:00.000Z";
  cpu_percent = some 97;
  mem_percent = none;
  uptime_seconds = none;
  boot_time = none;
  disks = [];
  net = none;
  containers = none;
  nas = none;
}

abbrev batch_seven : MetricsReq ℕ
batch_seven = record { seq = 7; sample = some one_sample; agent = none; capabilities = none }

abbrev no_memory : Memory ℕ
no_memory = record { db = record { samples = []; raw = []; details = [] }; timers = [] }

handle_ingest_metrics-IsDropped_example : IsDropped no_memory (
    handle_ingest_metrics metrics_env number_order number_texts [] false "src_1" 9 batch_seven
      no_memory metrics_hub)
unfolding find_source
handle_ingest_metrics-IsDropped_example =
    handle_ingest_metrics-IsDropped metrics_env number_order number_texts [] 9 batch_seven no_memory
      false "src_1" reported metrics_hub refl refl
