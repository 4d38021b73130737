-- ===== src/Hub/Admin/Examples.antt =====
-- Keys, settings and rules at concrete inputs.
use sakura_assistant.Base.{
  Option, ℕ, ◌≡◌, refl, none, some, true, false, [], ◌∷◌, ◌==◌, arith, eq_iff,
}
use Prim.Native.String.{◌++◌ as text_append}
use sakura_assistant.Hub.Types.{SourceRow}
use sakura_assistant.Hub.Store.{
  HubEnv, Hub, find_source, update_source, with_tx, insert_change_obj, next_change_seq,
}
use sakura_assistant.Hub.Ingest.Events.{load_source, emit_source_change}
use sakura_assistant.Hub.Retention.Run.{insert_tombstone}
use sakura_assistant.Hub.Auth.Sessions.{AuthEnv, Auth, source_key_auth, bearer_token}
use sakura_assistant.Hub.Admin.Sources.{AdminEnv, load_live, live_source}
use sakura_assistant.Hub.Admin.Keys.{
  handle_source_rotate_key, write_key, handle_source_delete, remove_source,
}
use sakura_assistant.Hub.Admin.Shut.{
  NotEntered, handle_source_rotate_key-source_key_auth, handle_source_delete-source_key_auth,
}
use sakura_assistant.Hub.Admin.Settings.{
  SettingsDoc, default_settings, SettingsReq, changed_settings, handle_settings_patch,
  patch_settings, save_settings, load_settings, valid_dnd, valid_interval,
}
use sakura_assistant.Hub.Admin.Rules.{RulesReq, default_rules, handle_rules_put}
use sakura_assistant.Hub.Admin.Distinct.{IsStored, handle_rules_put-IsStored}
use sakura_assistant.Hub.Admin.Versions.{
  Refused, Attempt, settings_after, handle_settings_patch-Refuses,
}

abbrev hub_env : HubEnv
hub_env = record {
  now = λ n. n;
  fresh = λ prefix n. prefix;
  fmt_ts = λ t. "2026";
  parse_ts = λ s. some 0;
  marshal_attachments = λ l. "";
}

abbrev admin_env : AdminEnv
admin_env = record {
  hub = hub_env;
  rand = λ kind n. text_append kind "new";
  hash = λ s. s;
  valid_url = λ u. true;
}

abbrev door : AuthEnv
door = record {
  now = λ n. n;
  rand = λ kind n. kind;
  fresh = λ kind n. kind;
  fails = λ n. false;
  hash = λ s. s;
  compare_password = λ hash given. hash == given;
  trim = λ s. s;
  fmt_ts = λ n. "2026";
  parse_ts = λ s. some 0;
}

abbrev no_sessions : Auth
no_sessions = record { sessions = []; hits = []; tick = 0 }

abbrev nas : SourceRow
nas = record {
  id = "src_1";
  name = "nas";
  kind = "device";
  enabled = true;
  key_hash = "ask_old";
  key_plain = "ask_old";
  key_hint = "_old";
  mgmt_key_plain = "";
  mgmt_key_hint = "";
  attachment_base_url = none;
  last_seen_at = none;
  last_metrics_seq = 0;
  last_event_seq = 0;
  last_boot_time = none;
  deleted_at = none;
  created_at = "2026";
  updated_at = "2026";
}

abbrev one_source : Hub
one_source = record {
  events = [];
  faults = [];
  pending_resolves = [];
  messages = [];
  changes = [];
  change_seq = none;
  hub_event_seq = none;
  sources = nas ∷ [];
  tick = 0;
  outbox = [];
}

handle_source_rotate_key-source_key_auth_example : NotEntered "src_1" (
    source_key_auth door no_sessions
      (handle_source_rotate_key admin_env false false "src_1" one_source).1.sources
      "Bearer ask_old")
unfolding handle_source_rotate_key with_tx load_live load_source live_source find_source write_key
    update_source emit_source_change insert_change_obj next_change_seq bearer_token
handle_source_rotate_key-source_key_auth_example =
    handle_source_rotate_key-source_key_auth admin_env door no_sessions false false "src_1"
      "ask_new" "Bearer ask_old" one_source
      (handle_source_rotate_key admin_env false false "src_1" one_source).1 refl
      (λ e. let same : false ≡ true = (eq_iff "ask_new" "ask_old").1 e in ground (arith, same))

handle_source_delete-source_key_auth_example : NotEntered "src_1" (
    source_key_auth door no_sessions
      (handle_source_delete admin_env false "src_1" one_source).1.sources
      "Bearer ask_old")
unfolding handle_source_delete with_tx load_live load_source live_source find_source remove_source
    update_source insert_tombstone insert_change_obj next_change_seq
handle_source_delete-source_key_auth_example =
    handle_source_delete-source_key_auth admin_env door no_sessions false "src_1" "Bearer ask_old"
      one_source (handle_source_delete admin_env false "src_1" one_source).1 refl

abbrev faster : SettingsReq
faster = record { expected_version = some 1; dnd = none; report_interval_seconds = some 10 }

abbrev slower : SettingsReq
slower = record { expected_version = some 1; dnd = none; report_interval_seconds = some 600 }

-- Taken, since it expects the version of the first.
abbrev afterwards : Attempt
afterwards = record {
  lost = false;
  aborted = false;
  req = record slower { expected_version = some 2 };
  before = one_source;
}

abbrev kept_settings : Option SettingsDoc
kept_settings =
    settings_after hub_env (λ d. "{}") (afterwards ∷ [])
      (some (changed_settings faster default_settings))

handle_settings_patch-Refuses_example :
    Refused kept_settings
      (handle_settings_patch hub_env (λ d. "{}") false false slower kept_settings one_source)
unfolding handle_settings_patch patch_settings save_settings load_settings valid_dnd valid_interval
    with_tx insert_change_obj next_change_seq
handle_settings_patch-Refuses_example =
    handle_settings_patch-Refuses hub_env (λ d. "{}") false false false false faster slower
      (afterwards ∷ []) none (some (changed_settings faster default_settings))
      (changed_settings faster default_settings) one_source
      (handle_settings_patch hub_env (λ d. "{}") false false faster none one_source).1.1 one_source
      refl refl

abbrev preset : RulesReq ℕ
preset = record {
  expected_version = some 1;
  heartbeat_seconds = some 120;
  rules = default_rules (λ n. n);
}

handle_rules_put-IsStored_example :
    IsStored
      (some 1)
      (handle_rules_put hub_env (λ n. n) (λ d. "{}") false false preset none one_source)
handle_rules_put-IsStored_example =
    handle_rules_put-IsStored hub_env (λ n. n) (λ d. "{}") false false preset none one_source
