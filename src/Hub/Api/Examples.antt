-- ===== src/Hub/Api/Examples.antt =====
-- Pages of a small log, and a fault that is muted.
use sakura_assistant.Base.{ℕ, ◌≡◌, refl, none, false, List, [], ◌∷◌, arith, some}
use sakura_assistant.Hub.Types.{FaultRow, opened, ChangeEntry, tombstone}
use sakura_assistant.Hub.Store.{
  HubEnv, Hub, with_tx, insert_change_obj, next_change_seq, find_source,
}
use sakura_assistant.Hub.Stream.Client.{above, changes_since, order_by_seq}
use sakura_assistant.Hub.Api.Sync.{sync_page}
use sakura_assistant.Hub.Api.Paging.{follow, follow-above}
use sakura_assistant.Hub.Api.Flags.{
  mute, flagged, fault_by_id, update_fault, source_name, load_fault_row, mark_fault, store_flags,
  broadcast_fault, update_fault_flags,
}
use sakura_assistant.Hub.Api.Again.{SameTables, update_fault_flags-Idle}
use sakura_assistant.Hub.Api.Skipped.{sync_page-Skips}

abbrev gone : ℕ → ChangeEntry
gone n = record {
  seq = n;
  ref_id = "flt_1";
  object = tombstone "fault" "flt_1";
  notify = none;
  created_at = "2026";
}

abbrev three : List ChangeEntry
three = gone 2 ∷ gone 4 ∷ gone 5 ∷ []

follow-above_example : follow 3 1 0 three ≡ above 0 three
unfolding above
follow-above_example =
    follow-above 3 1 0 three 5 (omega arith, (omega arith, (omega arith, omega arith)))
      (omega arith) (omega arith)

sync_page-Skips_example :
    (sync_page 500 4 (gone 2 ∷ gone 4 ∷ []) three
      ≡ record { cursor = 5; has_more = false; changes = [] })
    × ((sync_page 500 5 three three).changes ≡ [])
unfolding changes_since above order_by_seq
sync_page-Skips_example =
    sync_page-Skips 500 4 (gone 2 ∷ gone 4 ∷ []) (gone 5)
      (omega arith, (omega arith, (omega arith, omega arith))) (omega arith) refl

abbrev env : HubEnv
env = record {
  now = λ n. n;
  fresh = λ prefix n. prefix;
  fmt_ts = λ t. "2026";
  parse_ts = λ s. some 0;
  marshal_attachments = λ l. "";
}

abbrev disk_fault : FaultRow
disk_fault = record {
  id = "flt_1";
  source_id = "src_1";
  fault_key = "disk";
  severity = "warning";
  title = "t";
  summary = none;
  state = opened;
  incident = 1;
  opened_at = "2025";
  opened_by_seq = 1;
  last_event_at = "2025";
  resolved_at = none;
  resolved_by_seq = none;
  resolved_by = none;
  event_count = 1;
  read_at = none;
  muted_at = none;
  muted_until = none;
  change_seq = 1;
}

abbrev one_fault : Hub
one_fault = record {
  events = [];
  faults = disk_fault ∷ [];
  pending_resolves = [];
  messages = [];
  changes = [];
  change_seq = some 1;
  hub_event_seq = none;
  sources = [];
  tick = 0;
  outbox = [];
}

update_fault_flags-Idle_example :
    SameTables env
      (update_fault_flags env false mute "flt_1" one_fault).1
      (update_fault_flags env false mute "flt_1"
        (update_fault_flags env false mute "flt_1" one_fault).1).1
unfolding update_fault_flags with_tx load_fault_row mark_fault store_flags broadcast_fault
    insert_change_obj next_change_seq flagged fault_by_id update_fault source_name find_source
update_fault_flags-Idle_example =
    update_fault_flags-Idle env false false mute "flt_1" one_fault
      (update_fault_flags env false mute "flt_1" one_fault).1
      (record disk_fault { muted_at = some "2026"; change_seq = 2 }) refl
