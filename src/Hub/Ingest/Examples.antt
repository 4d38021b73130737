-- ===== src/Hub/Ingest/Examples.antt =====
-- Deliveries to the hub at concrete inputs.
use sakura_assistant.Base.{
  ℕ, String, ◌≡◌, refl, none, some, true, false, List, [], ◌∷◌, ◌++◌, ltb, Bool-cases, inl, inr,
  if◌then◌else◌,
}
use mathlib.Core.List.{Permᴰ}
use mathlib.Core.List.Permᴰ
use sakura_assistant.Hub.Types.{EventPayload, SourceRow}
use sakura_assistant.Hub.Store.{
  HubEnv, Hub, with_tx, find_source, load_fault, find_fault, insert_change_obj, next_change_seq,
  update_source,
}
use sakura_assistant.Hub.Fault.Apply.{
  touch_source_seen, end_heartbeat, apply_event, attachments_json, backfill_messages, backfill_row,
  deliver, event_row, message_row, move_fault, notify_of, record_fault, record_message, record_row,
}
use sakura_assistant.Hub.Fault.Tables.{
  has_event, insert_event, message_kind, non_empty, or_empty, ref_of,
}
use sakura_assistant.Hub.Ingest.Events.{
  Item, done, handle_ingest_events, text_in, ingest_events, load_source, check_batch, store_batch,
  apply_items, check_events, emit_source_change, finish, number_in, pick,
}
use sakura_assistant.Hub.Ingest.Validate.{
  validate_event, matches_event_id, all_id_chars, id_char, check_incident, check_texts,
}
use sakura_assistant.Hub.Ingest.Record.{has_event-append}
use sakura_assistant.Hub.Ingest.Partition.{Accounted, handle_ingest_events-Accounted}
use sakura_assistant.Hub.Ingest.Redelivery.{accepted_of, Unlisted, handle_ingest_events-redelivered}

unfoldable insert_item : Item → List Item → List Item
insert_item it [] = it ∷ []
insert_item it (x ∷ xs) =
    let rest = insert_item it xs in if ltb x.ev.seq it.ev.seq then x ∷ rest else it ∷ x ∷ xs

unfoldable sort_items : List Item → List Item
sort_items [] = []
sort_items (it ∷ items) = insert_item it (sort_items items)

insert_item-Perm : (it : Item) (xs : List Item) → Permᴰ (insert_item it xs) (it ∷ xs)
unfolding insert_item
insert_item-Perm it [] = Permᴰ.refl (it ∷ [])
insert_item-Perm it (x ∷ xs) = elim (Bool-cases (ltb x.ev.seq it.ev.seq)) [
  | inl after ↦
      rw after (Permᴰ.trans (Permᴰ.cons refl (insert_item-Perm it xs)) (Permᴰ.swap refl refl))
  | inr before ↦ rw before (Permᴰ.refl (it ∷ x ∷ xs))
]

sort_items-Perm : (items : List Item) → Permᴰ (sort_items items) items
unfolding sort_items
sort_items-Perm [] = Permᴰ.nil
sort_items-Perm (it ∷ items) =
    Permᴰ.trans (insert_item-Perm it (sort_items items)) (Permᴰ.cons refl (sort_items-Perm items))

abbrev numbered_event : String → ℕ → EventPayload
numbered_event id n = record {
  event_id = id;
  seq = n;
  kind = "feedback_error";
  occurred_at = "2025-01-01T00:00:00.000Z";
  severity = "warning";
  fault_key = none;
  incident_action = none;
  title = "t";
  body = none;
  ref = "";
  attachments = [];
}

abbrev clock_env : HubEnv
clock_env = record {
  now = λ n. n;
  fresh = λ prefix n. prefix;
  fmt_ts = λ t. "2025-01-01T00:00:00.000Z";
  parse_ts = λ s. some 0;
  marshal_attachments = λ l. "[]";
}

abbrev feed : SourceRow
feed = record {
  id = "src_1";
  name = "nas";
  kind = "device";
  enabled = true;
  key_hash = "h";
  key_plain = "k";
  key_hint = "k";
  mgmt_key_plain = "";
  mgmt_key_hint = "";
  attachment_base_url = none;
  last_seen_at = none;
  last_metrics_seq = 0;
  last_event_seq = 0;
  last_boot_time = none;
  deleted_at = none;
  created_at = "2025-01-01T00:00:00.000Z";
  updated_at = "2025-01-01T00:00:00.000Z";
}

abbrev new_hub : Hub
new_hub = record {
  events = [];
  faults = [];
  pending_resolves = [];
  messages = [];
  changes = [];
  change_seq = none;
  hub_event_seq = none;
  sources = feed ∷ [];
  tick = 0;
  outbox = [];
}

abbrev two_events : List EventPayload
two_events = numbered_event "b" 2 ∷ numbered_event "a" 1 ∷ []

abbrev after_first : Hub
after_first = (handle_ingest_events clock_env sort_items false "src_1" 5 two_events new_hub).1

first_reply :
    handle_ingest_events clock_env sort_items false "src_1" 5 two_events new_hub
    ≡ (done ("b" ∷ "a" ∷ []) [] [] 2, after_first)
unfolding with_tx find_source load_fault find_fault insert_change_obj next_change_seq update_source
    touch_source_seen end_heartbeat apply_event attachments_json backfill_messages backfill_row
    deliver event_row message_row move_fault notify_of record_fault record_message record_row
    has_event insert_event message_kind non_empty or_empty ref_of handle_ingest_events text_in
    ingest_events load_source check_batch store_batch apply_items check_events emit_source_change
    finish number_in pick validate_event matches_event_id all_id_chars id_char check_incident
    check_texts sort_items insert_item
first_reply = refl

-- Another event came in between; the later batch has one old event and one new one.
abbrev with_third : Hub
with_third = record after_first {
  events =
      after_first.events
      ++ event_row clock_env feed (numbered_event "c" 3) false false "2025-01-01T00:00:00.000Z"
        ∷ [];
}

handle_ingest_events-redelivered_example : Unlisted ("b" ∷ "a" ∷ []) (
    accepted_of
      (handle_ingest_events clock_env sort_items false "src_1" 9
        (numbered_event "a" 1 ∷ numbered_event "d" 4 ∷ [])
        with_third).0)
handle_ingest_events-redelivered_example =
    handle_ingest_events-redelivered clock_env sort_items sort_items-Perm "src_1" 5 9 two_events
      (numbered_event "a" 1 ∷ numbered_event "d" 4 ∷ []) new_hub after_first with_third
      ("b" ∷ "a" ∷ []) [] [] 2 false first_reply
      (λ x h. has_event-append "src_1" x after_first.events _ h)

handle_ingest_events-Accounted_example :
    Accounted two_events
      (handle_ingest_events clock_env sort_items false "src_1" 5 two_events new_hub).0
handle_ingest_events-Accounted_example =
    handle_ingest_events-Accounted clock_env sort_items sort_items-Perm two_events false "src_1" 5
      new_hub
