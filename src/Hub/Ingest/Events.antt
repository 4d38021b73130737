-- ===== src/Hub/Ingest/Events.antt =====
-- hub/ingest.go, handleIngestEvents, and the helpers on sources. `sort.Slice`, which does not keep
-- the order of equal elements, is the parameter `sort`.
use sakura_assistant.Base.{
  ℕ, ◌+◌, String, none, some, Bool, false, List, [], ◌∷◌, ◌==◌, ◌||◌, ltb, leb, eqb, length,
  if◌then◌else◌,
}
use sakura_assistant.Hub.Types.{EventPayload, SourceRow, source}
use sakura_assistant.Hub.Store.{
  HubEnv, Hub, Tx, Result, ok, err, no_rows, ◌>>=◌, ◌>>◌, return, modify, insert_change_obj,
  find_source, update_source, with_tx,
}
use sakura_assistant.Hub.Fault.Tables.{has_event}
use sakura_assistant.Hub.Fault.Apply.{apply_event, touch_source_seen}
use sakura_assistant.Hub.Ingest.Validate.{validate_event}

unfoldable pub load_source : String → Tx SourceRow
load_source id s = elim (find_source id s.sources) [
  | none ↦ (err no_rows, s)
  | some src ↦ (ok src, s)
]

unfoldable pub emit_source_change : HubEnv → SourceRow → Tx (Unit {0})
emit_source_change env src = insert_change_obj env src.id (λ _. source src) none

pub record Item : Type 0 where
  pub idx : ℕ
  pub ev : EventPayload

pub record Rejection : Type 0 where
  pub event_id : String
  pub code : String
  pub message : String

-- The batch after the checks: the valid items, the rejections, and the positions of the duplicates.
pub record Checked : Type 0 where
  pub valid : List Item
  pub rejected : List Rejection
  pub dups : List ℕ

unfoldable pub text_in : String → List String → Bool
text_in x [] = false
text_in x (y ∷ rest) = y == x || text_in x rest

unfoldable pub number_in : ℕ → List ℕ → Bool
number_in x [] = false
number_in x (y ∷ rest) = eqb y x || number_in x rest

abbrev pub rejection : EventPayload → String → Rejection
rejection ev message = record {
  event_id = ev.event_id;
  code = "invalid_request";
  message = message;
}

abbrev pub with_rejected : Rejection → Checked → Checked
with_rejected r c = record c { rejected = r ∷ c.rejected }

abbrev pub with_dup : ℕ → Checked → Checked
with_dup i c = record c { dups = i ∷ c.dups }

abbrev pub with_valid : Item → Checked → Checked
with_valid it c = record c { valid = it ∷ c.valid }

-- What the handler's variables hold when the transaction is over.
pub record Ingested : Type 0 where
  pub accepted_idx : List ℕ
  pub dup_idx : List ℕ
  pub rejections : List Rejection
  pub last_seq : ℕ

module _ (env : HubEnv) where
  -- The first loop, from position `i`, with the ids `seen` so far. The events table is only read.
  -- Each event's check reads the clock.
  unfoldable pub check_events : Hub → String → ℕ → ℕ → List String → List EventPayload → Checked
  check_events s src i tick seen [] = record { valid = []; rejected = []; dups = [] }
  check_events s src i tick seen (ev ∷ rest) =
      let skipped = check_events s src (i + 1) (tick + 1) seen rest in
      let taken = check_events s src (i + 1) (tick + 1) (ev.event_id ∷ seen) rest in
      elim (validate_event env (env.now tick) ev) [
        | some message ↦ with_rejected (rejection ev message) skipped
        | none ↦
            if text_in ev.event_id seen || has_event src ev.event_id s.events
            then with_dup i skipped
            else with_valid (record { idx = i; ev = ev }) taken
      ]

  -- The second loop. `last` is the highest number so far.
  unfoldable pub apply_items : SourceRow → ℕ → List Item → Tx ℕ
  apply_items src last [] = return last
  apply_items src last (it ∷ rest) =
      apply_event env src it.ev false (leb it.ev.seq last)
      >> apply_items src (if ltb last it.ev.seq then it.ev.seq else last) rest

abbrev pub indices : List Item → List ℕ
indices [] = []
indices (it ∷ rest) = it.idx ∷ indices rest

-- The first loop, as a step of the transaction.
unfoldable pub check_batch : HubEnv → SourceRow → List EventPayload → Tx Checked
check_batch env cur events s =
    (ok (check_events env s cur.id 0 s.tick [] events), record s { tick = s.tick + length events })

-- The end of the transaction: the highest number is kept, and the source goes out as a change.
unfoldable pub finish : HubEnv → SourceRow → List Item → Checked → ℕ → Tx Ingested
finish env cur items checked last = do
  modify (λ s. record s {
    sources = update_source cur.id (λ r. record r { last_event_seq = last }) s.sources;
  })
  fresh ← load_source cur.id
  emit_source_change env fresh
  return (record {
    accepted_idx = indices items;
    dup_idx = checked.dups;
    rejections = checked.rejected;
    last_seq = last;
  })

module _ (env : HubEnv) (sort : List Item → List Item) where
  unfoldable pub store_batch : SourceRow → Checked → Tx Ingested
  store_batch cur checked = do
    last ← apply_items env cur cur.last_event_seq (sort checked.valid)
    finish env cur (sort checked.valid) checked last

  -- The transaction of `handleIngestEvents`.
  unfoldable pub ingest_events : String → ℕ → List EventPayload → Tx Ingested
  ingest_events id arrival events = do
    row ← load_source id
    cur ← touch_source_seen env row arrival
    checked ← check_batch env cur events
    store_batch cur checked

-- The events at the positions of a list, in the order of the batch.
unfoldable pub pick : List ℕ → ℕ → List EventPayload → List String
pick at i [] = []
pick at i (ev ∷ rest) =
    let others = pick at (i + 1) rest in if number_in i at then ev.event_id ∷ others else others

pub data Reply : Type 0 where
  invalid : String → Reply
  internal : Reply
  done : List String → List String → List Rejection → ℕ → Reply

abbrev pub reply_of : List EventPayload → Result Ingested → Reply
reply_of events (err e) = internal
reply_of events (ok r) =
    done (pick r.accepted_idx 0 events) (pick r.dup_idx 0 events) r.rejections r.last_seq

-- `handleIngestEvents`, after the body is decoded. `aborted` is the transaction's failure.
unfoldable pub handle_ingest_events :
    HubEnv → (List Item → List Item) → Bool → String → ℕ → List EventPayload → Hub → Reply × Hub
handle_ingest_events env sort aborted id arrival events s =
    if ltb 100 (length events)
    then (invalid "单批 events 超过 100 条", s)
    else let r = with_tx aborted (ingest_events env sort id arrival events) s in
      (reply_of events r.0, r.1)
