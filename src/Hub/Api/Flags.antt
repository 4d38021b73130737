-- ===== src/Hub/Api/Flags.antt =====
-- hub/api.go, updateFaultFlags and setMessageRead: what a client marks. `aborted` is the failure of a
-- transaction.
use sakura_assistant.Base.{
  String, Option, none, some, Bool, true, false, List, [], ◌∷◌, ◌==◌, if◌then◌else◌,
}
use sakura_assistant.Hub.Types.{FaultRow, MessageRow, SourceRow, fault, message}
use sakura_assistant.Hub.Store.{
  HubEnv, Hub, Tx, no_rows, bad_request, unknown_action, constraint, statement, Result, ok, err,
  ◌>>=◌, ◌>>◌, return, modify, gets, now_ts, with_tx, insert_change_obj, find_source,
}
use sakura_assistant.Hub.Fault.Apply.{numbered, last_change}

-- `SELECT ... WHERE id=?` and `UPDATE ... WHERE id=?`
unfoldable pub fault_by_id : String → List FaultRow → Option FaultRow
fault_by_id id [] = none
fault_by_id id (f ∷ rest) = if f.id == id then some f else fault_by_id id rest

unfoldable pub update_fault : String → (FaultRow → FaultRow) → List FaultRow → List FaultRow
update_fault id g [] = []
update_fault id g (f ∷ rest) =
    let others = update_fault id g rest in (if f.id == id then g f else f) ∷ others

unfoldable pub message_by_id : String → List MessageRow → Option MessageRow
message_by_id id [] = none
message_by_id id (m ∷ rest) = if m.id == id then some m else message_by_id id rest

unfoldable pub update_message :
    String → (MessageRow → MessageRow) → List MessageRow → List MessageRow
update_message id g [] = []
update_message id g (m ∷ rest) =
    let others = update_message id g rest in (if m.id == id then g m else m) ∷ others

-- `sourceName`: "" when the source is not there.
unfoldable pub source_name : String → List SourceRow → String
source_name id sources = elim (find_source id sources) [ none ↦ "" | some src ↦ src.name ]

pub data Op : Type 0 where
  read mute unmute : Op

-- The row after the operation, unless it is so already.
unfoldable pub flagged : Op → String → FaultRow → Option FaultRow
flagged read now f = elim f.read_at [
  | none ↦ some (record f { read_at = some now })
  | some _ ↦ none
]
flagged mute now f = elim f.muted_at [
  | none ↦ some (record f { muted_at = some now; muted_until = none })
  | some _ ↦ none
]
flagged unmute now f = elim f.muted_at [
  | none ↦ none
  | some _ ↦ some (record f { muted_at = none; muted_until = none })
]

pub data FlagReply (A : Type 0) : Type 0 where
  marked : A → FlagReply A
  not_found internal : FlagReply A

abbrev pub flag_reply : {A : Type 0} → Result A × Hub → FlagReply A × Hub
flag_reply (ok a, s) = (marked a, s)
flag_reply (err no_rows, s) = (not_found, s)
flag_reply (err (bad_request m), s) = (internal, s)
flag_reply (err (unknown_action m), s) = (internal, s)
flag_reply (err (constraint m), s) = (internal, s)
flag_reply (err statement, s) = (internal, s)

abbrev pub row_or_missing : {A : Type 0} → Option A → Tx A
row_or_missing none s = (err no_rows, s)
row_or_missing (some a) s = (ok a, s)

unfoldable pub load_fault_row : String → Tx FaultRow
load_fault_row id s = row_or_missing (fault_by_id id s.faults) s

-- `loadMessageTx`
unfoldable pub load_message : String → Tx MessageRow
load_message id s = row_or_missing (message_by_id id s.messages) s

abbrev pub with_flags : FaultRow → FaultRow → FaultRow
with_flags g r = record r {
  read_at = g.read_at;
  muted_at = g.muted_at;
  muted_until = g.muted_until;
}

abbrev pub set_flags : String → FaultRow → Tx (Unit {0})
set_flags id g = modify (λ s. record s { faults = update_fault id (with_flags g) s.faults })

abbrev pub set_number : String → Tx (Unit {0})
set_number id = modify (λ s. record s {
  faults = update_fault id (λ r. record r { change_seq = last_change s }) s.faults;
})

module _ (env : HubEnv) where
  unfoldable pub broadcast_fault : FaultRow → Tx (Unit {0})
  broadcast_fault g =
      gets (λ s. source_name g.source_id s.sources)
      >>= (λ name. insert_change_obj env g.id (λ seq. fault (numbered g seq) name) none)

  unfoldable pub store_flags : FaultRow → Option FaultRow → Tx FaultRow
  store_flags f none = return f
  store_flags f (some g) =
      set_flags f.id g
      >> broadcast_fault g
      >> set_number f.id
      >> gets (λ s. numbered g (last_change s))

  unfoldable pub mark_fault : Op → FaultRow → Tx FaultRow
  mark_fault op f = now_ts env >>= (λ now. store_flags f (flagged op now f))

  -- `updateFaultFlags`
  unfoldable pub update_fault_flags : Bool → Op → String → Hub → FlagReply FaultRow × Hub
  update_fault_flags aborted op id s =
      flag_reply (with_tx aborted (load_fault_row id >>= mark_fault op) s)

  abbrev pub is_read : MessageRow → Bool
  is_read m = elim m.read_at [ none ↦ false | some _ ↦ true ]

  unfoldable pub write_message : MessageRow → Tx MessageRow
  write_message m =
      modify (λ s. record s {
        messages = update_message m.id (λ r. record r { read_at = m.read_at }) s.messages;
      })
      >> gets (λ s. source_name m.source_id s.sources)
      >>= (λ name.
          insert_change_obj env m.id (λ seq. message (record m { change_seq = seq }) name) none)
      >> modify (λ s. record s {
        messages = update_message m.id (λ r. record r { change_seq = last_change s }) s.messages;
      })
      >> gets (λ s. record m { change_seq = last_change s })

  unfoldable pub mark_message : Bool → MessageRow → Tx MessageRow
  mark_message true m =
      if is_read m
      then return m
      else now_ts env >>= (λ now. write_message (record m { read_at = some now }))
  mark_message false m = if is_read m then write_message (record m { read_at = none }) else return m

  -- `setMessageRead`
  unfoldable pub set_message_read : Bool → String → Bool → Hub → FlagReply MessageRow × Hub
  set_message_read aborted id to_read s =
      flag_reply (with_tx aborted (load_message id >>= mark_message to_read) s)
