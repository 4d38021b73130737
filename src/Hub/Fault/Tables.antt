-- ===== src/Hub/Fault/Tables.antt =====
-- hub/fault.go: the statements of applyEventTx on the tables events, faults, pending_resolves and
-- messages.
use sakura_assistant.Base.{
  ℕ, String, Option, none, some, Bool, false, ◌&&◌, ◌||◌, not, List, [], ◌∷◌, ◌++◌, ◌==◌, eqb, leb,
  if◌then◌else◌,
}
use sakura_assistant.Hub.Types.{EventPayload, FaultRow, MessageRow, EventRow, PendingResolve}
use sakura_assistant.Hub.Store.{Tx, ok, err, constraint}

-- `sql.NullString` of a pointer that may be empty: "" counts as absent.
unfoldable pub non_empty : Option String → Option String
non_empty none = none
non_empty (some s) = if s == "" then none else some s

unfoldable pub ref_of : String → Option String
ref_of r = if r == "" then none else if r == "null" then none else some r

unfoldable pub or_empty : Option String → String
or_empty none = ""
or_empty (some s) = s

unfoldable pub has_event : String → String → List EventRow → Bool
has_event src id [] = false
has_event src id (e ∷ rest) = e.source_id == src && e.event_id == id || has_event src id rest

-- The primary key of events is (source_id, event_id).
unfoldable pub insert_event : EventRow → Tx (Unit {0})
insert_event e s =
    if has_event e.source_id e.event_id s.events
    then (err (constraint "events"), s)
    else (ok tt, record s { events = s.events ++ e ∷ [] })

-- `INSERT OR IGNORE` under the primary key (source_id, fault_key, seq).
unfoldable pub has_pending : String → String → ℕ → List PendingResolve → Bool
has_pending src key seq [] = false
has_pending src key seq (p ∷ rest) =
    p.source_id == src && p.fault_key == key && eqb p.seq seq || has_pending src key seq rest

unfoldable pub add_pending : PendingResolve → List PendingResolve → List PendingResolve
add_pending p ps = if has_pending p.source_id p.fault_key p.seq ps then ps else ps ++ p ∷ []

-- `upsertFaultTx`: a row with this id is overwritten, otherwise the row is added. The columns id,
-- source_id and fault_key stay.
unfoldable pub upsert : FaultRow → List FaultRow → List FaultRow
upsert f [] = f ∷ []
upsert f (g ∷ rest) =
    if g.id == f.id
    then record f { source_id = g.source_id; fault_key = g.fault_key } ∷ rest
    else g ∷ upsert f rest

-- The message that an event leaves, before its change number is known.
unfoldable pub message_kind : Bool → EventPayload → Option String → String
message_kind internal ev act =
    if not internal && or_empty act == "open" then "fault_open" else ev.kind

-- Messages of the fault's key from its opening to its recovery that have no fault yet.
unfoldable pub backfill : FaultRow → String → ℕ → MessageRow → MessageRow
backfill f key until m =
    let mine = m.source_id == f.source_id && or_empty m.fault_key == key in
    elim m.fault_id [
      | some _ ↦ m
      | none ↦
          if mine && leb f.opened_by_seq m.event_seq && leb m.event_seq until
          then record m { fault_id = some f.id; incident = some f.incident }
          else m
    ]
