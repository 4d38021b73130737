-- ===== src/Hub/Types.antt =====
-- hub/types.go: payloads, rows and change entries. A nullable column or a pointer is an `Option`;
-- JSON texts are kept as texts. Sequence numbers are int64 in the source, here never negative.
use sakura_assistant.Base.{ℕ, String, Option, Bool, List}

pub record AttachmentDesc : Type 0 where
  pub id : String
  pub kind : String
  pub filename : String
  pub mime : String
  pub byte_size : ℕ
  pub sha256 : String

pub record EventPayload : Type 0 where
  pub event_id : String
  pub seq : ℕ
  pub kind : String
  pub occurred_at : String
  pub severity : String
  pub fault_key : Option String
  pub incident_action : Option String
  pub title : String
  pub body : Option String
  pub ref : String
  pub attachments : List AttachmentDesc

-- The column `state` admits only these two (hub/db.go).
pub data FaultState : Type 0 where
  opened resolved : FaultState

pub record FaultRow : Type 0 where
  pub id : String
  pub source_id : String
  pub fault_key : String
  pub severity : String
  pub title : String
  pub summary : Option String
  pub state : FaultState
  pub incident : ℕ
  pub opened_at : String
  pub opened_by_seq : ℕ
  pub last_event_at : String
  pub resolved_at : Option String
  pub resolved_by_seq : Option ℕ
  pub resolved_by : Option String
  pub event_count : ℕ
  pub read_at : Option String
  pub muted_at : Option String
  pub muted_until : Option String
  pub change_seq : ℕ

pub record MessageRow : Type 0 where
  pub id : String
  pub source_id : String
  pub kind : String
  pub severity : String
  pub title : String
  pub body : Option String
  pub occurred_at : String
  pub received_at : String
  pub read_at : Option String
  pub fault_id : Option String
  pub incident : Option ℕ
  pub ref : Option String
  pub attachments : Option String
  pub event_id : String
  pub event_seq : ℕ
  pub fault_key : Option String
  pub out_of_order : Bool
  pub change_seq : ℕ

-- A row of the table events.
pub record EventRow : Type 0 where
  pub source_id : String
  pub event_id : String
  pub seq : ℕ
  pub kind : String
  pub occurred_at : String
  pub severity : String
  pub fault_key : Option String
  pub incident_action : Option String
  pub title : String
  pub body : Option String
  pub ref : Option String
  pub attachments : String
  pub out_of_order : Bool
  pub internal : Bool
  pub received_at : String

-- A row of the table pending_resolves.
pub record PendingResolve : Type 0 where
  pub source_id : String
  pub fault_key : String
  pub seq : ℕ
  pub occurred_at : String
  pub title : String
  pub event_id : String

-- The columns of sources that the modelled code reads or writes.
pub record SourceRow : Type 0 where
  pub id : String
  pub name : String
  pub kind : String
  pub enabled : Bool
  pub key_hash : String
  pub key_plain : String
  pub key_hint : String
  pub mgmt_key_plain : String
  pub mgmt_key_hint : String
  pub attachment_base_url : Option String
  pub last_seen_at : Option String
  pub last_metrics_seq : ℕ
  pub last_event_seq : ℕ
  pub last_boot_time : Option String
  pub deleted_at : Option String
  pub created_at : String
  pub updated_at : String

pub record NotifyBlock : Type 0 where
  pub kind : String
  pub fault_id : Option String
  pub muted : Bool

-- The object of a change, before its JSON encoding: a row with the name of its source, the JSON of the
-- rules or the settings, or the type and id of a tombstone.
pub data ChangeData : Type 0 where
  fault : FaultRow → String → ChangeData
  message : MessageRow → String → ChangeData
  source : SourceRow → ChangeData
  tombstone : String → String → ChangeData
  document : String → ChangeData

pub record ChangeEntry : Type 0 where
  pub seq : ℕ
  pub ref_id : String
  pub object : ChangeData
  pub notify : Option NotifyBlock
  pub created_at : String
