-- ===== src/Hub/Retention/Told.antt =====
-- hub/retention.go, runRetention: a row that goes is due, and clients are told of it.
use sakura_assistant.Base.{ℕ, String, ◌≡◌, Bool, true, ◌⊎◌, List, [], ◌∷◌, All}
use sakura_assistant.Hub.Types.{FaultRow, MessageRow, ChangeData, ChangeEntry, tombstone}
use sakura_assistant.Hub.Store.{HubEnv, Hub}
use sakura_assistant.Hub.Ensures.{Ensures}
use sakura_assistant.Hub.Retention.Run.{RetentionConfig, cut, is_expired, is_stale, is_of}
use sakura_assistant.Hub.Retention.Present.{In}

abbrev objects : List ChangeEntry → List ChangeData
objects [] = []
objects (c ∷ rest) = c.object ∷ objects rest

-- Among the changes to publish is the tombstone.
abbrev pub HasTombstone : String → String → List ChangeEntry → Type 0
HasTombstone type id outbox = In (tombstone type id) (objects outbox)

-- `faults` and `messages` are the rows before the run; `limit` is the time before which a row is old.
module _ (before : String → String → Bool) (limit : String) (env : HubEnv) (c : RetentionConfig)
    (faults : List FaultRow) (messages : List MessageRow) where
  -- The id of a fault that was resolved and old.
  abbrev pub FaultDue : String → Type 0
  FaultDue id =
      (f : FaultRow) × In f faults × (f.id ≡ id) × (is_expired env before c limit f ≡ true)

  -- The id of a message that was old and of no fault, or that was of such a fault.
  abbrev pub MessageDue : String → Type 0
  MessageDue id =
      (m : MessageRow) × In m messages
      × (m.id ≡ id)
      × ((is_stale env before c limit m ≡ true) ⊎ ((f : String) × FaultDue f × (is_of f m ≡ true)))

  abbrev pub FaultTold : List FaultRow → List ChangeEntry → FaultRow → Type 0
  FaultTold fs outbox f = In f fs ⊎ (HasTombstone "fault" f.id outbox × FaultDue f.id)

  abbrev pub MessageTold : List MessageRow → List ChangeEntry → MessageRow → Type 0
  MessageTold ms outbox m = In m ms ⊎ (HasTombstone "message" m.id outbox × MessageDue m.id)

  pub record Told (s : Hub) : Type 0 where
    pub faults_told : All (FaultTold s.faults s.outbox) faults
    pub messages_told : All (MessageTold s.messages s.outbox) messages
    pub older : (m : MessageRow) → In m s.messages → In m messages

  abbrev Tells : {A : Type 0} → A → Hub → Type 0
  Tells _ s = Told s

module _ (env : HubEnv) (before : String → String → Bool) (c : RetentionConfig) where
  abbrev limit_of : ℕ → String
  limit_of now = cut env before c now c.messages_days
