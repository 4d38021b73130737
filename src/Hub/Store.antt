-- ===== src/Hub/Store.antt =====
-- hub/store.go: the tables, the change log, and transactions. A table is the list of its rows,
-- newest last. The n-th reading of the clock or fresh id is answered by `HubEnv`.
use sakura_assistant.Base.{
  ℕ, ◌+◌, String, Option, none, some, Bool, true, false, ◌&&◌, List, [], ◌∷◌, ◌++◌, ◌==◌,
  if◌then◌else◌,
}
use sakura_assistant.Hub.Types.{
  AttachmentDesc, FaultRow, MessageRow, EventRow, PendingResolve, SourceRow, NotifyBlock,
  ChangeData, ChangeEntry,
}

-- The clock and the library functions for ids, times and JSON.
pub record HubEnv : Type 0 where
  pub now : ℕ → ℕ
  pub fresh : String → ℕ → String
  pub fmt_ts : ℕ → String
  pub parse_ts : String → Option ℕ
  pub marshal_attachments : List AttachmentDesc → String

-- The database, the readings made so far, and the changes to publish once the transaction is in.
pub record Hub : Type 0 where
  pub events : List EventRow
  pub faults : List FaultRow
  pub pending_resolves : List PendingResolve
  pub messages : List MessageRow
  pub changes : List ChangeEntry
  pub change_seq : Option ℕ
  pub hub_event_seq : Option ℕ
  pub sources : List SourceRow
  pub tick : ℕ
  pub outbox : List ChangeEntry

pub data Error : Type 0 where
  unknown_action : String → Error
  constraint : String → Error
  no_rows : Error
  bad_request : String → Error
  statement : Error

pub data Result {ℓ} (A : Type ℓ) : Type ℓ where
  ok : A → Result A
  err : Error → Result A

abbrev pub Tx : Type 0 → Type 0
Tx A = Hub → Result A × Hub

abbrev pub continue : {A B : Type 0} → Result A → (A → Tx B) → Tx B
continue (ok a) f s = f a s
continue (err e) f s = (err e, s)

infixl 5 ◌>>=◌ ◌>>◌
abbrev pub ◌>>=◌ : {A B : Type 0} → Tx A → (A → Tx B) → Tx B
◌>>=◌ m f s = let (r, s') = m s in continue r f s'

abbrev pub ◌>>◌ : {B : Type 0} → Tx (Unit {0}) → Tx B → Tx B
m >> k = m >>= λ _. k

abbrev pub return : {A : Type 0} → A → Tx A
return a s = (ok a, s)

abbrev pub throw : {A : Type 0} → Error → Tx A
throw e s = (err e, s)

abbrev pub modify : (Hub → Hub) → Tx (Unit {0})
modify f s = (ok tt, f s)

abbrev pub gets : {A : Type 0} → (Hub → A) → Tx A
gets f s = (ok (f s), s)

-- `withTx`: a body that returns an error, or in which a statement fails, is rolled back whole. A
-- statement's error is returned at once by every caller, so one flag stands for them all.
abbrev pub kept : {A : Type 0} → Hub → Result A × Hub → Result A × Hub
kept s (ok a, s') = (ok a, s')
kept s (err e, s') = (err e, record s { tick = s'.tick })

unfoldable pub with_tx : {A : Type 0} → Bool → Tx A → Tx A
with_tx true body s = (err statement, s)
with_tx false body s = kept s (body s)

unfoldable pub next_change_seq : Tx ℕ
next_change_seq s =
    let seq : ℕ = elim s.change_seq [ none ↦ 1 | some n ↦ n + 1 ] in
    (ok seq, record s { change_seq = some seq })

module _ (env : HubEnv) where
  abbrev pub now_ts : Tx String
  now_ts s = (ok (env.fmt_ts (env.now s.tick)), record s { tick = s.tick + 1 })

  abbrev pub new_id : String → Tx String
  new_id prefix s = (ok (env.fresh prefix s.tick), record s { tick = s.tick + 1 })

  -- `insertChangeObj`: the object is built with the sequence number that it is given. The entry
  -- goes into the table changes and on the list of changes to publish.
  unfoldable pub insert_change_obj : String → (ℕ → ChangeData) → Option NotifyBlock → Tx (Unit {0})
  insert_change_obj ref_id object notify = do
    seq ← next_change_seq
    created ← now_ts
    modify (λ s.
        let entry : ChangeEntry = record {
          seq = seq;
          ref_id = ref_id;
          object = object seq;
          notify = notify;
          created_at = created;
        } in
        record s { changes = s.changes ++ entry ∷ []; outbox = s.outbox ++ entry ∷ [] })

-- `SELECT ... FROM faults WHERE source_id=? AND fault_key=?`
unfoldable pub find_fault : String → String → List FaultRow → Option FaultRow
find_fault src key [] = none
find_fault src key (f ∷ rest) =
    if f.source_id == src && f.fault_key == key then some f else find_fault src key rest

unfoldable pub load_fault : String → String → Tx (Option FaultRow)
load_fault src key = gets (λ s. find_fault src key s.faults)

unfoldable pub find_source : String → List SourceRow → Option SourceRow
find_source id [] = none
find_source id (src ∷ rest) = if src.id == id then some src else find_source id rest

-- `UPDATE sources SET ... WHERE id=?`
unfoldable pub update_source : String → (SourceRow → SourceRow) → List SourceRow → List SourceRow
update_source id f [] = []
update_source id f (src ∷ rest) =
    let others = update_source id f rest in (if src.id == id then f src else src) ∷ others
