-- ===== src/Hub/Retention/Run.antt =====
-- hub/retention.go, runRetention. SQLite's comparison of two times as texts is a parameter; a failing
-- statement rolls the run back, whichever it is. A time before 1970 is 1970 here.
use sakura_assistant.Base.{
  ℕ, ◌+◌, ◌*◌, ◌-◌, String, Option, none, some, Bool, false, ◌&&◌, List, [], ◌∷◌, ◌==◌, leb, max,
  if◌then◌else◌,
}
use sakura_assistant.Hub.Types.{FaultRow, opened, resolved, MessageRow, ChangeEntry, tombstone}
use sakura_assistant.Hub.Store.{
  HubEnv, Hub, Tx, Result, ok, err, ◌>>=◌, ◌>>◌, return, modify, gets, with_tx, insert_change_obj,
}
use sakura_assistant.Hub.Metrics.Tables.{MetricsDb}

pub record RetentionConfig : Type 0 where
  pub raw_days : ℕ
  pub rollup_days : ℕ
  pub messages_days : ℕ
  pub changes_days : ℕ
  pub changes_min_seq : ℕ

-- A row of the table metrics_5m.
pub record Rollup (V : Type 0) : Type 0 where
  pub source_id : String
  pub bucket : String
  pub metric : String
  pub label : String
  pub avg : V
  pub min : V
  pub max : V
  pub n : ℕ

abbrev day : ℕ
day = 24 * 3600 * 1000000000

-- `DELETE FROM t WHERE ...`
unfoldable pub delete_where : {A : Type 0} → (A → Bool) → List A → List A
delete_where p [] = []
delete_where p (x ∷ rest) = let others = delete_where p rest in if p x then others else x ∷ others

-- `SELECT id FROM t WHERE ...`
unfoldable pub ids_where : {A : Type 0} → (A → Bool) → (A → String) → List A → List String
ids_where p id [] = []
ids_where p id (x ∷ rest) =
    let others = ids_where p id rest in if p x then id x ∷ others else others

unfoldable pub select : {A : Type 0} → (A → Bool) → List A → List A
select p [] = []
select p (x ∷ rest) = let others = select p rest in if p x then x ∷ others else others

-- `SELECT MAX(seq) FROM changes`
unfoldable pub max_seq : List ChangeEntry → Option ℕ
max_seq [] = none
max_seq (c ∷ rest) = elim (max_seq rest) [ none ↦ some c.seq | some n ↦ some (max c.seq n) ]

abbrev pub is_of : String → MessageRow → Bool
is_of id m = elim m.fault_id [ none ↦ false | some f ↦ f == id ]

unfoldable pub insert_tombstone : HubEnv → String → String → Tx (Unit {0})
insert_tombstone env type id = insert_change_obj env id (λ seq. tombstone type id) none

module _ (env : HubEnv) (before : String → String → Bool) (c : RetentionConfig) where
  abbrev pub cut : ℕ → ℕ → String
  cut now days = env.fmt_ts (now - days * day)

  -- A resolved fault whose recovery is old.
  abbrev pub is_expired : String → FaultRow → Bool
  is_expired limit f = elim f.state [
    | opened ↦ false
    | resolved ↦ elim f.resolved_at [ none ↦ false | some t ↦ before t limit ]
  ]

  -- An old message of no fault.
  abbrev pub is_stale : String → MessageRow → Bool
  is_stale limit m = elim m.fault_id [ none ↦ before m.received_at limit | some f ↦ false ]

  unfoldable pub drop_message : String → Tx (Unit {0})
  drop_message id = do
    insert_tombstone env "message" id
    modify (λ s. record s { messages = delete_where (λ m. m.id == id) s.messages })

  unfoldable pub drop_messages : List String → Tx (Unit {0})
  drop_messages [] = return tt
  drop_messages (id ∷ rest) = drop_message id >> drop_messages rest

  unfoldable pub forget_fault : FaultRow → Tx (Unit {0})
  forget_fault f = do
    insert_tombstone env "fault" f.id
    modify (λ s. record s {
      faults = delete_where (λ g. g.id == f.id) s.faults;
      pending_resolves =
          delete_where (λ p. p.source_id == f.source_id && p.fault_key == f.fault_key)
            s.pending_resolves;
    })

  unfoldable pub drop_fault : FaultRow → Tx (Unit {0})
  drop_fault f =
      gets (λ s. ids_where (is_of f.id) (λ m. m.id) s.messages)
      >>= (λ ids. drop_messages ids >> forget_fault f)

  unfoldable pub drop_faults : List FaultRow → Tx (Unit {0})
  drop_faults [] = return tt
  drop_faults (f ∷ rest) = drop_fault f >> drop_faults rest

  unfoldable pub drop_stale : String → Tx (Unit {0})
  drop_stale limit = gets (λ s. ids_where (is_stale limit) (λ m. m.id) s.messages) >>= drop_messages

  -- A change is kept while it is young or among the last `changes_min_seq`.
  abbrev pub is_past : String → ℕ → ChangeEntry → Bool
  is_past limit newest e = before e.created_at limit && leb (e.seq + c.changes_min_seq) newest

  abbrev pub trimmed : String → Option ℕ → List ChangeEntry → List ChangeEntry
  trimmed limit none changes = changes
  trimmed limit (some newest) changes = delete_where (is_past limit newest) changes

  unfoldable pub trim_changes : String → Tx (Unit {0})
  trim_changes limit =
      modify (λ s. record s { changes = trimmed limit (max_seq s.changes) s.changes })

  unfoldable pub clear_old : String → Tx (Unit {0})
  clear_old limit = modify (λ s. record s {
    events = delete_where (λ e. before e.received_at limit) s.events;
    pending_resolves = delete_where (λ p. before p.occurred_at limit) s.pending_resolves;
  })

  -- The transaction, on all tables but those of metrics.
  unfoldable pub retention_tx : ℕ → Tx (Unit {0})
  retention_tx now =
      clear_old (cut now c.messages_days)
      >> gets (λ s. select (is_expired (cut now c.messages_days)) s.faults)
      >>= drop_faults
      >> drop_stale (cut now c.messages_days)
      >> trim_changes (cut now c.changes_days)

  abbrev pub trim_metrics : {V : Type 0} → ℕ → MetricsDb V → MetricsDb V
  trim_metrics now db = record db {
    raw = delete_where (λ r. before r.ts (cut now c.raw_days)) db.raw;
    samples = delete_where (λ r. before r.sample.ts (cut now c.raw_days)) db.samples;
  }

  abbrev pub trim_rollups : {V : Type 0} → ℕ → List (Rollup V) → List (Rollup V)
  trim_rollups now rows = delete_where (λ r. before r.bucket (cut now c.rollup_days)) rows

  abbrev pub settled :
      {V : Type 0}
      → ℕ
      → MetricsDb V
      → List (Rollup V)
      → Result (Unit {0}) × Hub
      → (MetricsDb V × List (Rollup V)) × Hub
  settled now db rows (ok _, s) = ((trim_metrics now db, trim_rollups now rows), s)
  settled now db rows (err _, s) = ((db, rows), s)

  -- `runRetention`; what is to be published is the outbox of the state.
  unfoldable pub run_retention :
      {V : Type 0}
      → Bool
      → ℕ
      → MetricsDb V
      → List (Rollup V)
      → Hub
      → (MetricsDb V × List (Rollup V)) × Hub
  run_retention aborted now db rows s = settled now db rows (with_tx aborted (retention_tx now) s)
