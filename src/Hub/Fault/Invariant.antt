-- ===== src/Hub/Fault/Invariant.antt =====
-- What a committed event keeps of the tables (hub/fault.go, applyEventTx).
use sakura_assistant.Base.{
  ℕ, ◌+◌, ◌≤◌, ◌<◌, String, ◌≡◌, refl, Option, none, some, Bool, true, false, ◌&&◌, List, [], ◌∷◌,
  ◌++◌, arith, inl, inr, ◌==◌, All, Bool-cases,
}
use sakura_assistant.Hub.Types.{
  EventPayload, FaultRow, MessageRow, EventRow, PendingResolve, SourceRow, NotifyBlock, ChangeData,
  ChangeEntry,
}
use sakura_assistant.Hub.Store.{
  HubEnv, Hub, Result, ok, err, ◌>>=◌, ◌>>◌, now_ts, new_id, next_change_seq, insert_change_obj,
  load_fault, find_fault, with_tx, kept,
}
use sakura_assistant.Hub.Ensures.{Post, Ensures, Ensures-bind, Ensures-fact}
use sakura_assistant.Hub.Fault.Tables.{non_empty, insert_event, upsert, or_empty}
use sakura_assistant.Hub.Fault.Machine.{Transition, transition, earliest_pending}
use sakura_assistant.Hub.Fault.Lifecycle.{IsWellFormed, RowIs, Later, transition-IsWellFormed}
use sakura_assistant.Hub.Fault.Arrival.{Covering, earliest_pending-Covering}
use sakura_assistant.Hub.Fault.Apply.{
  numbered, settle, move_fault, record_fault, backfill_messages, record_message, apply_event,
  deliver, message_row, event_row, last_change, record_row, backfill_until, backfill_row, is_over,
}

-- The numbers of the changes increase strictly, up to the last one handed out.
abbrev pub Rising : ℕ → List ChangeEntry → ℕ → Type 0
Rising lo [] hi = lo ≤ hi
Rising lo (c ∷ rest) hi = (lo < c.seq) × Rising c.seq rest hi

pub Rising-append :
    (lo : ℕ) (cs : List ChangeEntry) (hi : ℕ) (c : ChangeEntry)
    → Rising lo cs hi
    → hi < c.seq
    → Rising lo (cs ++ c ∷ []) c.seq
Rising-append lo [] hi c h l = (omega arith, omega arith)
Rising-append lo (d ∷ rest) hi c h l = (h.0, Rising-append d.seq rest hi c h.1 l)

pub record IsSound (s : Hub) : Type 0 where
  pub rows : All IsWellFormed s.faults
  pub log : Rising 0 s.changes (last_change s)

-- The parts of a transaction keep a sound database sound.
abbrev pub Sound : {A : Type 0} → A → Hub → Type 0
Sound _ s = IsSound s

now_ts-Sound : (env : HubEnv) → Ensures IsSound (now_ts env) Sound
now_ts-Sound env = record { at = λ s h. record { rows = h.rows; log = h.log } }

new_id-Sound : (env : HubEnv) (prefix : String) → Ensures IsSound (new_id env prefix) Sound
new_id-Sound env prefix = record { at = λ s h. record { rows = h.rows; log = h.log } }

insert_event-Sound : (e : EventRow) → Ensures IsSound (insert_event e) Sound
unfolding insert_event
insert_event-Sound e = record { at = λ s h. ground (arith, h.rows, h.log) }

pub insert_change-Sound :
    (env : HubEnv) (ref_id : String) (object : ℕ → ChangeData) (notify : Option NotifyBlock)
    → Ensures IsSound (insert_change_obj env ref_id object notify) Sound
unfolding insert_change_obj next_change_seq
insert_change-Sound env ref_id object notify = record {
  at = λ s h. record {
    rows = h.rows;
    log = Rising-append 0 s.changes (last_change s) _ h.log (ground arith);
  };
}

find_fault-All :
    (src key : String) (fs : List FaultRow)
    → All IsWellFormed fs
    → RowIs IsWellFormed (find_fault src key fs)
unfolding find_fault
find_fault-All src key [] h = tt
find_fault-All src key (f ∷ rest) h = elim (Bool-cases (f.source_id == src && f.fault_key == key)) [
  | inl found ↦ rw found h.0
  | inr other ↦ rw other (find_fault-All src key rest h.1)
]

upsert-All :
    (f : FaultRow) (fs : List FaultRow)
    → IsWellFormed f
    → All IsWellFormed fs
    → All IsWellFormed (upsert f fs)
unfolding upsert
upsert-All f [] w h = (w, tt)
upsert-All f (g ∷ rest) w h = elim (Bool-cases (g.id == f.id)) [
  | inl same ↦
      rw same
        (record { counted = w.counted; has_events = w.has_events; recovery = w.recovery }, h.1)
  | inr other ↦ rw other (h.0, upsert-All f rest w h.1)
]

abbrev Moved : Transition → Hub → Type 0
Moved t s = IsSound s × RowIs IsWellFormed t.row

Covering-Later :
    (src key : String) (seq : ℕ) (o : Option PendingResolve) → Covering src key seq o → Later seq o
Covering-Later src key seq none h = tt
Covering-Later src key seq (some p) h = ground arith

settle-Moved :
    (src : SourceRow) (ev : EventPayload) (key : String) (o : Option Transition)
    → ((t : Transition) → o ≡ some t → RowIs IsWellFormed t.row)
    → Ensures IsSound (settle src ev key o) Moved
unfolding settle
settle-Moved src ev key none good = record { at = λ s h. tt }
settle-Moved src ev key (some t) good = record {
  at = λ s h. elim (Bool-cases t.waits) [
    | inl w ↦ simp w (record { rows = h.rows; log = h.log }, good t refl)
    | inr w ↦ simp w (h, good t refl)
  ];
}

move_fault-Moved :
    (env : HubEnv) (src : SourceRow) (ev : EventPayload) (key : Option String)
    → Ensures IsSound (move_fault env src ev key) Moved
unfolding move_fault load_fault
move_fault-Moved env src ev none = record { at = λ s h. (h, tt) }
move_fault-Moved env src ev (some key) = record {
  at = λ s h.
      let f = find_fault src.id key s.faults in
      let pending = earliest_pending src.id key ev.seq s.pending_resolves in
      let id = env.fresh "flt_" s.tick in
      let action = or_empty ev.incident_action in
      (settle-Moved src ev key (transition id src.id key ev action pending f) (λ t e.
          transition-IsWellFormed id src.id key ev action pending f t
            (Covering-Later src.id key ev.seq pending
              (earliest_pending-Covering src.id key ev.seq s.pending_resolves))
            (find_fault-All src.id key s.faults h.rows) e)).at
        (record s { tick = s.tick + 1 }) (record { rows = h.rows; log = h.log });
}

record_row-Sound :
    (env : HubEnv) (src : SourceRow) (changed : Bool) (o : Option FaultRow)
    → RowIs IsWellFormed o
    → Ensures IsSound (record_row env src changed o) Sound
unfolding record_row
record_row-Sound env src changed none w = record { at = λ s h. h }
record_row-Sound env src false (some f) w = record { at = λ s h. h }
record_row-Sound env src true (some f) w =
    Ensures-bind Sound (insert_change_obj env f.id _ _) _ (insert_change-Sound env f.id _ _) (λ _.
      record {
        at = λ s h. record {
          rows =
              upsert-All (numbered f (last_change s)) s.faults
                (record { counted = w.counted; has_events = w.has_events; recovery = w.recovery })
                h.rows;
          log = h.log;
        };
      })

backfill_until-Sound :
    (f : FaultRow) (applied : Bool) (key : String) (until : Option ℕ)
    → Ensures IsSound (backfill_until f applied key until) Sound
unfolding backfill_until
backfill_until-Sound f applied key none = record { at = λ s h. h }
backfill_until-Sound f applied key (some n) = elim (Bool-cases (is_over f.state && applied)) [
  | inl over ↦ rw over (record { at = λ s h. record { rows = h.rows; log = h.log } })
  | inr other ↦ rw other (record { at = λ s h. h })
]

backfill_row-Sound :
    (applied : Bool) (key : String) (o : Option FaultRow)
    → Ensures IsSound (backfill_row applied key o) Sound
unfolding backfill_row
backfill_row-Sound applied key none = record { at = λ s h. h }
backfill_row-Sound applied key (some f) = backfill_until-Sound f applied key f.resolved_by_seq

record_message-Sound :
    (env : HubEnv) (src : SourceRow) (m : MessageRow) (t : Transition)
    → Ensures IsSound (record_message env src m t) Sound
unfolding record_message
record_message-Sound env src m t =
    Ensures-bind Sound (insert_change_obj env m.id _ _) _ (insert_change-Sound env m.id _ _)
      (λ _. record { at = λ s h. record { rows = h.rows; log = h.log } })

deliver-Sound :
    (env : HubEnv) (src : SourceRow) (ev : EventPayload) (internal out_of_order : Bool)
    (received : String) (t : Transition)
    → RowIs IsWellFormed t.row
    → Ensures IsSound (deliver env src ev internal out_of_order received t) Sound
unfolding deliver record_fault backfill_messages
deliver-Sound env src ev internal out_of_order received t moved =
    let key = or_empty (non_empty ev.fault_key) in
    let m = λ (id : String). message_row env src ev internal out_of_order t id received in
    Ensures-bind Sound (new_id env "msg_")
      (λ id.
        record_row env src t.changed t.row
        >> (backfill_row t.applied key t.row >> record_message env src (m id) t))
      (new_id-Sound env "msg_")
      (λ id.
        Ensures-bind Sound (record_row env src t.changed t.row)
          (λ _. backfill_row t.applied key t.row >> record_message env src (m id) t)
          (record_row-Sound env src t.changed t.row moved)
          (λ _.
            Ensures-bind Sound (backfill_row t.applied key t.row)
              (λ _. record_message env src (m id) t) (backfill_row-Sound t.applied key t.row)
              (λ _. record_message-Sound env src (m id) t)))

-- Applying an event keeps a sound database sound.
pub apply_event-Sound :
    (env : HubEnv) (src : SourceRow) (ev : EventPayload) (internal out_of_order : Bool)
    → Ensures IsSound (apply_event env src ev internal out_of_order) Sound
unfolding apply_event
apply_event-Sound env src ev internal out_of_order =
    let key = non_empty ev.fault_key in
    Ensures-bind Sound (now_ts env)
      (λ received.
        insert_event (event_row env src ev internal out_of_order received)
        >> (move_fault env src ev key >>= deliver env src ev internal out_of_order received))
      (now_ts-Sound env)
      (λ received.
        Ensures-bind Sound (insert_event (event_row env src ev internal out_of_order received))
          (λ _. move_fault env src ev key >>= deliver env src ev internal out_of_order received)
          (insert_event-Sound (event_row env src ev internal out_of_order received))
          (λ _.
            Ensures-bind Moved (move_fault env src ev key)
              (deliver env src ev internal out_of_order received) (move_fault-Moved env src ev key)
              (λ t. Ensures-fact (deliver-Sound env src ev internal out_of_order received t))))

-- A transaction that applies an event, committed or rolled back, leaves a sound database sound: every
-- fault row is well formed, and the numbers of the change log increase strictly up to the last one
-- handed out.
pub with_tx-IsSound :
    (env : HubEnv) (src : SourceRow) (ev : EventPayload) (aborted internal out_of_order : Bool)
    (s : Hub)
    → IsSound s
    → IsSound (with_tx aborted (apply_event env src ev internal out_of_order) s).1
unfolding with_tx
with_tx-IsSound env src ev true internal out_of_order s h = h
with_tx-IsSound env src ev false internal out_of_order s h =
    go (apply_event env src ev internal out_of_order s)
      ((apply_event-Sound env src ev internal out_of_order).at s h)
  where
    go : (r : Result (Unit {0}) × Hub) → Post Sound r → IsSound (kept s r).1
    go (ok a, s') q = q
    go (err e, s') q = record { rows = h.rows; log = h.log }
