-- ===== src/Hub/Fault/Events.antt =====
-- What applyEventTx and touchSourceSeenTx (hub/fault.go) do to the table events: the event's row is
-- added, and nothing else.
use sakura_assistant.Base.{
  ℕ, ◌+◌, String, ◌≡◌, refl, Option, none, some, Bool, true, false, ◌&&◌, List, [], ◌∷◌, ◌++◌, inl,
  inr, Bool-cases,
}
use sakura_assistant.Hub.Types.{
  EventPayload, FaultRow, MessageRow, EventRow, SourceRow, NotifyBlock, ChangeData,
}
use sakura_assistant.Hub.Store.{
  HubEnv, Hub, ◌>>=◌, ◌>>◌, now_ts, new_id, next_change_seq, insert_change_obj, load_fault,
  find_fault, update_source,
}
use sakura_assistant.Hub.Fault.Tables.{non_empty, insert_event, has_event, or_empty}
use sakura_assistant.Hub.Fault.Machine.{Transition, transition, earliest_pending, is_opened}
use sakura_assistant.Hub.Fault.Apply.{
  settle, move_fault, record_fault, backfill_messages, record_message, apply_event, deliver,
  message_row, event_row, record_row, backfill_until, backfill_row, is_over, emit_hub_event,
  next_hub_seq, touch_source_seen, end_heartbeat, seen_at,
}
use sakura_assistant.Hub.Ensures.{Ensures, Ensures-bind}

-- The id of an event row.
abbrev pub IsRowOf : SourceRow → String → EventRow → Type 0
IsRowOf src id e = (e.source_id ≡ src.id) × (e.event_id ≡ id)

module _ (P : List EventRow → Type 0) where
  -- A fact on the events table, whatever is returned.
  abbrev pub Over : Hub → Type 0
  Over s = P s.events

  abbrev pub Still : {A : Type 0} → A → Hub → Type 0
  Still _ s = P s.events

  pub insert_change-Still :
      (env : HubEnv) (ref_id : String) (object : ℕ → ChangeData) (notify : Option NotifyBlock)
      → Ensures Over (insert_change_obj env ref_id object notify) Still
  unfolding insert_change_obj next_change_seq
  insert_change-Still env ref_id object notify = record { at = λ s h. h }

  settle-Still :
      (src : SourceRow) (ev : EventPayload) (key : String) (o : Option Transition)
      → Ensures Over (settle src ev key o) Still
  unfolding settle
  settle-Still src ev key none = record { at = λ s h. tt }
  settle-Still src ev key (some t) = elim (Bool-cases t.waits) [
    | inl w ↦ rw w (record { at = λ s h. h })
    | inr w ↦ rw w (record { at = λ s h. h })
  ]

  move_fault-Still :
      (env : HubEnv) (src : SourceRow) (ev : EventPayload) (key : Option String)
      → Ensures Over (move_fault env src ev key) Still
  unfolding move_fault load_fault
  move_fault-Still env src ev none = record { at = λ s h. h }
  move_fault-Still env src ev (some key) = record {
    at = λ s h.
        (settle-Still src ev key (
            transition (env.fresh "flt_" s.tick) src.id key ev (or_empty ev.incident_action)
              (earliest_pending src.id key ev.seq s.pending_resolves)
              (find_fault src.id key s.faults))).at
          (record s { tick = s.tick + 1 }) h;
  }

  record_row-Still :
      (env : HubEnv) (src : SourceRow) (changed : Bool) (o : Option FaultRow)
      → Ensures Over (record_row env src changed o) Still
  unfolding record_row
  record_row-Still env src changed none = record { at = λ s h. h }
  record_row-Still env src false (some f) = record { at = λ s h. h }
  record_row-Still env src true (some f) =
      Ensures-bind Still (insert_change_obj env f.id _ _) _ (insert_change-Still env f.id _ _)
        (λ _. record { at = λ s h. h })

  backfill_until-Still :
      (f : FaultRow) (applied : Bool) (key : String) (until : Option ℕ)
      → Ensures Over (backfill_until f applied key until) Still
  unfolding backfill_until
  backfill_until-Still f applied key none = record { at = λ s h. h }
  backfill_until-Still f applied key (some n) = elim (Bool-cases (is_over f.state && applied)) [
    | inl over ↦ rw over (record { at = λ s h. h })
    | inr other ↦ rw other (record { at = λ s h. h })
  ]

  backfill_row-Still :
      (applied : Bool) (key : String) (o : Option FaultRow)
      → Ensures Over (backfill_row applied key o) Still
  unfolding backfill_row
  backfill_row-Still applied key none = record { at = λ s h. h }
  backfill_row-Still applied key (some f) = backfill_until-Still f applied key f.resolved_by_seq

  record_message-Still :
      (env : HubEnv) (src : SourceRow) (m : MessageRow) (t : Transition)
      → Ensures Over (record_message env src m t) Still
  unfolding record_message
  record_message-Still env src m t =
      Ensures-bind Still (insert_change_obj env m.id _ _) _ (insert_change-Still env m.id _ _)
        (λ _. record { at = λ s h. h })

  deliver-Still :
      (env : HubEnv) (src : SourceRow) (ev : EventPayload) (internal out_of_order : Bool)
      (received : String) (t : Transition)
      → Ensures Over (deliver env src ev internal out_of_order received t) Still
  unfolding deliver record_fault backfill_messages
  deliver-Still env src ev internal out_of_order received t =
      let key = or_empty (non_empty ev.fault_key) in
      let m = λ (id : String). message_row env src ev internal out_of_order t id received in
      Ensures-bind Still (new_id env "msg_")
        (λ id.
          record_row env src t.changed t.row
          >> (backfill_row t.applied key t.row >> record_message env src (m id) t))
        (record { at = λ s h. h })
        (λ id.
          Ensures-bind Still (record_row env src t.changed t.row)
            (λ _. backfill_row t.applied key t.row >> record_message env src (m id) t)
            (record_row-Still env src t.changed t.row)
            (λ _.
              Ensures-bind Still (backfill_row t.applied key t.row)
                (λ _. record_message env src (m id) t) (backfill_row-Still t.applied key t.row)
                (λ _. record_message-Still env src (m id) t)))

insert_event-Still :
    (P Q : List EventRow → Type 0) (env : HubEnv) (src : SourceRow) (ev : EventPayload)
    (internal out_of_order : Bool) (received : String)
    → ((es : List EventRow) (e : EventRow) → IsRowOf src ev.event_id e → P es → Q (es ++ e ∷ []))
    → Ensures
        (Over P)
        (insert_event (event_row env src ev internal out_of_order received))
        (Still Q)
unfolding insert_event event_row
insert_event-Still P Q env src ev internal out_of_order received grows = record {
  at = λ s h. elim (Bool-cases (has_event src.id ev.event_id s.events)) [
    | inl found ↦ rw found tt
    | inr new ↦ rw new (grows s.events _ (refl, refl) h)
  ];
}

-- What holds of the table after the event's row is added holds after the whole event.
pub apply_event-Still :
    (P Q : List EventRow → Type 0) (env : HubEnv) (src : SourceRow) (ev : EventPayload)
    (internal out_of_order : Bool)
    → ((es : List EventRow) (e : EventRow) → IsRowOf src ev.event_id e → P es → Q (es ++ e ∷ []))
    → Ensures (Over P) (apply_event env src ev internal out_of_order) (Still Q)
unfolding apply_event
apply_event-Still P Q env src ev internal out_of_order grows =
    let key = non_empty ev.fault_key in
    Ensures-bind (Still P) (now_ts env)
      (λ received.
        insert_event (event_row env src ev internal out_of_order received)
        >> (move_fault env src ev key >>= deliver env src ev internal out_of_order received))
      (record { at = λ s h. h })
      (λ received.
        Ensures-bind (Still Q) (insert_event (event_row env src ev internal out_of_order received))
          (λ _. move_fault env src ev key >>= deliver env src ev internal out_of_order received)
          (insert_event-Still P Q env src ev internal out_of_order received grows)
          (λ _.
            Ensures-bind (Still Q) (move_fault env src ev key)
              (deliver env src ev internal out_of_order received)
              (move_fault-Still Q env src ev key)
              (λ t. deliver-Still Q env src ev internal out_of_order received t)))

-- The source that a transaction works with after it is seen.
pub record IsSeen (src r : SourceRow) : Type 0 where
  pub id : r.id ≡ src.id
  pub last : r.last_event_seq ≡ src.last_event_seq
  pub metrics : r.last_metrics_seq ≡ src.last_metrics_seq

module _ (P : List EventRow → Type 0)
    (grows : (es : List EventRow) (e : EventRow) → P es → P (es ++ e ∷ [])) where
  abbrev pub Seen : SourceRow → SourceRow → Hub → Type 0
  Seen src r s = P s.events × IsSeen src r

  emit_hub_event-Still :
      (env : HubEnv) (src : SourceRow) (kind severity : String) (key action : Option String)
      (title : String) (body : Option String) (at : ℕ)
      → Ensures (Over P) (emit_hub_event env src kind severity key action title body at) (Still P)
  unfolding emit_hub_event next_hub_seq
  emit_hub_event-Still env src kind severity key action title body at = record {
    at = λ s h.
        (apply_event-Still P P env src _ true false (λ es e _. grows es e)).at
          (record s { hub_event_seq = _; tick = _ }) h;
  }

  end_heartbeat-Seen :
      (env : HubEnv) (was src : SourceRow) (at : ℕ) (o : Option FaultRow)
      → IsSeen was src
      → Ensures (Over P) (end_heartbeat env src at o) (Seen was)
  unfolding end_heartbeat
  end_heartbeat-Seen env was src at none seen = record { at = λ s h. (h, seen) }
  end_heartbeat-Seen env was src at (some f) seen = elim (Bool-cases (is_opened f.state)) [
    | inl o ↦ rw o (
        Ensures-bind (Still P) (emit_hub_event env src _ _ _ _ _ _ at) _
          (emit_hub_event-Still env src _ _ _ _ _ _ at) (λ _. record { at = λ s h. (h, seen) }))
    | inr over ↦ rw over (record { at = λ s h. (h, seen) })
  ]

  -- Seeing a source keeps what grows with the table.
  pub touch_source_seen-Seen :
      (env : HubEnv) (src : SourceRow) (at : ℕ)
      → Ensures (Over P) (touch_source_seen env src at) (Seen src)
  unfolding touch_source_seen load_fault
  touch_source_seen-Seen env src at = record {
    at = λ s h.
        (end_heartbeat-Seen env src (seen_at env at src) at (find_fault src.id "heartbeat" s.faults)
            (record { id = refl; last = refl; metrics = refl })).at
          (record s { sources = update_source src.id (seen_at env at) s.sources }) h;
  }
