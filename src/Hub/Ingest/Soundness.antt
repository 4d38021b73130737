-- ===== src/Hub/Ingest/Soundness.antt =====
-- hub/ingest.go, handleIngestEvents: the database after a batch.
use sakura_assistant.Base.{
  ℕ, String, Option, none, some, Bool, true, false, List, [], ◌∷◌, ltb, leb, length, inl, inr,
  Bool-cases, if◌then◌else◌,
}
use sakura_assistant.Hub.Types.{EventPayload, FaultRow, SourceRow}
use sakura_assistant.Hub.Store.{
  HubEnv, Hub, Result, ok, err, no_rows, ◌>>=◌, find_source, find_fault, load_fault, update_source,
  with_tx, kept, insert_change_obj,
}
use sakura_assistant.Hub.Ensures.{Post, Ensures, Ensures-bind}
use sakura_assistant.Hub.Fault.Machine.{is_opened}
use sakura_assistant.Hub.Fault.Apply.{
  apply_event, emit_hub_event, next_hub_seq, end_heartbeat, seen_at, touch_source_seen,
}
use sakura_assistant.Hub.Fault.Invariant.{IsSound, Sound, apply_event-Sound, insert_change-Sound}
use sakura_assistant.Hub.Ingest.Events.{
  Item, Checked, Ingested, load_source, emit_source_change, check_batch, apply_items, finish,
  store_batch, ingest_events, handle_ingest_events,
}

pub emit_hub_event-Sound :
    (env : HubEnv) (src : SourceRow) (kind severity : String) (key action : Option String)
    (title : String) (body : Option String) (at : ℕ)
    → Ensures IsSound (emit_hub_event env src kind severity key action title body at) Sound
unfolding emit_hub_event next_hub_seq
emit_hub_event-Sound env src kind severity key action title body at = record {
  at = λ s h.
      (apply_event-Sound env src _ true false).at (record s { hub_event_seq = _; tick = _ })
        (record { rows = h.rows; log = h.log });
}

end_heartbeat-Sound :
    (env : HubEnv) (src : SourceRow) (at : ℕ) (o : Option FaultRow)
    → Ensures IsSound (end_heartbeat env src at o) Sound
unfolding end_heartbeat
end_heartbeat-Sound env src at none = record { at = λ s h. h }
end_heartbeat-Sound env src at (some f) = elim (Bool-cases (is_opened f.state)) [
  | inl o ↦ rw o (
      Ensures-bind Sound (emit_hub_event env src _ _ _ _ _ _ at) _
        (emit_hub_event-Sound env src _ _ _ _ _ _ at) (λ _. record { at = λ s h. h }))
  | inr over ↦ rw over (record { at = λ s h. h })
]

-- Seeing a source keeps a sound database sound.
pub touch_source_seen-Sound :
    (env : HubEnv) (src : SourceRow) (at : ℕ) → Ensures IsSound (touch_source_seen env src at) Sound
unfolding touch_source_seen load_fault
touch_source_seen-Sound env src at = record {
  at = λ s h.
      (end_heartbeat-Sound env (seen_at env at src) at (find_fault src.id "heartbeat" s.faults)).at
        (record s { sources = update_source src.id (seen_at env at) s.sources })
        (record { rows = h.rows; log = h.log });
}

pub load_source-Sound : (id : String) → Ensures IsSound (load_source id) Sound
unfolding load_source
load_source-Sound id = record { at = λ s h. go s h (find_source id s.sources) }
  where
    go :
        (s : Hub)
        → IsSound s
        → (o : Option SourceRow)
        → Post {A = SourceRow} Sound (elim o [ none ↦ (err no_rows, s) | some src ↦ (ok src, s) ])
    go s h none = tt
    go s h (some r) = h

apply_items-Sound :
    (env : HubEnv) (src : SourceRow) (items : List Item) (last : ℕ)
    → Ensures IsSound (apply_items env src last items) Sound
unfolding apply_items
apply_items-Sound env src [] last = record { at = λ s h. h }
apply_items-Sound env src (it ∷ rest) last =
    Ensures-bind Sound (apply_event env src it.ev false (leb it.ev.seq last))
      (λ _. apply_items env src (if ltb last it.ev.seq then it.ev.seq else last) rest)
      (apply_event-Sound env src it.ev false _)
      (λ _. apply_items-Sound env src rest (if ltb last it.ev.seq then it.ev.seq else last))

finish-Sound :
    (env : HubEnv) (cur : SourceRow) (items : List Item) (checked : Checked) (last : ℕ)
    → Ensures IsSound (finish env cur items checked last) Sound
unfolding finish emit_source_change
finish-Sound env cur items checked last = record {
  at = λ s h.
      (Ensures-bind Sound (load_source cur.id) _ (load_source-Sound cur.id) (λ fresh.
          Ensures-bind Sound (insert_change_obj env fresh.id _ none) _
            (insert_change-Sound env fresh.id _ none) (λ _. record { at = λ s h. h }))).at
        (record s { sources = _ }) (record { rows = h.rows; log = h.log });
}

module _ (env : HubEnv) (sort : List Item → List Item) where
  store_batch-Sound :
      (cur : SourceRow) (checked : Checked)
      → Ensures IsSound (store_batch env sort cur checked) Sound
  unfolding store_batch
  store_batch-Sound cur checked =
      Ensures-bind Sound (apply_items env cur cur.last_event_seq (sort checked.valid))
        (finish env cur (sort checked.valid) checked)
        (apply_items-Sound env cur (sort checked.valid) cur.last_event_seq)
        (finish-Sound env cur (sort checked.valid) checked)

  ingest_events-Sound :
      (id : String) (arrival : ℕ) (events : List EventPayload)
      → Ensures IsSound (ingest_events env sort id arrival events) Sound
  unfolding ingest_events check_batch
  ingest_events-Sound id arrival events =
      Ensures-bind Sound (load_source id)
        (λ row.
          touch_source_seen env row arrival
          >>= (λ cur. check_batch env cur events >>= store_batch env sort cur))
        (load_source-Sound id)
        (λ row.
          Ensures-bind Sound (touch_source_seen env row arrival)
            (λ cur. check_batch env cur events >>= store_batch env sort cur)
            (touch_source_seen-Sound env row arrival)
            (λ cur.
              Ensures-bind Sound (check_batch env cur events) (store_batch env sort cur)
                (record { at = λ s h. record { rows = h.rows; log = h.log } })
                (λ checked. store_batch-Sound cur checked)))

  -- Whatever batch a source delivers, whatever the sort does, and whether the transaction is committed
  -- or rolled back, a sound database stays sound: every fault row is well formed, and the numbers of
  -- the change log increase strictly up to the last one handed out.
  pub handle_ingest_events-IsSound :
      (aborted : Bool) (id : String) (arrival : ℕ) (events : List EventPayload) (s : Hub)
      → IsSound s
      → IsSound (handle_ingest_events env sort aborted id arrival events s).1
  unfolding handle_ingest_events with_tx
  handle_ingest_events-IsSound aborted id arrival events s h =
      elim (Bool-cases (ltb 100 (length events))) [
        | inl long ↦ rw long h
        | inr short ↦ elim (Bool-cases aborted) [
          | inl a ↦ rw (short, a) h
          | inr b ↦
              rw (short, b)
                (go (ingest_events env sort id arrival events s)
                  ((ingest_events-Sound id arrival events).at s h))
        ]
      ]
    where
      go : (r : Result Ingested × Hub) → Post Sound r → IsSound (kept s r).1
      go (ok a, s') q = q
      go (err e, s') q = record { rows = h.rows; log = h.log }
