-- ===== src/Hub/Ingest/Delivered.antt =====
-- hub/ingest.go, handleIngestEvents: what a delivery leaves on record.
use sakura_assistant.Base.{
  ℕ, String, ◌≡◌, refl, ◌∙◌, Option, none, some, ◌==◌, List, [], ◌∷◌, inl, inr, Bool-cases, eq_iff,
}
use mathlib.Core.Path.{subst}
use sakura_assistant.Hub.Types.{EventPayload, EventRow, SourceRow}
use sakura_assistant.Hub.Store.{
  HubEnv, Hub, ok, err, ◌>>=◌, no_rows, find_source, insert_change_obj,
}
use sakura_assistant.Hub.Fault.Apply.{touch_source_seen}
use sakura_assistant.Hub.Ensures.{Post, Ensures, Ensures-bind, Ensures-weaken, Ensures-fact}
use sakura_assistant.Hub.Fault.Events.{
  Over, Still, Seen, touch_source_seen-Seen, insert_change-Still,
}
use sakura_assistant.Hub.Ingest.Events.{
  Item, Checked, Ingested, check_events, apply_items, load_source, emit_source_change, finish,
  check_batch, store_batch, ingest_events, indices,
}
use sakura_assistant.Hub.Ingest.Record.{Known, Known-append, ids_of, Applied, apply_items-Applied}

abbrev HasId : String → Option SourceRow → Type 0
HasId id none = Unit
HasId id (some r) = r.id ≡ id

find_source-HasId : (id : String) (rows : List SourceRow) → HasId id (find_source id rows)
unfolding find_source
find_source-HasId id [] = tt
find_source-HasId id (src ∷ rest) = elim (Bool-cases (src.id == id)) [
  | inl same ↦ rw same ((eq_iff src.id id).0 same)
  | inr other ↦ rw other (find_source-HasId id rest)
]

-- The variables of the handler after the transaction.
pub record IsAnswer (items : List Item) (checked : Checked) (r : Ingested) : Type 0 where
  pub accepted : r.accepted_idx ≡ indices items
  pub dups : r.dup_idx ≡ checked.dups
  pub rejections : r.rejections ≡ checked.rejected

module _ (P : List EventRow → Type 0) where
  load_source-Still :
      (id : String) → Ensures (Over P) (load_source id) (λ r s. P s.events × (r.id ≡ id))
  unfolding load_source
  load_source-Still id = record {
    at = λ s h. go s h (find_source id s.sources) (find_source-HasId id s.sources);
  }
    where
      go :
          (s : Hub)
          → Over P s
          → (o : Option SourceRow) → HasId id o
          → Post {A = SourceRow}
              (λ r s. P s.events × (r.id ≡ id))
              (elim o [ none ↦ (err no_rows, s) | some src ↦ (ok src, s) ])
      go s h none e = tt
      go s h (some r) e = (h, e)

  pub finish-Still :
      (env : HubEnv) (cur : SourceRow) (items : List Item) (checked : Checked) (last : ℕ)
      → Ensures
          (Over P)
          (finish env cur items checked last)
          (λ r s. P s.events × IsAnswer items checked r)
  unfolding finish emit_source_change
  finish-Still env cur items checked last = record {
    at = λ s h.
        (Ensures-bind (λ r s. P s.events × (r.id ≡ cur.id)) (load_source cur.id) _
            (load_source-Still cur.id)
            (λ fresh. Ensures-fact (λ _.
              Ensures-bind (Still P) (insert_change_obj env fresh.id _ none) _
                (insert_change-Still P env fresh.id _ none)
                (λ _. record {
                  at = λ s h. (h, record { accepted = refl; dups = refl; rejections = refl });
                })))).at
          (record s { sources = _ }) h;
  }

-- What a delivery leaves: the items that it applied, with what is known of the valid ones, and their
-- ids on record.
pub record Delivered (sort : List Item → List Item) (V : List Item → Type 0) (id : String)
    (r : Ingested) (s : Hub) : Type 0 where
  pub valid : List Item
  pub fact : V valid
  pub accepted : r.accepted_idx ≡ indices (sort valid)
  pub recorded : Known id (ids_of (sort valid)) s.events

module _ (env : HubEnv) (sort : List Item → List Item) (V : List Item → Type 0) (id : String)
    (ids : List String) where
  store_batch-Delivered :
      (cur : SourceRow) (checked : Checked)
      → cur.id ≡ id
      → V checked.valid
      → Ensures (Over (Known id ids)) (store_batch env sort cur checked) (Delivered sort V id)
  unfolding store_batch
  store_batch-Delivered cur checked is_id v =
      let items = sort checked.valid in
      subst
        (λ i.
          Ensures (Over (Known i ids))
            (apply_items env cur cur.last_event_seq items >>= finish env cur items checked)
            (Delivered sort V i))
        is_id
        (Ensures-bind (Applied cur.id ids cur.last_event_seq items)
          (apply_items env cur cur.last_event_seq items) (finish env cur items checked)
          (apply_items-Applied env cur ids cur.last_event_seq items)
          (λ last. record {
            at = λ s h.
                (Ensures-weaken
                    (finish-Still (Known cur.id (ids_of items)) env cur items checked last)
                    (λ r s k. record {
                      valid = checked.valid;
                      fact = v;
                      accepted = k.1.accepted;
                      recorded = k.0;
                    })).at
                  s h.0;
          }))

  module _ (events : List EventPayload)
      (checks : (s : Hub) (cur : SourceRow) (tick : ℕ)
        → cur.id ≡ id
        → Known id ids s.events
        → V (check_events env s cur.id 0 tick [] events).valid) where
    pub ingest_events-Delivered :
        (arrival : ℕ)
        → Ensures
            (Over (Known id ids))
            (ingest_events env sort id arrival events)
            (Delivered sort V id)
    unfolding ingest_events check_batch
    ingest_events-Delivered arrival =
        Ensures-bind (λ row s. Known id ids s.events × (row.id ≡ id)) (load_source id)
          (λ row.
            touch_source_seen env row arrival
            >>= (λ cur. check_batch env cur events >>= store_batch env sort cur))
          (load_source-Still (Known id ids) id)
          (λ row. Ensures-fact (λ row_id.
            Ensures-bind (Seen (Known id ids) (Known-append id ids) row)
              (touch_source_seen env row arrival)
              (λ cur. check_batch env cur events >>= store_batch env sort cur)
              (touch_source_seen-Seen (Known id ids) (Known-append id ids) env row arrival)
              (λ cur. Ensures-fact (λ seen.
                Ensures-bind (λ checked s. Known id ids s.events × V checked.valid)
                  (check_batch env cur events) (store_batch env sort cur)
                  (checked cur (seen.id ∙ row_id))
                  (λ c. Ensures-fact (store_batch-Delivered cur c (seen.id ∙ row_id)))))))
      where
        checked :
            (cur : SourceRow)
            → cur.id ≡ id
            → Ensures
                (Over (Known id ids))
                (check_batch env cur events)
                (λ c s. Known id ids s.events × V c.valid)
        checked cur is_id = record { at = λ s h. (h, checks s cur s.tick is_id h) }

-- A source that is there is loaded.
pub load_source-found :
    (id : String) (fresh : SourceRow) (s : Hub)
    → find_source id s.sources ≡ some fresh
    → load_source id s ≡ (ok fresh, s)
unfolding load_source
load_source-found id fresh s found = rw (load_source, found) refl
