-- ===== src/Hub/Ingest/Redelivery.antt =====
-- hub/ingest.go, handleIngestEvents: what one delivery records, a later one does not accept again.
use sakura_assistant.Base.{
  ℕ, String, ◌≡◌, sym, Bool, true, false, List, [], ◌∷◌, ltb, length, inl, inr, All, Bool-cases,
}
use mathlib.Core.Path.{subst}
use mathlib.Core.List.{Permᴰ}
use sakura_assistant.Hub.Types.{EventPayload, EventRow}
use sakura_assistant.Hub.Store.{HubEnv, Hub, Result, ok, err, with_tx, kept}
use sakura_assistant.Hub.Fault.Tables.{has_event}
use sakura_assistant.Hub.Ensures.{Post}
use sakura_assistant.Hub.Ingest.Events.{
  Item, Ingested, ingest_events, pick, text_in, Rejection, Reply, invalid, internal, done, reply_of,
  handle_ingest_events,
}
use sakura_assistant.Hub.Ingest.Record.{Known}
use sakura_assistant.Hub.Ingest.Positions.{
  Matches, All-Perm, pick-All, ids_of-All, check_events-IsPlaced, check_events-Unlisted,
}
use sakura_assistant.Hub.Ingest.Delivered.{Delivered, ingest_events-Delivered}

-- The ids that a reply accepts.
abbrev pub accepted_of : Reply → List String
accepted_of (invalid m) = []
accepted_of internal = []
accepted_of (done acc dups rejections last) = acc

abbrev IsRecorded : String → Reply × Hub → Type 0
IsRecorded id (reply, s) = Known id (accepted_of reply) s.events

-- None of the ids is listed.
abbrev pub Unlisted : List String → List String → Type 0
Unlisted listed ids = All (λ x. text_in x listed ≡ false) ids

-- The events of the source that were on record still are.
abbrev pub StillOnRecord : String → List EventRow → List EventRow → Type 0
StillOnRecord src before now =
    (x : String) → has_event src x before ≡ true → has_event src x now ≡ true

StillOnRecord-Known :
    (src : String) (before now : List EventRow) (ids : List String)
    → StillOnRecord src before now
    → Known src ids before
    → Known src ids now
StillOnRecord-Known src before now [] still k = tt
StillOnRecord-Known src before now (x ∷ ids) still k =
    (still x k.0, StillOnRecord-Known src before now ids still k.1)

-- What is known of the items that a later delivery takes.
abbrev TakesUnlisted : List EventPayload → List String → List Item → Type 0
TakesUnlisted events ids items =
    All (Matches 0 events) items × All (λ it. text_in it.ev.event_id ids ≡ false) items

module _ (env : HubEnv) (sort : List Item → List Item)
    (permutes : (items : List Item) → Permᴰ (sort items) items) where
  handle_ingest_events-IsRecorded :
      (id : String) (arrival : ℕ) (events : List EventPayload) (s : Hub)
      → IsRecorded id (handle_ingest_events env sort false id arrival events s)
  unfolding handle_ingest_events with_tx
  handle_ingest_events-IsRecorded id arrival events s =
      elim (Bool-cases (ltb 100 (length events))) [
        | inl long ↦ rw long tt
        | inr short ↦ rw short (
            go (ingest_events env sort id arrival events s) (
              (ingest_events-Delivered env sort (All (Matches 0 events)) id [] events
                  (λ s cur tick is_id k. (check_events-IsPlaced env s cur.id 0 tick [] events).1)
                  arrival).at
                s tt))
      ]
    where
      go :
          (r : Result Ingested × Hub)
          → Post (Delivered sort (All (Matches 0 events)) id) r
          → IsRecorded id (reply_of events (kept s r).0, (kept s r).1)
      go (err e, s') d = tt
      go (ok r, s') d =
          subst (λ at. Known id (pick at 0 events) s'.events) (sym d.accepted)
            (pick-All (λ x. has_event id x s'.events ≡ true) 0 events (sort d.valid)
              (All-Perm (Matches 0 events) (permutes d.valid) d.fact) d.recorded)

  accepted_of-Unlisted :
      (id : String) (ids : List String) (aborted : Bool) (later : ℕ) (again : List EventPayload)
      (s : Hub)
      → Known id ids s.events
      → Unlisted ids (accepted_of (handle_ingest_events env sort aborted id later again s).0)
  unfolding handle_ingest_events with_tx
  accepted_of-Unlisted id ids aborted later again s k = elim (Bool-cases (ltb 100 (length again))) [
    | inl long ↦ rw long tt
    | inr short ↦ elim (Bool-cases aborted) [
      | inl a ↦ rw (short, a) tt
      | inr b ↦
          rw (short, b)
            (go (ingest_events env sort id later again s) (
              (ingest_events-Delivered env sort (TakesUnlisted again ids) id ids again
                  (λ s cur tick is_id k. (
                    (check_events-IsPlaced env s cur.id 0 tick [] again).1,
                    check_events-Unlisted env s cur.id ids 0 tick [] again
                        (subst (λ i. Known i ids s.events) (sym is_id) k),
                  ))
                  later).at
                s k))
    ]
  ]
    where
      go :
          (r : Result Ingested × Hub)
          → Post (Delivered sort (TakesUnlisted again ids) id) r
          → Unlisted ids (accepted_of (reply_of again (kept s r).0))
      go (err e, s') d = tt
      go (ok r, s') d =
          subst (λ at. Unlisted ids (pick at 0 again)) (sym d.accepted)
            (pick-All (λ x. text_in x ids ≡ false) 0 again (sort d.valid)
              (All-Perm (Matches 0 again) (permutes d.valid) d.fact.0)
              (ids_of-All (λ x. text_in x ids ≡ false) (sort d.valid)
                (All-Perm (λ it. text_in it.ev.event_id ids ≡ false) (permutes d.valid) d.fact.1)))

  -- When a delivery was committed, with a sort that permutes, and all events of the source that were on
  -- record after it still are, whatever else happened to the database, a later delivery, of whatever batch
  -- and whether or not its transaction fails, accepts no id that the first accepted.
  pub handle_ingest_events-redelivered :
      (id : String) (arrival later : ℕ) (events again : List EventPayload) (s s' now : Hub)
      (acc dups : List String) (rejections : List Rejection) (last : ℕ) (aborted : Bool)
      → handle_ingest_events env sort false id arrival events s
        ≡ (done acc dups rejections last, s')
      → StillOnRecord id s'.events now.events
      → Unlisted acc (accepted_of (handle_ingest_events env sort aborted id later again now).0)
  handle_ingest_events-redelivered id arrival later events again s s' now acc dups rejections last
        aborted committed still =
      accepted_of-Unlisted id acc aborted later again now (
        StillOnRecord-Known id s'.events now.events acc still
          (subst (IsRecorded id) committed (handle_ingest_events-IsRecorded id arrival events s)))
