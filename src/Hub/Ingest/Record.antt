-- ===== src/Hub/Ingest/Record.antt =====
-- hub/ingest.go, handleIngestEvents: the accepted events are on record, and the highest number is
-- kept.
use sakura_assistant.Base.{
  ℕ, max, String, ◌≡◌, refl, ◌∙◌, true, false, ◌&&◌, List, [], ◌∷◌, ◌++◌, ◌==◌, ltb, leb, arith,
  inl, inr, All, Bool-cases, or-right, eq_refl, if◌then◌else◌,
}
use sakura_assistant.Hub.Types.{EventRow, SourceRow}
use sakura_assistant.Hub.Store.{HubEnv, Hub}
use sakura_assistant.Hub.Fault.Tables.{has_event}
use sakura_assistant.Hub.Fault.Apply.{apply_event}
use sakura_assistant.Hub.Ensures.{Ensures, Ensures-bind, Ensures-weaken}
use sakura_assistant.Hub.Fault.Events.{IsRowOf, Over, Still, apply_event-Still}
use sakura_assistant.Hub.Ingest.Events.{Item, apply_items}

-- Every id of the list is on record for the source.
abbrev pub Known : String → List String → List EventRow → Type 0
Known src ids es = All (λ id. has_event src id es ≡ true) ids

abbrev pub ids_of : List Item → List String
ids_of [] = []
ids_of (it ∷ rest) = it.ev.event_id ∷ ids_of rest

pub has_event-append :
    (src id : String) (es : List EventRow) (e : EventRow)
    → has_event src id es ≡ true
    → has_event src id (es ++ e ∷ []) ≡ true
unfolding has_event
has_event-append src id [] e h = cc
has_event-append src id (x ∷ es) e h = elim (Bool-cases (x.source_id == src && x.event_id == id)) [
  | inl here ↦ rw here refl
  | inr other ↦ rw other (has_event-append src id es e (or-right _ _ other h))
]

pub Known-append :
    (src : String) (ids : List String) (es : List EventRow) (e : EventRow)
    → Known src ids es
    → Known src ids (es ++ e ∷ [])
Known-append src [] es e h = tt
Known-append src (id ∷ ids) es e h =
    (has_event-append src id es e h.0, Known-append src ids es e h.1)

has_event-last :
    (src : SourceRow) (id : String) (es : List EventRow) (e : EventRow)
    → IsRowOf src id e
    → has_event src.id id (es ++ e ∷ []) ≡ true
unfolding has_event
has_event-last src id [] e row = rw (row.0, row.1, eq_refl src.id, eq_refl id) refl
has_event-last src id (x ∷ es) e row =
    elim (Bool-cases (x.source_id == src.id && x.event_id == id)) [
      | inl here ↦ rw here refl
      | inr other ↦ rw other (has_event-last src id es e row)
    ]

-- The highest number of a batch, from `last` up.
abbrev pub highest : ℕ → List Item → ℕ
highest last [] = last
highest last (it ∷ rest) = max it.ev.seq (highest last rest)

abbrev higher : ℕ → ℕ → ℕ
higher last seq = if ltb last seq then seq else last

highest-higher :
    (last seq : ℕ) (items : List Item)
    → highest (higher last seq) items ≡ max seq (highest last items)
highest-higher last seq [] = ground arith
highest-higher last seq (it ∷ rest) = rw (highest-higher last seq rest) (omega arith)

-- What the second loop leaves: every event of the batch and every earlier one is on record, and the
-- number is the highest.
abbrev pub Applied : String → List String → ℕ → List Item → ℕ → Hub → Type 0
Applied src ids last items n s =
    Known src (ids_of items) s.events × Known src ids s.events × (n ≡ highest last items)

pub apply_items-Applied :
    (env : HubEnv) (src : SourceRow) (ids : List String) (last : ℕ) (items : List Item)
    → Ensures
        (Over (Known src.id ids))
        (apply_items env src last items)
        (Applied src.id ids last items)
unfolding apply_items
apply_items-Applied env src ids last [] = record { at = λ s h. (tt, h, refl) }
apply_items-Applied env src ids last (it ∷ rest) =
    let next = higher last it.ev.seq in
    let with_it = it.ev.event_id ∷ ids in
    Ensures-bind (Still (Known src.id with_it))
      (apply_event env src it.ev false (leb it.ev.seq last)) (λ _. apply_items env src next rest)
      (apply_event-Still (Known src.id ids) (Known src.id with_it) env src it.ev false _
        (λ es e row h.
          (has_event-last src it.ev.event_id es e row, Known-append src.id ids es e h)))
      (λ _.
        Ensures-weaken (apply_items-Applied env src with_it next rest)
          (λ n s h. ((h.1.0, h.0), h.1.1, h.2 ∙ highest-higher last it.ev.seq rest)))
