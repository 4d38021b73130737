-- ===== src/Hub/Ingest/Positions.antt =====
-- hub/ingest.go, handleIngestEvents: the items of a batch and their positions in it.
use sakura_assistant.Base.{
  ℕ, ◌+◌, ◌≤◌, ◌<◌, String, ◌≡◌, refl, sym, true, ◌||◌, List, [], ◌∷◌, eqb, arith, inl, inr, All,
  Bool-cases, Option-cases, or-right, false, ◌==◌, eq_iff,
}
use mathlib.Core.Path.{subst}
use mathlib.Core.List.{Permᴰ}
use sakura_assistant.Hub.Types.{EventPayload, EventRow}
use sakura_assistant.Hub.Store.{HubEnv, Hub}
use sakura_assistant.Hub.Fault.Tables.{has_event}
use sakura_assistant.Hub.Ingest.Validate.{validate_event}
use sakura_assistant.Hub.Ingest.Events.{Item, check_events, text_in, number_in, indices, pick}
use sakura_assistant.Hub.Ingest.Record.{Known, ids_of}

-- An item whose index lies in the batch, which starts at `i`, carries the event at that place.
abbrev pub Matches : ℕ → List EventPayload → Item → Type 0
Matches i [] it = Unit
Matches i (ev ∷ rest) it = (it.idx ≡ i → it.ev ≡ ev) × Matches (i + 1) rest it

-- Items that stand before the batch carry no event of it.
Matches-before : (i : ℕ) (events : List EventPayload) (it : Item) → it.idx < i → Matches i events it
Matches-before i [] it l = tt
Matches-before i (ev ∷ rest) it l =
    ((λ e. ground arith), Matches-before (i + 1) rest it (omega (arith, l)))

abbrev pub From : ℕ → Item → Type 0
From i it = i ≤ it.idx

From-later : (i : ℕ) (items : List Item) → All (From (i + 1)) items → All (From i) items
From-later i [] h = tt
From-later i (it ∷ rest) h = (omega (arith, h.0), From-later i rest h.1)

Matches-earlier :
    (i : ℕ) (ev : EventPayload) (rest : List EventPayload) (items : List Item)
    → All (From (i + 1)) items
    → All (Matches (i + 1) rest) items
    → All (Matches i (ev ∷ rest)) items
Matches-earlier i ev rest [] f m = tt
Matches-earlier i ev rest (it ∷ items) f m =
    (((λ e. ground (arith, f.0)), m.0), Matches-earlier i ev rest items f.1 m.1)

pub All-Perm : (P : Item → Type 0) {xs ys : List Item} → Permᴰ ys xs → All P xs → All P ys
All-Perm P Permᴰ.nil h = tt
All-Perm P (Permᴰ.cons e p) h = (subst P (sym e) h.0, All-Perm P p h.1)
All-Perm P (Permᴰ.swap e d) h = (subst P (sym e) h.1.0, (subst P (sym d) h.0, h.1.1))
All-Perm P (Permᴰ.trans p q) h = All-Perm P p (All-Perm P q h)

tails :
    (i : ℕ) (ev : EventPayload) (rest : List EventPayload) (items : List Item)
    → All (Matches i (ev ∷ rest)) items
    → All (Matches (i + 1) rest) items
tails i ev rest [] m = tt
tails i ev rest (it ∷ items) m = (m.0.1, tails i ev rest items m.1)

-- What holds of the ids of items holds of the ids that are picked by the items' indices.
module _ (Q : String → Type 0) where
  item-All :
      (i : ℕ) (ev : EventPayload) (rest : List EventPayload) (items : List Item)
      → All (Matches i (ev ∷ rest)) items
      → All Q (ids_of items)
      → number_in i (indices items) ≡ true
      → Q ev.event_id
  unfolding number_in
  item-All i ev rest [] m k h = absurd (ground (arith, h))
  item-All i ev rest (it ∷ items) m k h = elim (Bool-cases (eqb it.idx i)) [
    | inl here ↦ subst (λ e. Q e.event_id) (m.0.0 (ground (arith, here))) k.0
    | inr other ↦ item-All i ev rest items m.1 k.1 (or-right _ _ other h)
  ]

  pub pick-All :
      (i : ℕ) (events : List EventPayload) (items : List Item)
      → All (Matches i events) items
      → All Q (ids_of items)
      → All Q (pick (indices items) i events)
  unfolding pick
  pick-All i [] items m k = tt
  pick-All i (ev ∷ rest) items m k = elim (Bool-cases (number_in i (indices items))) [
    | inl here ↦
        rw here (
          item-All i ev rest items m k here,
          pick-All (i + 1) rest items (tails i ev rest items m) k,
        )
    | inr other ↦ rw other (pick-All (i + 1) rest items (tails i ev rest items m) k)
  ]

  pub ids_of-All : (items : List Item) → All (λ it. Q it.ev.event_id) items → All Q (ids_of items)
  ids_of-All [] h = tt
  ids_of-All (it ∷ items) h = (h.0, ids_of-All items h.1)

text_in-Known :
    (src x : String) (ids : List String) (es : List EventRow)
    → Known src ids es
    → text_in x ids ≡ true
    → has_event src x es ≡ true
unfolding text_in
text_in-Known src x [] es k h = ground arith
text_in-Known src x (y ∷ ids) es k h = elim (Bool-cases (y == x)) [
  | inl same ↦ subst (λ i. has_event src i es ≡ true) ((eq_iff y x).0 same) k.0
  | inr other ↦ text_in-Known src x ids es k.1 (or-right _ _ other h)
]

-- An id that is not on record is none of those that are.
unrecorded :
    (src x : String) (ids : List String) (es : List EventRow)
    → Known src ids es
    → has_event src x es ≡ false
    → text_in x ids ≡ false
unrecorded src x ids es k new = elim (Bool-cases (text_in x ids)) [
  | inl listed ↦ ground (arith, text_in-Known src x ids es k listed, new)
  | inr other ↦ other
]

module _ (env : HubEnv) (s : Hub) (src : String) where
  abbrev pub IsPlaced : ℕ → List EventPayload → List Item → Type 0
  IsPlaced i events items = All (From i) items × All (Matches i events) items

  skipped-IsPlaced :
      (i : ℕ) (ev : EventPayload) (rest : List EventPayload) (items : List Item)
      → IsPlaced (i + 1) rest items
      → IsPlaced i (ev ∷ rest) items
  skipped-IsPlaced i ev rest items h =
      (From-later i items h.0, Matches-earlier i ev rest items h.0 h.1)

  -- The valid items carry the events at their places.
  pub check_events-IsPlaced :
      (i tick : ℕ) (seen : List String) (events : List EventPayload)
      → IsPlaced i events (check_events env s src i tick seen events).valid
  unfolding check_events
  check_events-IsPlaced i tick seen [] = (tt, tt)
  check_events-IsPlaced i tick seen (ev ∷ rest) =
      let skipped =
        skipped-IsPlaced i ev rest _ (check_events-IsPlaced (i + 1) (tick + 1) seen rest) in
      let taken =
        skipped-IsPlaced i ev rest _
          (check_events-IsPlaced (i + 1) (tick + 1) (ev.event_id ∷ seen) rest) in
      elim (Option-cases (validate_event env (env.now tick) ev)) [
        | inl valid ↦
            (elim (Bool-cases (text_in ev.event_id seen || has_event src ev.event_id s.events)) [
              | inl dup ↦ rw (check_events, valid, dup) skipped
              | inr new ↦
                  rw (check_events, valid, new)
                    (
                      (omega arith, taken.0),
                      (((λ _. refl), Matches-before (i + 1) rest _ (omega arith)), taken.1),
                    )
            ])
        | inr (message, bad) ↦ rw (check_events, bad) skipped
      ]

  -- No valid item has an id that is on record.
  pub check_events-Unlisted :
      (ids : List String) (i tick : ℕ) (seen : List String) (events : List EventPayload)
      → Known src ids s.events
      → All
          (λ it. text_in it.ev.event_id ids ≡ false)
          (check_events env s src i tick seen events).valid
  unfolding check_events
  check_events-Unlisted ids i tick seen [] k = tt
  check_events-Unlisted ids i tick seen (ev ∷ rest) k =
      let skipped = check_events-Unlisted ids (i + 1) (tick + 1) seen rest k in
      let taken = check_events-Unlisted ids (i + 1) (tick + 1) (ev.event_id ∷ seen) rest k in
      elim (Option-cases (validate_event env (env.now tick) ev)) [
        | inl valid ↦
            (elim (Bool-cases (text_in ev.event_id seen || has_event src ev.event_id s.events)) [
              | inl dup ↦ rw (check_events, valid, dup) skipped
              | inr new ↦
                  rw (check_events, valid, new)
                    (unrecorded src ev.event_id ids s.events k (ground (arith, new)), taken)
            ])
        | inr (message, bad) ↦ rw (check_events, bad) skipped
      ]
