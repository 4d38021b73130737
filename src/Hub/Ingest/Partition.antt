-- ===== src/Hub/Ingest/Partition.antt =====
-- hub/ingest.go, handleIngestEvents: each event of a batch has one fate in the answer.
use sakura_assistant.Base.{
  ℕ, suc, ◌+◌, ◌≤◌, ◌<◌, String, ◌≡◌, refl, ap, ◌∙◌, Bool, true, false, ◌||◌, List, [], ◌∷◌, eqb,
  arith, inl, inr, All, Bool-cases, Option-cases, length, ltb,
}
use mathlib.Core.List.{Permᴰ}
use sakura_assistant.Hub.Types.{EventPayload, SourceRow}
use sakura_assistant.Hub.Store.{HubEnv, Hub, Result, ok, err, ◌>>=◌, with_tx, kept}
use sakura_assistant.Hub.Ensures.{Post, Ensures, Ensures-bind, Ensures-weaken, Ensures-any}
use sakura_assistant.Hub.Fault.Tables.{has_event}
use sakura_assistant.Hub.Fault.Apply.{touch_source_seen}
use sakura_assistant.Hub.Ingest.Validate.{validate_event}
use sakura_assistant.Hub.Ingest.Events.{
  Item, Checked, check_events, text_in, number_in, indices, pick, Rejection, rejection,
  with_rejected, with_dup, with_valid, Ingested, load_source, check_batch, apply_items, finish,
  store_batch, ingest_events, Reply, invalid, internal, done, reply_of, handle_ingest_events,
}
use sakura_assistant.Hub.Ingest.Positions.{From, check_events-IsPlaced}
use sakura_assistant.Hub.Ingest.Delivered.{finish-Still}

-- Numbers from `i` on.
abbrev Above : ℕ → List ℕ → Type 0
Above i at = All (λ n. i ≤ n) at

Above-later : (i : ℕ) (at : List ℕ) → Above (i + 1) at → Above i at
Above-later i [] h = tt
Above-later i (n ∷ at) h = (omega (arith, h.0), Above-later i at h.1)

not_in-Above : (i : ℕ) (at : List ℕ) → Above (i + 1) at → number_in i at ≡ false
unfolding number_in
not_in-Above i [] h = refl
not_in-Above i (n ∷ at) h = elim (Bool-cases (eqb n i)) [
  | inl same ↦ ground (arith, h.0)
  | inr other ↦ rw (other, not_in-Above i at h.1) refl
]

-- A position before the batch picks nothing of it.
pick-before :
    (i k : ℕ) (at : List ℕ) (events : List EventPayload)
    → k < i
    → pick (k ∷ at) i events ≡ pick at i events
unfolding pick number_in
pick-before i k at [] l = refl
pick-before i k at (ev ∷ rest) l = elim (Bool-cases (eqb k i)) [
  | inl same ↦ ground arith
  | inr other ↦ rw (other, pick-before (i + 1) k at rest (omega (arith, l))) refl
]

pick-hit :
    (i : ℕ) (at : List ℕ) (ev : EventPayload) (rest : List EventPayload)
    → pick (i ∷ at) i (ev ∷ rest) ≡ ev.event_id ∷ pick at (i + 1) rest
unfolding pick number_in
pick-hit i at ev rest = elim (Bool-cases (eqb i i)) [
  | inl same ↦ rw same (ap (◌∷◌ ev.event_id) (pick-before (i + 1) i at rest (omega arith)))
  | inr other ↦ ground (arith, other)
]

pick-miss :
    (i : ℕ) (at : List ℕ) (ev : EventPayload) (rest : List EventPayload)
    → Above (i + 1) at
    → pick at i (ev ∷ rest) ≡ pick at (i + 1) rest
unfolding pick
pick-miss i at ev rest h = rw (not_in-Above i at h) refl

indices-Above : (i : ℕ) (items : List Item) → All (From i) items → Above i (indices items)
indices-Above i [] h = tt
indices-Above i (it ∷ items) h = (h.0, indices-Above i items h.1)

or-swap : (x y z : Bool) → (x || (y || z)) ≡ (y || (x || z))
or-swap true true z = refl
or-swap true false z = refl
or-swap false y z = refl

number_in-Perm :
    (i : ℕ) {xs ys : List Item} → Permᴰ ys xs → number_in i (indices ys) ≡ number_in i (indices xs)
unfolding number_in
number_in-Perm i Permᴰ.nil = refl
number_in-Perm i (Permᴰ.cons e p) = rw (e, number_in-Perm i p) refl
number_in-Perm i (Permᴰ.swap {a' = x} {b' = y} {l = l} e d) =
    rw (e, d) (or-swap (eqb y.idx i) (eqb x.idx i) (number_in i (indices l)))
number_in-Perm i (Permᴰ.trans p q) = number_in-Perm i p ∙ number_in-Perm i q

pick-Perm :
    (i : ℕ) (events : List EventPayload) {xs ys : List Item}
    → Permᴰ ys xs
    → pick (indices ys) i events ≡ pick (indices xs) i events
unfolding pick
pick-Perm i [] p = refl
pick-Perm i (ev ∷ rest) p = rw (number_in-Perm i p, pick-Perm (i + 1) rest p) refl

-- How many events have each fate.
abbrev fates : ℕ → List EventPayload → Checked → ℕ
fates i events c =
    length (pick (indices c.valid) i events) + length (pick c.dups i events) + length c.rejected

fates-none : (i : ℕ) → fates i [] (record { valid = []; rejected = []; dups = [] }) ≡ 0
unfolding pick
fates-none i = refl

module _ (i : ℕ) (ev : EventPayload) (rest : List EventPayload) (c : Checked)
    (valid_above : Above (i + 1) (indices c.valid)) (dups_above : Above (i + 1) c.dups) where
  fates-valid :
      fates i (ev ∷ rest) (with_valid (record { idx = i; ev = ev }) c) ≡ suc (fates (i + 1) rest c)
  fates-valid =
      rw (pick-hit i (indices c.valid) ev rest, pick-miss i c.dups ev rest dups_above) (omega arith)

  fates-dup : fates i (ev ∷ rest) (with_dup i c) ≡ suc (fates (i + 1) rest c)
  fates-dup =
      rw (pick-hit i c.dups ev rest, pick-miss i (indices c.valid) ev rest valid_above)
        (omega arith)

  fates-rejected :
      (r : Rejection) → fates i (ev ∷ rest) (with_rejected r c) ≡ suc (fates (i + 1) rest c)
  fates-rejected r =
      rw (pick-miss i c.dups ev rest dups_above, pick-miss i (indices c.valid) ev rest valid_above)
        (omega arith)

module _ (env : HubEnv) (s : Hub) (src : String) where
  abbrev checked : ℕ → ℕ → List String → List EventPayload → Checked
  checked i tick seen events = check_events env s src i tick seen events

  dups-Above :
      (i tick : ℕ) (seen : List String) (events : List EventPayload)
      → Above i (checked i tick seen events).dups
  unfolding check_events
  dups-Above i tick seen [] = tt
  dups-Above i tick seen (ev ∷ rest) =
      let skipped = Above-later i _ (dups-Above (i + 1) (tick + 1) seen rest) in
      let taken = Above-later i _ (dups-Above (i + 1) (tick + 1) (ev.event_id ∷ seen) rest) in
      elim (Option-cases (validate_event env (env.now tick) ev)) [
        | inl valid ↦
            elim (Bool-cases (text_in ev.event_id seen || has_event src ev.event_id s.events)) [
              | inl dup ↦ rw (check_events, valid, dup) (omega arith, skipped)
              | inr new ↦ rw (check_events, valid, new) taken
            ]
        | inr (message, bad) ↦ rw (check_events, bad) skipped
      ]

  check_events-fates :
      (i tick : ℕ) (seen : List String) (events : List EventPayload)
      → fates i events (checked i tick seen events) ≡ length events
  unfolding check_events
  check_events-fates i tick seen [] = fates-none i
  check_events-fates i tick seen (ev ∷ rest) =
      let above = λ (seen : List String).
        indices-Above (i + 1) _ (check_events-IsPlaced env s src (i + 1) (tick + 1) seen rest).0 in
      let dups = λ (seen : List String). dups-Above (i + 1) (tick + 1) seen rest in
      let rest_of =
        λ (seen : List String). ap suc (check_events-fates (i + 1) (tick + 1) seen rest) in
      let more = ev.event_id ∷ seen in
      elim (Option-cases (validate_event env (env.now tick) ev)) [
        | inl valid ↦
            elim (Bool-cases (text_in ev.event_id seen || has_event src ev.event_id s.events)) [
              | inl dup ↦
                  rw (check_events, valid, dup)
                    (fates-dup i ev rest (checked (i + 1) (tick + 1) seen rest) (above seen)
                        (dups seen)
                      ∙ rest_of seen)
              | inr new ↦
                  rw (check_events, valid, new)
                    (fates-valid i ev rest (checked (i + 1) (tick + 1) more rest) (above more)
                        (dups more)
                      ∙ rest_of more)
            ]
        | inr (message, bad) ↦
            rw (check_events, bad)
              (fates-rejected i ev rest (checked (i + 1) (tick + 1) seen rest) (above seen)
                  (dups seen) (rejection ev message)
                ∙ rest_of seen)
      ]

-- The events of a batch are those that the answer accepts, those that it calls duplicates, and those
-- that it rejects. An answer without these lists has not taken the batch.
abbrev pub Accounted : List EventPayload → Reply → Type 0
Accounted events (invalid m) = Unit
Accounted events internal = Unit
Accounted events (done acc dups rejections last) =
    length acc + length dups + length rejections ≡ length events

module _ (env : HubEnv) (sort : List Item → List Item)
    (permutes : (items : List Item) → Permᴰ (sort items) items) (events : List EventPayload) where
  abbrev Fates : Checked → Hub → Type 0
  Fates c s = fates 0 events c ≡ length events

  abbrev Answered : Ingested → Hub → Type 0
  Answered r s = Accounted events (reply_of events (ok r))

  store_batch-Answered :
      (cur : SourceRow) (c : Checked) → Ensures (Fates c) (store_batch env sort cur c) Answered
  unfolding store_batch
  store_batch-Answered cur c = record {
    at = λ s h.
        (Ensures-bind (λ _ _. Unit {0}) (apply_items env cur cur.last_event_seq (sort c.valid))
            (finish env cur (sort c.valid) c) (Ensures-any _)
            (λ last.
              Ensures-weaken (finish-Still (λ _. Unit {0}) env cur (sort c.valid) c last) (λ r s k.
                rw (k.1.accepted, k.1.dups, k.1.rejections, pick-Perm 0 events (permutes c.valid))
                  h))).at
          s tt;
  }

  ingest_events-Answered :
      (id : String) (arrival : ℕ)
      → Ensures (λ _. Unit {0}) (ingest_events env sort id arrival events) Answered
  unfolding ingest_events check_batch
  ingest_events-Answered id arrival =
      Ensures-bind (λ _ _. Unit {0}) (load_source id)
        (λ row.
          touch_source_seen env row arrival
          >>= (λ cur. check_batch env cur events >>= store_batch env sort cur))
        (Ensures-any _)
        (λ row.
          Ensures-bind (λ _ _. Unit {0}) (touch_source_seen env row arrival)
            (λ cur. check_batch env cur events >>= store_batch env sort cur) (Ensures-any _)
            (λ cur.
              Ensures-bind Fates (check_batch env cur events) (store_batch env sort cur)
                (record { at = λ s h. check_events-fates env s cur.id 0 s.tick [] events })
                (λ c. store_batch-Answered cur c)))

  -- With a sort that permutes, an answer with the three lists has one entry for each event of the
  -- batch: the accepted, the duplicates and the rejected ones make up their number.
  pub handle_ingest_events-Accounted :
      (aborted : Bool) (id : String) (arrival : ℕ) (s : Hub)
      → Accounted events (handle_ingest_events env sort aborted id arrival events s).0
  unfolding handle_ingest_events with_tx
  handle_ingest_events-Accounted aborted id arrival s =
      elim (Bool-cases (ltb 100 (length events))) [
        | inl long ↦ rw long tt
        | inr short ↦ elim (Bool-cases aborted) [
          | inl a ↦ rw (short, a) tt
          | inr b ↦
              rw (short, b)
                (go (ingest_events env sort id arrival events s)
                  ((ingest_events-Answered id arrival).at s tt))
        ]
      ]
    where
      go :
          (r : Result Ingested × Hub)
          → Post Answered r
          → Accounted events (reply_of events (kept s r).0)
      go (ok a, s') q = q
      go (err e, s') q = tt
