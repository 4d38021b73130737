-- ===== src/Hub/Fault/Arrival.antt =====
-- hub/fault.go: events of one fault that arrive out of the order of their sequence numbers.
use sakura_assistant.Base.{
  ℕ, ◌+◌, ◌≤◌, ◌<◌, String, ◌≡◌, refl, sym, ap, ◌∙◌, Option, none, some, Bool, true, false, ◌&&◌,
  inl, inr, List, [], ◌∷◌, ◌++◌, arith, eq_iff, ltb, ◌==◌, Bool-cases, lt→ltb,
}
use mathlib.Core.Path.{subst}
use mathlib.Core.List.{Memᴰ}
use sakura_assistant.Hub.Types.{EventPayload, FaultRow, opened, resolved, PendingResolve, SourceRow}
use sakura_assistant.Hub.Store.{Hub}
use sakura_assistant.Hub.Fault.Apply.{pending_of, settle}
use sakura_assistant.Hub.Fault.Lifecycle.{RowIs}
use sakura_assistant.Hub.Fault.Tables.{has_pending, add_pending}
use sakura_assistant.Hub.Fault.Machine.{
  Transition, merge_fault_event, close_row, on_open, on_resolve, earliest_pending, sooner,
}

-- The record is for the key and its number is above `seq`.
abbrev pub covers : String → String → ℕ → PendingResolve → Bool
covers src key seq p = p.source_id == src && p.fault_key == key && ltb seq p.seq

abbrev pub NoEarlier : ℕ → Option PendingResolve → Type 0
NoEarlier n none = ⊥
NoEarlier n (some p) = p.seq ≤ n

abbrev pub Covering : String → String → ℕ → Option PendingResolve → Type 0
Covering src key seq none = Unit
Covering src key seq (some p) = covers src key seq p ≡ true

module _ (src key : String) (seq : ℕ) where
  Covering-sooner :
      (p : PendingResolve) (o : Option PendingResolve)
      → covers src key seq p ≡ true
      → Covering src key seq o
      → covers src key seq (sooner p o) ≡ true
  unfolding sooner
  Covering-sooner p none c h = c
  Covering-sooner p (some q) c h = ground arith

  -- The recovery that is found is on record for this key, with a greater number.
  pub earliest_pending-Covering :
      (ps : List PendingResolve) → Covering src key seq (earliest_pending src key seq ps)
  unfolding earliest_pending
  earliest_pending-Covering [] = tt
  earliest_pending-Covering (p ∷ rest) = elim (Bool-cases (covers src key seq p)) [
    | inl c ↦
        rw c
          (Covering-sooner p (earliest_pending src key seq rest) c (earliest_pending-Covering rest))
    | inr c ↦ rw c (earliest_pending-Covering rest)
  ]

  sooner-le : (p : PendingResolve) (o : Option PendingResolve) → (sooner p o).seq ≤ p.seq
  unfolding sooner
  sooner-le p none = omega arith
  sooner-le p (some q) = ground arith

  NoEarlier-sooner :
      (n : ℕ) (p : PendingResolve) (o : Option PendingResolve)
      → NoEarlier n o
      → NoEarlier n (some (sooner p o))
  unfolding sooner
  NoEarlier-sooner n p none h = absurd h
  NoEarlier-sooner n p (some q) h = ground arith

  -- Whatever recovery on record covers the number, the one that is found is not later.
  pub earliest_pending-NoEarlier :
      (ps : List PendingResolve) (q : PendingResolve)
      → Memᴰ q ps
      → covers src key seq q ≡ true
      → NoEarlier q.seq (earliest_pending src key seq ps)
  unfolding earliest_pending
  earliest_pending-NoEarlier [] q m c = elim m [ ]
  earliest_pending-NoEarlier (p ∷ rest) q (Memᴰ.head e) c =
      let d : covers src key seq p ≡ true = subst (λ x. covers src key seq x ≡ true) e c in
      rw d (
        subst (λ (x : PendingResolve). (sooner p (earliest_pending src key seq rest)).seq ≤ x.seq)
          (sym e) (sooner-le p (earliest_pending src key seq rest)))
  earliest_pending-NoEarlier (p ∷ rest) q (Memᴰ.tail m) c =
      elim (Bool-cases (covers src key seq p)) [
        | inl d ↦ rw d (
            NoEarlier-sooner q.seq p (earliest_pending src key seq rest)
              (earliest_pending-NoEarlier rest q m c))
        | inr d ↦ rw d (earliest_pending-NoEarlier rest q m c)
      ]

  uncovered :
      (q : PendingResolve) (rest : List PendingResolve)
      → earliest_pending src key seq (q ∷ rest) ≡ none
      → (covers src key seq q ≡ false) × (earliest_pending src key seq rest ≡ none)
  unfolding earliest_pending
  uncovered q rest e = ground arith

  nothing_covers_append :
      (p : PendingResolve) (ps : List PendingResolve)
      → covers src key seq p ≡ true
      → earliest_pending src key seq ps ≡ none
      → earliest_pending src key seq (ps ++ p ∷ []) ≡ some p
  unfolding earliest_pending sooner
  nothing_covers_append p [] c e = rw c
  nothing_covers_append p (q ∷ rest) c e =
      let (d, e') = uncovered q rest e in rw d (nothing_covers_append p rest c e')

  not_on_record :
      (p : PendingResolve) (ps : List PendingResolve)
      → covers src key seq p ≡ true
      → earliest_pending src key seq ps ≡ none
      → has_pending p.source_id p.fault_key p.seq ps ≡ false
  unfolding has_pending
  not_on_record p [] c e = refl
  not_on_record p (q ∷ rest) c e =
      let (d, e') = uncovered q rest e in
      ground (
        arith,
        not_on_record p rest c e',
        eq_iff q.source_id p.source_id,
        eq_iff q.fault_key p.fault_key,
      )

  -- A recovery that is put on record where none covers the number is the one found for it.
  pub earliest_pending-add_pending :
      (p : PendingResolve) (ps : List PendingResolve)
      → covers src key seq p ≡ true
      → earliest_pending src key seq ps ≡ none
      → earliest_pending src key seq (add_pending p ps) ≡ some p
  unfolding add_pending
  earliest_pending-add_pending p ps c e =
      rw (not_on_record p ps c e) (nothing_covers_append p ps c e)

-- The second row is that of a resolved incident, and the first is the same but for what the last event
-- gave it: the closing event's title, summary and time, and one more event counted.
abbrev pub SameButClosing : EventPayload → Option FaultRow → Option FaultRow → Type 0
SameButClosing closing (some f) (some g) =
    (g.state ≡ resolved)
    × (f ≡ record g {
      title = closing.title;
      summary = closing.body;
      last_event_at = closing.occurred_at;
      event_count = g.event_count + 1;
    })
SameButClosing closing _ _ = ⊥

resolves_open :
    (ev : EventPayload) (f : FaultRow)
    → f.state ≡ opened
    → f.opened_by_seq < ev.seq
    → (on_resolve ev (some f)).row ≡ some (close_row f ev)
unfolding on_resolve
resolves_open ev f s l = simp (s, lt→ltb f.opened_by_seq ev.seq l)

merges_open :
    (id src key : String) (ev : EventPayload) (f : FaultRow)
    → f.state ≡ opened
    → (on_open id src key ev none (some f)).row ≡ some (merge_fault_event f ev)
unfolding on_open
merges_open id src key ev f s = ground arith

module _ (id : String) (src : SourceRow) (key : String) (opening closing : EventPayload) where
  abbrev pub in_order : Option FaultRow
  in_order = (on_resolve closing (on_open id src.id key opening none none).row).row

  -- The recovery comes first and is put on record; then the opening comes.
  abbrev pub recovery_first : List PendingResolve → Transition
  recovery_first ps =
      on_open id src.id key opening
        (earliest_pending src.id key opening.seq (add_pending (pending_of src key closing) ps)) none

waits_not :
    (ev : EventPayload) (f : FaultRow)
    → f.state ≡ opened
    → f.opened_by_seq < ev.seq
    → (on_resolve ev (some f)).waits ≡ false
unfolding on_resolve
waits_not ev f s l = simp (s, lt→ltb f.opened_by_seq ev.seq l)

settles_unrecorded :
    (src : SourceRow) (ev : EventPayload) (key : String) (t : Transition) (s : Hub)
    → t.waits ≡ false
    → (settle src ev key (some t) s).1.pending_resolves ≡ s.pending_resolves
unfolding settle
settles_unrecorded src ev key t s w = rw w refl

-- A late event of an open incident: its number is below that of the recovery that was applied
-- before it arrived.
module _ (id key : String) (src : SourceRow) (f : FaultRow) (late closing : EventPayload) where
  -- The database after the recovery has passed the state machine, and put on record if it waits.
  abbrev pub closed_first : Hub → Hub
  closed_first s = (settle src closing key (some (on_resolve closing (some f))) s).1

  -- What the late event then makes of the fault.
  abbrev pub late_after : Hub → Transition
  late_after s =
      on_open id src.id key late
        (earliest_pending src.id key late.seq (closed_first s).pending_resolves)
        (on_resolve closing (some f)).row

  -- In the order of the numbers the recovery ends the incident. When the earlier event arrives after
  -- the recovery was applied to the open row, and no earlier recovery that covers it is on record, it opens
  -- a new incident and notifies of it: that recovery has put nothing on record for it to find.
  pub late_event_reopens :
      (s : Hub)
      → f.state ≡ opened
      → f.opened_by_seq < late.seq
      → late.seq < closing.seq
      → earliest_pending src.id key late.seq s.pending_resolves ≡ none
      → RowIs
          (λ g. (g.state ≡ resolved) × (g.incident ≡ f.incident))
          (on_resolve closing (on_open id src.id key late none (some f)).row).row
        × RowIs (λ g. (g.state ≡ opened) × (g.incident ≡ f.incident + 1)) (late_after s).row
        × ((late_after s).notify_kind ≡ "incident_open")
  late_event_reopens s is_open l m uncovered_late =
      let merged : (merge_fault_event f late).state ≡ opened =
        unfold merge_fault_event in is_open in
      let closes : f.opened_by_seq < closing.seq = omega (arith, l, m) in
      let found : earliest_pending src.id key late.seq (closed_first s).pending_resolves ≡ none =
        ap (earliest_pending src.id key late.seq) (
          settles_unrecorded src closing key (on_resolve closing (some f)) s
            (waits_not closing f is_open closes))
        ∙ uncovered_late in
      (
        rw (merges_open id src.id key late f is_open) (
            rw
              (resolves_open closing (merge_fault_event f late) merged
                (unfold merge_fault_event in closes))
              (unfold close_row merge_fault_event in (refl, refl))),
        rw (found, resolves_open closing f is_open closes)
            (unfold on_open close_row in (refl, refl)),
        rw (found, resolves_open closing f is_open closes) (unfold on_open close_row in refl),
      )
