-- ===== src/Hub/Fault/Lifecycle.antt =====
-- What the state machine of hub/fault.go keeps of a fault row, and how it treats events that arrive
-- out of the order of their sequence numbers.
use sakura_assistant.Base.{
  ℕ, ◌≤◌, ◌<◌, String, ◌≡◌, refl, Option, none, some, Bool, ◌⊎◌, inl, inr, arith, ltb, ◌&&◌,
  Bool-cases,
}
use sakura_assistant.Hub.Types.{
  EventPayload, FaultRow, FaultState, opened, resolved, PendingResolve,
}
use sakura_assistant.Hub.Fault.Machine.{
  Transition, merge_fault_event, on_open, on_resolve, transition, is_opened,
}

-- An open row holds no recovery; a resolved row holds a whole one, by a number above its opening's.
abbrev pub Recovery : FaultState → Option String → Option ℕ → Option String → ℕ → Type 0
Recovery opened none none none o = Unit
Recovery resolved (some at) (some n) (some by) o = o < n
Recovery _ _ _ _ o = ⊥

pub record IsWellFormed (f : FaultRow) : Type 0 where
  pub counted : 1 ≤ f.incident
  pub has_events : 1 ≤ f.event_count
  pub recovery : Recovery f.state f.resolved_at f.resolved_by_seq f.resolved_by f.opened_by_seq

abbrev pub RowIs : (FaultRow → Type 0) → Option FaultRow → Type 0
RowIs P none = Unit
RowIs P (some f) = P f

abbrev pub Later : ℕ → Option PendingResolve → Type 0
Later seq none = Unit
Later seq (some p) = seq < p.seq

resolves : EventPayload → FaultRow → Bool
resolves ev f = is_opened f.state && ltb f.opened_by_seq ev.seq

FaultState-cases : (s : FaultState) → (s ≡ opened) ⊎ (s ≡ resolved)
FaultState-cases opened = inl refl
FaultState-cases resolved = inr refl

on_resolve-IsWellFormed :
    (ev : EventPayload) (o : Option FaultRow)
    → RowIs IsWellFormed o
    → RowIs IsWellFormed (on_resolve ev o).row
unfolding on_resolve resolves
on_resolve-IsWellFormed ev none h = h
on_resolve-IsWellFormed ev (some f) h = elim (Bool-cases (resolves ev f)) [
  | inl closes ↦
      rw closes (record { counted = h.counted; has_events = omega arith; recovery = ground arith })
  | inr waits ↦ rw waits h
]

on_open-IsWellFormed :
    (id src key : String) (ev : EventPayload) (pending : Option PendingResolve)
    (o : Option FaultRow)
    → Later ev.seq pending
    → RowIs IsWellFormed o
    → RowIs IsWellFormed (on_open id src key ev pending o).row
unfolding on_open merge_fault_event
on_open-IsWellFormed id src key ev none none l h = record {
  counted = omega arith;
  has_events = omega arith;
  recovery = tt;
}
on_open-IsWellFormed id src key ev (some p) none l h = record {
  counted = omega arith;
  has_events = omega arith;
  recovery = l;
}
on_open-IsWellFormed id src key ev none (some f) l h = elim (FaultState-cases f.state) [
  | inl s ↦
      rw s
        (record { counted = h.counted; has_events = omega arith; recovery = rw s at (h.recovery) })
  | inr s ↦ rw s (record { counted = omega arith; has_events = omega arith; recovery = tt })
]
on_open-IsWellFormed id src key ev (some p) (some f) l h = elim (FaultState-cases f.state) [
  | inl s ↦
      rw s
        (record { counted = h.counted; has_events = omega arith; recovery = rw s at (h.recovery) })
  | inr s ↦
      rw s
        (record { counted = h.counted; has_events = omega arith; recovery = rw s at (h.recovery) })
]

transition_cases :
    (id src key : String) (ev : EventPayload) (action : String) (pending : Option PendingResolve)
    (o : Option FaultRow) (t : Transition)
    → transition id src key ev action pending o ≡ some t
    → (t ≡ on_open id src key ev pending o) ⊎ (t ≡ on_resolve ev o)
unfolding transition
transition_cases id src key ev action pending o t e = ground arith

-- Every event keeps the row well formed: an open row holds no recovery, a resolved row holds one
-- with a number above its opening's, and the incident and the event count start from one. The
-- recovery that was put on record earlier, if any, has a greater number than the event.
pub transition-IsWellFormed :
    (id src key : String) (ev : EventPayload) (action : String) (pending : Option PendingResolve)
    (o : Option FaultRow) (t : Transition)
    → Later ev.seq pending
    → RowIs IsWellFormed o
    → transition id src key ev action pending o ≡ some t
    → RowIs IsWellFormed t.row
transition-IsWellFormed id src key ev action pending o t l h e =
    elim (transition_cases id src key ev action pending o t e) [
      | inl p ↦ rw p (on_open-IsWellFormed id src key ev pending o l h)
      | inr p ↦ rw p (on_resolve-IsWellFormed ev o h)
    ]
