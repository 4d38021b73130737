-- ===== src/Hub/Api/Again.antt =====
-- hub/api.go, updateFaultFlags: the same mark again changes nothing.
use sakura_assistant.Base.{
  ℕ, ◌+◌, String, ◌≡◌, refl, sym, ap, ◌∙◌, Option, none, some, Bool, true, false, inl, inr, List,
  [], ◌∷◌, ◌==◌, Bool-cases, Option-cases, eq_iff, arith,
}
use mathlib.Core.Path.{subst}
use sakura_assistant.Hub.Types.{FaultRow}
use sakura_assistant.Hub.Store.{
  HubEnv, Hub, no_rows, bad_request, unknown_action, constraint, statement, Result, ok, err, ◌>>=◌,
  kept, with_tx, insert_change_obj, next_change_seq,
}
use sakura_assistant.Hub.Ensures.{Post, Ensures, Ensures-bind}
use sakura_assistant.Hub.Api.Flags.{
  fault_by_id, update_fault, Op, read, mute, unmute, flagged, FlagReply, marked, not_found,
  internal, flag_reply, load_fault_row, with_flags, broadcast_fault, store_flags, mark_fault,
  update_fault_flags,
}

fault_by_id-id :
    (id : String) (fs : List FaultRow) (f : FaultRow) → fault_by_id id fs ≡ some f → f.id ≡ id
unfolding fault_by_id
fault_by_id-id id [] f e = ground (arith, e)
fault_by_id-id id (x ∷ rest) f e = elim (Bool-cases (x.id == id)) [
  | inl same ↦ ground (arith, e, same, eq_iff x.id id)
  | inr other ↦ fault_by_id-id id rest f (ground (arith, e, other))
]

fault_by_id-update_fault :
    (id : String) (g : FaultRow → FaultRow) (fs : List FaultRow) (f : FaultRow)
    → ((r : FaultRow) → (g r).id ≡ r.id)
    → fault_by_id id fs ≡ some f
    → fault_by_id id (update_fault id g fs) ≡ some (g f)
unfolding fault_by_id update_fault
fault_by_id-update_fault id g [] f keeps e = ground (arith, e)
fault_by_id-update_fault id g (x ∷ rest) f keeps e = elim (Bool-cases (x.id == id)) [
  | inl same ↦
      let still : ((g x).id == id) ≡ true = ap (λ i. i == id) (keeps x) ∙ same in
      let at_x : x ≡ f = ground (arith, e, same) in rw (same, still) (ap (λ r. some (g r)) at_x)
  | inr other ↦
      rw (other, other) (fault_by_id-update_fault id g rest f keeps (ground (arith, e, other)))
]

-- The row has the mark of the operation.
abbrev IsMarked : Op → FaultRow → Type 0
IsMarked op f = (now : String) → flagged op now f ≡ none

unmoved-IsMarked : (op : Op) (now : String) (f : FaultRow) → flagged op now f ≡ none → IsMarked op f
unfolding flagged
unmoved-IsMarked read now f e now' = elim (Option-cases f.read_at) [
  | inl unread ↦ ground (arith, e, unread)
  | inr (t, at) ↦ rw at refl
]
unmoved-IsMarked mute now f e now' = elim (Option-cases f.muted_at) [
  | inl loud ↦ ground (arith, e, loud)
  | inr (t, at) ↦ rw at refl
]
unmoved-IsMarked unmute now f e now' = elim (Option-cases f.muted_at) [
  | inl loud ↦ rw loud refl
  | inr (t, at) ↦ ground (arith, e, at)
]

abbrev read_of : Option FaultRow → Option String
read_of none = none
read_of (some f) = f.read_at

abbrev muted_of : Option FaultRow → Option String
muted_of none = none
muted_of (some f) = f.muted_at

moved-IsMarked :
    (op : Op) (now : String) (f g r : FaultRow)
    → flagged op now f ≡ some g
    → r.read_at ≡ g.read_at
    → r.muted_at ≡ g.muted_at
    → IsMarked op r
unfolding flagged
moved-IsMarked read now f g r e same_read same_muted now' = elim (Option-cases f.read_at) [
  | inr (t, at) ↦ ground (arith, e, at)
  | inl unread ↦
      let shown : flagged read now f ≡ some (record f { read_at = some now }) = rw unread refl in
      let at_r : r.read_at ≡ some now = same_read ∙ sym (ap read_of (sym shown ∙ e)) in rw at_r refl
]
moved-IsMarked mute now f g r e same_read same_muted now' = elim (Option-cases f.muted_at) [
  | inr (t, at) ↦ ground (arith, e, at)
  | inl loud ↦
      let shown : flagged mute now f ≡ some (record f { muted_at = some now; muted_until = none }) =
        rw loud refl in
      let at_r : r.muted_at ≡ some now = same_muted ∙ sym (ap muted_of (sym shown ∙ e)) in
      rw at_r refl
]
moved-IsMarked unmute now f g r e same_read same_muted now' = elim (Option-cases f.muted_at) [
  | inl loud ↦ ground (arith, e, loud)
  | inr (t, at) ↦
      let shown : flagged unmute now f ≡ some (record f { muted_at = none; muted_until = none }) =
        rw at refl in
      let at_r : r.muted_at ≡ none = same_muted ∙ sym (ap muted_of (sym shown ∙ e)) in rw at_r refl
]

abbrev Marked : Op → String → Hub → Type 0
Marked op id s = (f : FaultRow) × (fault_by_id id s.faults ≡ some f) × IsMarked op f

abbrev Loaded : String → FaultRow → Hub → Type 0
Loaded id f s = fault_by_id id s.faults ≡ some f

load_fault_row-Loaded : (id : String) → Ensures (λ _. Unit {0}) (load_fault_row id) (Loaded id)
unfolding load_fault_row
load_fault_row-Loaded id = record {
  at = λ s h. elim (Option-cases (fault_by_id id s.faults)) [
    | inl nothing ↦ rw (Post, nothing) tt
    | inr (f, at_f) ↦ rw (Post, at_f) at_f
  ];
}

module _ (env : HubEnv) where
  store_flags-Marked :
      (op : Op) (id now : String) (f : FaultRow) (o : Option FaultRow)
      → flagged op now f ≡ o
      → Ensures (Loaded id f) (store_flags env f o) (λ _. Marked op id)
  unfolding store_flags broadcast_fault insert_change_obj next_change_seq
  store_flags-Marked op id now f none e = record {
    at = λ s at_f. (f, at_f, unmoved-IsMarked op now f e);
  }
  store_flags-Marked op id now f (some g) e = record {
    at = λ s at_f.
        let named = fault_by_id-id id s.faults f at_f in
        let seq : ℕ = elim s.change_seq [ none ↦ 1 | some n ↦ n + 1 ] in
        let done : FaultRow = record (with_flags g f) { change_seq = seq } in
        let there : fault_by_id id (
              update_fault id (λ r. record r { change_seq = seq })
                (update_fault id (with_flags g) s.faults))
            ≡ some done =
          fault_by_id-update_fault id (λ r. record r { change_seq = seq })
            (update_fault id (with_flags g) s.faults) (with_flags g f) (λ r. refl)
            (fault_by_id-update_fault id (with_flags g) s.faults f (λ r. refl) at_f) in
        (
          done,
          subst
              (λ i.
                fault_by_id id (
                  update_fault i (λ r. record r { change_seq = seq })
                    (update_fault i (with_flags g) s.faults))
                ≡ some done)
              (sym named) there,
          moved-IsMarked op now f g done e refl refl,
        );
  }

  mark_fault-Marked :
      (op : Op) (id : String) (f : FaultRow)
      → Ensures (Loaded id f) (mark_fault env op f) (λ _. Marked op id)
  unfolding mark_fault
  mark_fault-Marked op id f = record {
    at = λ s at_f.
        let now = env.fmt_ts (env.now s.tick) in
        (store_flags-Marked op id now f (flagged op now f) refl).at (record s { tick = s.tick + 1 })
          at_f;
  }

  abbrev AfterMark : Op → String → FlagReply FaultRow × Hub → Type 0
  AfterMark op id (marked f, s) = Marked op id s
  AfterMark op id (not_found, s) = Unit
  AfterMark op id (internal, s) = Unit

  reply-AfterMark :
      (op : Op) (id : String) (s0 : Hub) (r : Result FaultRow × Hub)
      → Post (λ _. Marked op id) r
      → AfterMark op id (flag_reply (kept s0 r))
  reply-AfterMark op id s0 (ok f, s) h = h
  reply-AfterMark op id s0 (err (bad_request m), s) h = tt
  reply-AfterMark op id s0 (err no_rows, s) h = tt
  reply-AfterMark op id s0 (err (unknown_action m), s) h = tt
  reply-AfterMark op id s0 (err (constraint m), s) h = tt
  reply-AfterMark op id s0 (err statement, s) h = tt

  update_fault_flags-AfterMark :
      (aborted : Bool) (op : Op) (id : String) (s : Hub)
      → AfterMark op id (update_fault_flags env aborted op id s)
  unfolding update_fault_flags with_tx
  update_fault_flags-AfterMark true op id s = tt
  update_fault_flags-AfterMark false op id s =
      reply-AfterMark op id s ((load_fault_row id >>= mark_fault env op) s) (
        (Ensures-bind (Loaded id) (load_fault_row id) (mark_fault env op) (load_fault_row-Loaded id)
            (mark_fault-Marked op id)).at
          s tt)

  -- The tables are the same, and nothing more is to be published.
  abbrev pub SameTables : Hub → Hub → Type 0
  SameTables s t = (t.faults ≡ s.faults) × (t.changes ≡ s.changes) × (t.outbox ≡ s.outbox)

  Marked-SameTables :
      (aborted : Bool) (op : Op) (id : String) (s : Hub)
      → Marked op id s
      → SameTables s (update_fault_flags env aborted op id s).1
  unfolding update_fault_flags with_tx load_fault_row mark_fault store_flags
  Marked-SameTables true op id s h = (refl, refl, refl)
  Marked-SameTables false op id s (f, at_f, is_marked) =
      let still = is_marked (env.fmt_ts (env.now s.tick)) in rw (at_f, still) (refl, refl, refl)

  -- After a fault was read, muted or unmuted, the same request again, whether or not its transaction fails,
  -- leaves the faults and the log of changes as they are, and nothing more is published.
  pub update_fault_flags-Idle :
      (aborted aborted' : Bool) (op : Op) (id : String) (s s' : Hub) (f : FaultRow)
      → update_fault_flags env aborted op id s ≡ (marked f, s')
      → SameTables s' (update_fault_flags env aborted' op id s').1
  update_fault_flags-Idle aborted aborted' op id s s' f marks =
      Marked-SameTables aborted' op id s'
        (subst (AfterMark op id) marks (update_fault_flags-AfterMark aborted op id s))
