-- ===== src/Hub/Retention/Sound.antt =====
-- hub/retention.go, runRetention: the tables stay sound, and the window of changes is kept.
use sakura_assistant.Base.{
  ℕ, ◌+◌, ◌≤◌, String, ◌≡◌, refl, Option, none, some, Bool, true, false, ◌⊎◌, inl, inr, List, [],
  ◌∷◌, ◌==◌, All, Bool-cases, Option-cases, arith,
}
use sakura_assistant.Hub.Types.{FaultRow, ChangeEntry}
use sakura_assistant.Hub.Store.{
  HubEnv, Hub, Result, ok, err, with_tx, kept, insert_change_obj, next_change_seq,
}
use sakura_assistant.Hub.Ensures.{Post, Ensures, Ensures-bind}
use sakura_assistant.Hub.Metrics.Tables.{MetricsDb}
use sakura_assistant.Hub.Fault.Apply.{last_change}
use sakura_assistant.Hub.Fault.Lifecycle.{IsWellFormed}
use sakura_assistant.Hub.Fault.Invariant.{Rising, Rising-append, IsSound}
use sakura_assistant.Hub.Stream.Numbers.{Rising-lower, Rising-le}
use sakura_assistant.Hub.Retention.Run.{
  RetentionConfig, cut, is_expired, is_stale, is_of, is_past, trimmed, max_seq, delete_where,
  ids_where, select, insert_tombstone, drop_message, drop_messages, forget_fault, drop_fault,
  drop_faults, drop_stale, trim_changes, clear_old, retention_tx, Rollup, settled, run_retention,
}
use sakura_assistant.Hub.Retention.Present.{
  In, In-append, All-weaken, All-In, delete_where-In, delete_where-All,
}

-- The tables are sound, and the log has the changes that it had.
pub record Lasts (changes : List ChangeEntry) (s : Hub) : Type 0 where
  pub sound : IsSound s
  pub there : All (λ e. In e s.changes) changes

delete_where-Rising :
    (p : ChangeEntry → Bool) (lo : ℕ) (cs : List ChangeEntry) (hi : ℕ)
    → Rising lo cs hi
    → Rising lo (delete_where p cs) hi
unfolding delete_where
delete_where-Rising p lo [] hi h = h
delete_where-Rising p lo (e ∷ rest) hi h = elim (Bool-cases (p e)) [
  | inl goes ↦ rw goes (
      Rising-lower lo e.seq (delete_where p rest) hi (omega (arith, h.0))
        (delete_where-Rising p e.seq rest hi h.1))
  | inr stays ↦ rw stays (h.0, delete_where-Rising p e.seq rest hi h.1)
]

-- The greatest number is at most the last one handed out.
max_seq-le :
    (lo : ℕ) (cs : List ChangeEntry) (hi newest : ℕ)
    → Rising lo cs hi
    → max_seq cs ≡ some newest
    → newest ≤ hi
unfolding max_seq
max_seq-le lo [] hi newest h e = ground (arith, e)
max_seq-le lo (x ∷ rest) hi newest h e = elim (Option-cases (max_seq rest)) [
  | inl empty ↦ ground (arith, e, empty, Rising-le x.seq rest hi h.1)
  | inr (n, greatest) ↦
      ground
        (arith, e, greatest, Rising-le x.seq rest hi h.1, max_seq-le x.seq rest hi n h.1 greatest)
]

module _ (env : HubEnv) (before : String → String → Bool) (c : RetentionConfig)
    (changes : List ChangeEntry) where
  abbrev Stays : {A : Type 0} → A → Hub → Type 0
  Stays _ s = Lasts changes s

  insert_tombstone-Lasts :
      (type id : String) → Ensures (Lasts changes) (insert_tombstone env type id) Stays
  unfolding insert_tombstone insert_change_obj next_change_seq
  insert_tombstone-Lasts type id = record {
    at = λ s h. record {
      sound = record {
        rows = h.sound.rows;
        log = Rising-append 0 s.changes (last_change s) _ h.sound.log (ground arith);
      };
      there = All-weaken _ _ changes (λ e there. In-append e s.changes _ there) h.there;
    };
  }

  drop_message-Lasts : (id : String) → Ensures (Lasts changes) (drop_message env before c id) Stays
  unfolding drop_message
  drop_message-Lasts id =
      Ensures-bind Stays (insert_tombstone env "message" id) _ (insert_tombstone-Lasts "message" id)
        (λ _. record {
          at = λ s h. record {
            sound = record { rows = h.sound.rows; log = h.sound.log };
            there = h.there;
          };
        })

  drop_messages-Lasts :
      (ids : List String) → Ensures (Lasts changes) (drop_messages env before c ids) Stays
  unfolding drop_messages
  drop_messages-Lasts [] = record { at = λ s h. h }
  drop_messages-Lasts (id ∷ rest) =
      Ensures-bind Stays (drop_message env before c id) _ (drop_message-Lasts id)
        (λ _. drop_messages-Lasts rest)

  forget_fault-Lasts : (f : FaultRow) → Ensures (Lasts changes) (forget_fault env before c f) Stays
  unfolding forget_fault
  forget_fault-Lasts f =
      Ensures-bind Stays (insert_tombstone env "fault" f.id) _ (insert_tombstone-Lasts "fault" f.id)
        (λ _. record {
          at = λ s h. record {
            sound = record {
              rows = delete_where-All (λ g. g.id == f.id) IsWellFormed s.faults h.sound.rows;
              log = h.sound.log;
            };
            there = h.there;
          };
        })

  drop_fault-Lasts : (f : FaultRow) → Ensures (Lasts changes) (drop_fault env before c f) Stays
  unfolding drop_fault
  drop_fault-Lasts f = record {
    at = λ s h.
        (Ensures-bind Stays
            (drop_messages env before c (ids_where (is_of f.id) (λ m. m.id) s.messages)) _
            (drop_messages-Lasts (ids_where (is_of f.id) (λ m. m.id) s.messages))
            (λ _. forget_fault-Lasts f)).at
          s h;
  }

  drop_faults-Lasts :
      (fs : List FaultRow) → Ensures (Lasts changes) (drop_faults env before c fs) Stays
  unfolding drop_faults
  drop_faults-Lasts [] = record { at = λ s h. h }
  drop_faults-Lasts (f ∷ rest) =
      Ensures-bind Stays (drop_fault env before c f) _ (drop_fault-Lasts f)
        (λ _. drop_faults-Lasts rest)

  drop_stale-Lasts :
      (limit : String) → Ensures (Lasts changes) (drop_stale env before c limit) Stays
  unfolding drop_stale
  drop_stale-Lasts limit = record {
    at = λ s h.
        (drop_messages-Lasts (ids_where (is_stale env before c limit) (λ m. m.id) s.messages)).at s
          h;
  }

  -- The tables are sound, and each change that was in the log is there, or it is old and has as many
  -- numbers above it as are kept.
  pub record Windowed (limit : String) (s : Hub) : Type 0 where
    pub sound : IsSound s
    pub window :
        All
          (λ e.
            In e s.changes
            ⊎ ((before e.created_at limit ≡ true) × (e.seq + c.changes_min_seq ≤ last_change s)))
          changes

  kept_or_past :
      (limit : String) (newest last : ℕ) (cs : List ChangeEntry) (e : ChangeEntry)
      → newest ≤ last
      → In e cs
      → In e (delete_where (is_past env before c limit newest) cs)
        ⊎ ((before e.created_at limit ≡ true) × (e.seq + c.changes_min_seq ≤ last))
  kept_or_past limit newest last cs e le there =
      elim (Bool-cases (is_past env before c limit newest e)) [
        | inr stays ↦ inl (delete_where-In (is_past env before c limit newest) e cs stays there)
        | inl past ↦ elim (Bool-cases (before e.created_at limit)) [
          | inl old ↦ inr (old, ground (arith, past, old, le))
          | inr young ↦ ground (arith, past, young)
        ]
      ]

  trimmed-Windowed :
      (limit : String) (s : Hub) (o : Option ℕ)
      → max_seq s.changes ≡ o
      → Lasts changes s
      → Windowed limit (record s { changes = trimmed env before c limit o s.changes })
  trimmed-Windowed limit s none greatest h = record {
    sound = record { rows = h.sound.rows; log = h.sound.log };
    window = All-weaken _ _ changes (λ e there. inl there) h.there;
  }
  trimmed-Windowed limit s (some newest) greatest h = record {
    sound = record {
      rows = h.sound.rows;
      log =
          delete_where-Rising (is_past env before c limit newest) 0 s.changes (last_change s)
            h.sound.log;
    };
    window =
        All-weaken _ _ changes
          (λ e there.
            kept_or_past limit newest (last_change s) s.changes e
              (max_seq-le 0 s.changes (last_change s) newest h.sound.log greatest) there)
          h.there;
  }

  trim_changes-Windowed :
      (limit : String)
      → Ensures (Lasts changes) (trim_changes env before c limit) (λ _. Windowed limit)
  unfolding trim_changes
  trim_changes-Windowed limit = record {
    at = λ s h. trimmed-Windowed limit s (max_seq s.changes) refl h;
  }

module _ (env : HubEnv) (before : String → String → Bool) (c : RetentionConfig) where
  start-Windowed : (limit : String) (s : Hub) → IsSound s → Windowed env before c s.changes limit s
  start-Windowed limit s h = record {
    sound = h;
    window = All-In _ s.changes (λ e there. inl there);
  }

  retention_tx-Windowed :
      (now : ℕ) (s : Hub)
      → IsSound s
      → Post
          (λ _. Windowed env before c s.changes (cut env before c now c.changes_days))
          (retention_tx env before c now s)
  unfolding retention_tx clear_old
  retention_tx-Windowed now s h =
      let limit = cut env before c now c.messages_days in
      (Ensures-bind (Stays env before c s.changes) _ _
          (Ensures-bind (Stays env before c s.changes)
            (drop_faults env before c (select (is_expired env before c limit) s.faults)) _
            (drop_faults-Lasts env before c s.changes
              (select (is_expired env before c limit) s.faults))
            (λ _. drop_stale-Lasts env before c s.changes limit))
          (λ _.
            trim_changes-Windowed env before c s.changes (cut env before c now c.changes_days))).at
        _
        (record {
          sound = record { rows = h.rows; log = h.log };
          there = All-In _ s.changes (λ e there. there);
        })

  settled-Windowed :
      {V : Type 0} (limit : String) (now : ℕ) (db : MetricsDb V) (rows : List (Rollup V)) (s : Hub)
      (r : Result (Unit {0}) × Hub)
      → IsSound s
      → Post (λ _. Windowed env before c s.changes limit) r
      → Windowed env before c s.changes limit (settled env before c now db rows (kept s r)).1
  settled-Windowed limit now db rows s (ok u, s') h after = after
  settled-Windowed limit now db rows s (err e, s') h after =
      let start = start-Windowed limit s h in
      record { sound = record { rows = h.rows; log = h.log }; window = start.window }

  -- A retention run, committed or rolled back, leaves a sound database sound, and each change stays in the
  -- log but those that are both older than the window and that many numbers below the newest.
  pub run_retention-Windowed :
      {V : Type 0} (aborted : Bool) (now : ℕ) (db : MetricsDb V) (rows : List (Rollup V)) (s : Hub)
      → IsSound s
      → Windowed env before c s.changes
          (cut env before c now c.changes_days)
          (run_retention env before c aborted now db rows s).1
  unfolding run_retention with_tx
  run_retention-Windowed true now db rows s h =
      start-Windowed (cut env before c now c.changes_days) s h
  run_retention-Windowed false now db rows s h =
      settled-Windowed (cut env before c now c.changes_days) now db rows s
        (retention_tx env before c now s) h (retention_tx-Windowed now s h)
