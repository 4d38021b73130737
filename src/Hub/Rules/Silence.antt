-- ===== src/Hub/Rules/Silence.antt =====
-- hub/rules.go, checkHeartbeats: what the second look at the source prevents.
use sakura_assistant.Base.{
  ℕ, ◌+◌, ◌*◌, ◌≤◌, String, ◌≡◌, ◌≢◌, refl, Option, none, some, Bool, true, false, not, ◌||◌, ◌⊎◌,
  inl, inr, List, Bool-cases, ltb, arith, eq_iff,
}
use sakura_assistant.Hub.Types.{FaultRow, opened, SourceRow}
use sakura_assistant.Hub.Store.{HubEnv, Hub, ok, find_source, find_fault, load_fault, with_tx}
use sakura_assistant.Hub.Ingest.Delivered.{load_source-found}
use sakura_assistant.Hub.Rules.Emit.{fault_open}
use sakura_assistant.Hub.Rules.Threshold.{second}
use sakura_assistant.Hub.Rules.Engine.{Timer, pause_source}
use sakura_assistant.Hub.Rules.Heartbeat.{
  Check, seen_before, is_silent, is_deleted, is_open_row, heartbeat_tx, check_source,
}

module _ (env : HubEnv) (dec : ℕ → String) (c : Check) where
  -- What makes the transaction end with nothing done.
  abbrev Stops : SourceRow → Hub → Type 0
  Stops fresh s =
      (is_silent env c fresh ≡ false)
      ⊎ ((is_deleted fresh ≡ true)
          ⊎ (is_open_row (find_fault fresh.id "heartbeat" s.faults) ≡ true))

  Stops-heartbeat_tx :
      (id : String) (fresh : SourceRow) (s : Hub)
      → find_source id s.sources ≡ some fresh
      → Stops fresh s
      → heartbeat_tx env dec c id s ≡ (ok tt, s)
  unfolding heartbeat_tx load_fault
  Stops-heartbeat_tx id fresh s found (inl seen) =
      rw (load_source-found id fresh s found, seen) refl
  Stops-heartbeat_tx id fresh s found (inr (inl gone)) = elim (Bool-cases (is_silent env c fresh)) [
    | inl silent ↦ rw (load_source-found id fresh s found, silent, gone) refl
    | inr seen ↦ rw (load_source-found id fresh s found, seen) refl
  ]
  Stops-heartbeat_tx id fresh s found (inr (inr o)) =
      elim (Bool-cases (not (is_silent env c fresh) || is_deleted fresh)) [
        | inl out ↦ rw (load_source-found id fresh s found, out) refl
        | inr due ↦ rw (load_source-found id fresh s found, due, o) refl
      ]

  -- The source was never seen, at a time that cannot be read, or no longer ago than the limit.
  abbrev pub SeenInTime : Option String → Type 0
  SeenInTime none = Unit
  SeenInTime (some at) = elim (env.parse_ts at) [
    | none ↦ Unit
    | some t ↦ c.now ≤ t + c.seconds * second
  ]

  abbrev pub IsOpenFault : Option FaultRow → Type 0
  IsOpenFault none = ⊥
  IsOpenFault (some f) = f.state ≡ opened

  -- The reasons not to open a heartbeat fault, by the columns of the rows.
  pub data IsCalm (fresh : SourceRow) (s : Hub) : Type 0 where
    disabled : fresh.enabled ≡ false → IsCalm fresh s
    no_device : fresh.kind ≢ "device" → IsCalm fresh s
    seen_in_time : SeenInTime fresh.last_seen_at → IsCalm fresh s
    deleted : (at : String) → fresh.deleted_at ≡ some at → IsCalm fresh s
    fault_is_open : IsOpenFault (find_fault fresh.id "heartbeat" s.faults) → IsCalm fresh s

  SeenInTime-seen_before : (at : Option String) → SeenInTime at → seen_before env c at ≡ false
  SeenInTime-seen_before none h = refl
  SeenInTime-seen_before (some at) h = go (env.parse_ts at) h
    where
      go :
          (o : Option ℕ)
          → (elim o as (λ _. Type 0) [ none ↦ Unit | some t ↦ c.now ≤ t + c.seconds * second ])
          → (elim o [ none ↦ false | some t ↦ ltb (t + c.seconds * second) c.now ]) ≡ false
      go none h = refl
      go (some t) h = ground (arith, h)

  IsOpenFault-is_open_row : (o : Option FaultRow) → IsOpenFault o → is_open_row o ≡ true
  IsOpenFault-is_open_row none h = absurd h
  IsOpenFault-is_open_row (some f) h = rw h refl

  IsCalm-Stops : (fresh : SourceRow) (s : Hub) → IsCalm fresh s → Stops fresh s
  unfolding is_silent
  IsCalm-Stops fresh s (disabled off) = inl (rw off refl)
  IsCalm-Stops fresh s (no_device other) = inl (ground (arith, other, eq_iff fresh.kind "device"))
  IsCalm-Stops fresh s (seen_in_time seen) =
      inl (ground (arith, SeenInTime-seen_before fresh.last_seen_at seen))
  IsCalm-Stops fresh s (deleted at gone) = inr (inl (rw gone refl))
  IsCalm-Stops fresh s (fault_is_open o) =
      inr (inr (IsOpenFault-is_open_row (find_fault fresh.id "heartbeat" s.faults) o))

  -- A source that the database shows, when the transaction reads it again, as disabled, no device,
  -- deleted, or seen no longer ago than the limit (or never, or at a time that cannot be read), or whose
  -- heartbeat fault is open by then, gets no fault, whatever row the check had listed: the database stays
  -- as it is. The timers of its rules are as they were, or wiped.
  pub check_source-calm :
      (aborted : Bool) (src fresh : SourceRow) (s : Hub) (timers : List Timer)
      → find_source src.id s.sources ≡ some fresh
      → IsCalm fresh s
      → (check_source env dec c aborted src s timers ≡ (s, timers))
        ⊎ (check_source env dec c aborted src s timers ≡ (s, pause_source src.id timers))
  unfolding check_source with_tx
  check_source-calm aborted src fresh s timers found calm =
      elim (Bool-cases (not (is_silent env c src) || fault_open src.id "heartbeat" s.faults)) [
        | inl skip ↦ rw skip (inl refl)
        | inr due ↦ elim (Bool-cases aborted) [
          | inl a ↦ rw (due, a) (inl refl)
          | inr b ↦
              rw (due, b, Stops-heartbeat_tx src.id fresh s found (IsCalm-Stops fresh s calm))
                (inr refl)
        ]
      ]
