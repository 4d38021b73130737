-- ===== src/Hub/Rules/Heartbeat.antt =====
-- hub/rules.go: checkHeartbeats.
use sakura_assistant.Base.{
  ℕ, ◌+◌, ◌*◌, String, Option, none, some, Bool, true, false, not, ◌&&◌, ◌||◌, List, [], ◌∷◌, ◌==◌,
  ltb, if◌then◌else◌,
}
use Prim.Native.String.{◌++◌ as text_append}
use sakura_assistant.Hub.Types.{FaultRow, SourceRow}
use sakura_assistant.Hub.Store.{
  HubEnv, Hub, Tx, Result, ok, err, ◌>>=◌, ◌>>◌, return, load_fault, with_tx,
}
use sakura_assistant.Hub.Fault.Machine.{is_opened}
use sakura_assistant.Hub.Fault.Apply.{emit_hub_event}
use sakura_assistant.Hub.Ingest.Events.{load_source, emit_source_change}
use sakura_assistant.Hub.Rules.Threshold.{second}
use sakura_assistant.Hub.Rules.Emit.{fault_open}
use sakura_assistant.Hub.Rules.Engine.{Timer, pause_source}

-- The tick of the check, and the limit in seconds.
pub record Check : Type 0 where
  pub now : ℕ
  pub seconds : ℕ

abbrev pub seen_before : HubEnv → Check → Option String → Bool
seen_before env c none = false
seen_before env c (some at) = elim (env.parse_ts at) [
  | none ↦ false
  | some t ↦ ltb (t + c.seconds * second) c.now
]

-- An enabled device that was seen, but not within the limit.
unfoldable pub is_silent : HubEnv → Check → SourceRow → Bool
is_silent env c src = src.enabled && src.kind == "device" && seen_before env c src.last_seen_at

abbrev pub is_deleted : SourceRow → Bool
is_deleted src = elim src.deleted_at [ none ↦ false | some _ ↦ true ]

abbrev pub is_open_row : Option FaultRow → Bool
is_open_row none = false
is_open_row (some f) = is_opened f.state

-- `dec` prints a number.
module _ (env : HubEnv) (dec : ℕ → String) (c : Check) where
  unfoldable pub open_heartbeat : SourceRow → Tx (Unit {0})
  open_heartbeat fresh = do
    emit_hub_event env fresh "heartbeat_lost" "critical" (some "heartbeat") (some "open")
        (text_append fresh.name " 失联")
        (some (text_append "已连续 " (text_append (dec c.seconds) " 秒无心跳上报"))) c.now
    emit_source_change env fresh

  -- The transaction reads the source again, and checks all conditions again.
  unfoldable pub heartbeat_tx : String → Tx (Unit {0})
  heartbeat_tx id = load_source id >>= (λ fresh.
      if not (is_silent env c fresh) || is_deleted fresh
      then return tt
      else load_fault fresh.id "heartbeat"
        >>= (λ f. if is_open_row f then return tt else open_heartbeat fresh))

  abbrev pub ended : String → List Timer → Result (Unit {0}) × Hub → Hub × List Timer
  ended id timers (ok a, s) = (s, pause_source id timers)
  ended id timers (err e, s) = (s, timers)

  -- One turn of the loop. `aborted` is the transaction's failure.
  unfoldable pub check_source : Bool → SourceRow → Hub → List Timer → Hub × List Timer
  check_source aborted src s timers =
      if not (is_silent env c src) || fault_open src.id "heartbeat" s.faults
      then (s, timers)
      else ended src.id timers (with_tx aborted (heartbeat_tx src.id) s)

  -- The loop over the sources that were listed at its start, each with whether its transaction fails.
  unfoldable pub check_heartbeats : List (Bool × SourceRow) → Hub → List Timer → Hub × List Timer
  check_heartbeats [] s timers = (s, timers)
  check_heartbeats ((aborted, src) ∷ rest) s timers =
      let next = check_source aborted src s timers in check_heartbeats rest next.0 next.1
