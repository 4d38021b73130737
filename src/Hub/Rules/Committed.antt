-- ===== src/Hub/Rules/Committed.antt =====
-- hub/rules.go: the database after a sample's rules and after a heartbeat check.
use sakura_assistant.Base.{
  ℕ, String, Option, none, Bool, true, false, not, ◌||◌, List, [], ◌∷◌, inl, inr, Bool-cases,
}
use sakura_assistant.Hub.Types.{SourceRow}
use sakura_assistant.Hub.Store.{HubEnv, Hub, Tx, Result, ok, err, return, load_fault, with_tx, kept}
use sakura_assistant.Hub.Ensures.{Post}
use sakura_assistant.Hub.Fault.Apply.{emit_hub_event}
use sakura_assistant.Hub.Fault.Invariant.{IsSound, Sound, insert_change-Sound}
use sakura_assistant.Hub.Ingest.Events.{load_source, emit_source_change}
use sakura_assistant.Hub.Ingest.Soundness.{emit_hub_event-Sound, load_source-Sound}
use sakura_assistant.Hub.Rules.Types.{Order, SamplePayload, Rule}
use sakura_assistant.Hub.Rules.Emit.{fault_open}
use sakura_assistant.Hub.Rules.Engine.{Timer, RuleTexts, eval_sample, eval_now}
use sakura_assistant.Hub.Rules.Heartbeat.{
  Check, is_silent, is_deleted, is_open_row, open_heartbeat, heartbeat_tx, ended, check_source,
  check_heartbeats,
}
use sakura_assistant.Hub.Rules.Soundness.{
  Keeps, Keeps-return, Keeps-then, if-Sound, eval_rules-Sound,
}

with_tx-Keeps :
    {A : Type 0} (aborted : Bool) (m : Tx A) (s : Hub)
    → Keeps m
    → IsSound s
    → IsSound (with_tx aborted m s).1
unfolding with_tx
with_tx-Keeps true m s km h = h
with_tx-Keeps {A = A} false m s km h = go (m s) (km.at s h)
  where
    go : (r : Result A × Hub) → Post Sound r → IsSound (kept s r).1
    go (ok a, s') q = q
    go (err e, s') q = record { rows = h.rows; log = h.log }

-- The transaction in which a source's rules judge a sample, committed or rolled back, leaves a sound
-- database sound, for any rules, samples and timers.
pub eval_sample-IsSound :
    {V : Type 0} (env : HubEnv) (o : Order V) (texts : RuleTexts V) (src : SourceRow)
    (rules : List (Rule V)) (prev : Option (SamplePayload V)) (sample : SamplePayload V)
    (arrival : ℕ) (timers : List Timer) (aborted : Bool) (s : Hub)
    → IsSound s
    → IsSound (with_tx aborted (eval_sample env o texts src rules prev sample arrival timers) s).1
unfolding eval_sample
eval_sample-IsSound env o texts src rules prev sample arrival timers aborted s h =
    with_tx-Keeps aborted (eval_sample env o texts src rules prev sample arrival timers) s
      (eval_rules-Sound env o texts src (eval_now env sample.ts arrival) rules prev sample timers) h

module _ (env : HubEnv) (dec : ℕ → String) (c : Check) where
  open_heartbeat-Sound : (fresh : SourceRow) → Keeps (open_heartbeat env dec c fresh)
  unfolding open_heartbeat emit_source_change
  open_heartbeat-Sound fresh =
      Keeps-then (emit_hub_event env fresh _ _ _ _ _ _ c.now) _
        (emit_hub_event-Sound env fresh _ _ _ _ _ _ c.now)
        (λ _. insert_change-Sound env fresh.id _ none)

  heartbeat_tx-Sound : (id : String) → Keeps (heartbeat_tx env dec c id)
  unfolding heartbeat_tx load_fault
  heartbeat_tx-Sound id = Keeps-then (load_source id) _ (load_source-Sound id) (λ fresh.
      if-Sound (not (is_silent env c fresh) || is_deleted fresh) (return tt) _ (Keeps-return tt)
        (record {
          at = λ s h.
              (if-Sound (is_open_row _) (return tt) (open_heartbeat env dec c fresh)
                  (Keeps-return tt) (open_heartbeat-Sound fresh)).at
                s h;
        }))

  check_source-IsSound :
      (aborted : Bool) (src : SourceRow) (s : Hub) (timers : List Timer)
      → IsSound s
      → IsSound (check_source env dec c aborted src s timers).0
  unfolding check_source
  check_source-IsSound aborted src s timers h =
      elim (Bool-cases (not (is_silent env c src) || fault_open src.id "heartbeat" s.faults)) [
        | inl skip ↦ rw skip h
        | inr due ↦ rw due (
            go (with_tx aborted (heartbeat_tx env dec c src.id) s) (
              with_tx-Keeps aborted (heartbeat_tx env dec c src.id) s (heartbeat_tx-Sound src.id)
                h))
      ]
    where
      go : (r : Result (Unit {0}) × Hub) → IsSound r.1 → IsSound (ended env dec c src.id timers r).0
      go (ok a, s') q = q
      go (err e, s') q = q

  -- A heartbeat check of any sources, whichever of its transactions fail, leaves a sound database sound.
  pub check_heartbeats-IsSound :
      (rows : List (Bool × SourceRow)) (s : Hub) (timers : List Timer)
      → IsSound s
      → IsSound (check_heartbeats env dec c rows s timers).0
  unfolding check_heartbeats
  check_heartbeats-IsSound [] s timers h = h
  check_heartbeats-IsSound ((aborted, src) ∷ rest) s timers h =
      check_heartbeats-IsSound rest (check_source env dec c aborted src s timers).0
        (check_source env dec c aborted src s timers).1
        (check_source-IsSound aborted src s timers h)
