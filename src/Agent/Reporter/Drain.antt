-- ===== src/Agent/Reporter/Drain.antt =====
-- reporter.go, drainOnce: both queues sent until they are empty or a call fails.
pub mod Order
pub mod Livelock
use sakura_assistant.Base.{
  ℕ, zero, suc, ◌+◌, ◌-◌, String, Option, none, some, Bool, List, [], ◌∷◌, map, length, eqb, ltb,
  if◌then◌else◌,
}
use sakura_assistant.Agent.Client.{
  Failure, ErrKind, MetricsAck, Posted, retryable, unauthorized, poison, post, decode, classify,
}
use sakura_assistant.Agent.Pace.{interval_of_seconds}
use sakura_assistant.Agent.Queue
use sakura_assistant.Agent.Queue.{metrics, events, Stream}
use sakura_assistant.Agent.Queue.Rows.{Row, ids}
use sakura_assistant.Agent.Reporter.{
  Env, World, Outcome, done, failed, spinning, M, ◌>>=◌, ◌>>◌, return, fail, logged, db, read_clock,
  lift, encoded, max_replay, max_event_send, metrics_dropped, events_dropped,
  emit_system_event_no_trim, flush_overflow_events,
}

module _ (env : Env) where
  unfoldable pub post_metrics : String → M (Posted MetricsAck)
  unfolding post decode
  post_metrics payload w =
      let answer = post env.err_detail (env.metrics_answer w.tick payload) in
      (done (decode "bad metrics ack" env.read_metrics_ack answer), record w { tick = w.tick + 1 })

  unfoldable pub post_events : String → M (Posted (Unit {0}))
  unfolding post decode
  post_events payload w =
      let answer = post env.err_detail (env.events_answer w.tick payload) in
      (done (decode "bad events ack" env.read_events_ack answer), record w { tick = w.tick + 1 })

  -- `setIntervalSeconds`, called when the hub names an interval.
  unfoldable pub apply_interval : MetricsAck → M (Unit {0})
  apply_interval ack w = (
    done tt,
    if ltb 0 ack.report_interval_seconds
        then record w { interval = interval_of_seconds ack.report_interval_seconds }
        else w,
  )

  abbrev pub remove : List ℕ → Queue.Kind → M (Unit {0})
  remove gone = db env (λ s. (tt, Queue.delete gone s))

  unfoldable pub drop_poison_metrics : Row → Failure → M (Unit {0})
  drop_poison_metrics row e = do
    logged (remove (row.id ∷ []) metrics)
    emit_system_event_no_trim env (metrics_dropped row.seq e)

  unfoldable pub drop_poison_events : List Row → Failure → M (Unit {0})
  drop_poison_events rows e = do
    logged (remove (ids rows) events)
    emit_system_event_no_trim env (events_dropped (length rows) e)

  -- What follows a metrics POST: `none` is `continue`, `some e` is `return e`.
  unfoldable pub after_metrics : Row → Posted MetricsAck → M (Option Failure)
  after_metrics row (Posted.refused e) = elim (classify e) [
    | ErrKind.poison ↦ (do drop_poison_metrics row e; return none)
    | _ ↦ return (some e)
  ]
  after_metrics row (Posted.acked ack) = do
    remove (row.id ∷ []) metrics
    apply_interval ack
    return none

  unfoldable pub send_oldest : List Row → M (Option (Option Failure))
  send_oldest [] = return none
  send_oldest (row ∷ _) = do
    answer ← post_metrics row.payload
    next ← after_metrics row answer
    return (some next)

  unfoldable pub trim_backlog : ℕ → M (Unit {0})
  trim_backlog n = do
    dropped ← db env (Queue.drop_oldest (n - max_replay)) metrics
    if ltb 0 dropped then flush_overflow_events env else return tt

  unfoldable pub choose_round : ℕ → M (Option (Option Failure))
  unfolding send_oldest trim_backlog
  choose_round n =
      if eqb n 0
      then return none
      else if ltb max_replay n
      then (do trim_backlog n; return (some none))
      else (do rows ← db env (λ s. (Queue.peek 1 s, s)) metrics; send_oldest rows)

  -- One round of the metrics loop: `none` is `break`, `some none` is `continue`.
  unfoldable pub metrics_round : M (Option (Option Failure))
  unfolding choose_round
  metrics_round = do n ← db env (λ s. (Queue.pending s, s)) metrics; choose_round n

  unfoldable pub drain_metrics : ℕ → M (Unit {0})
  drain_metrics zero = λ w. (spinning, w)
  drain_metrics (suc fuel) = metrics_round >>= λ r. elim r [
    | none ↦ return tt
    | some none ↦ drain_metrics fuel
    | some (some e) ↦ fail e
  ]

  unfoldable pub after_events : List Row → Posted (Unit {0}) → M (Option Failure)
  after_events rows (Posted.refused e) = elim (classify e) [
    | ErrKind.poison ↦ (do drop_poison_events rows e; return none)
    | _ ↦ return (some e)
  ]
  after_events rows (Posted.acked ack) = do remove (ids rows) events; return none

  unfoldable pub send_batch : List Row → M (Option (Option Failure))
  send_batch [] = return none
  send_batch (row ∷ rest) = do
    now ← read_clock env
    body ← encoded env (env.build_events (map (λ r. r.payload) (row ∷ rest)) now)
    answer ← post_events body
    next ← after_events (row ∷ rest) answer
    return (some next)

  unfoldable pub events_round : M (Option (Option Failure))
  unfolding after_events send_batch
  events_round = do rows ← db env (λ s. (Queue.peek max_event_send s, s)) events; send_batch rows

  unfoldable pub drain_events : ℕ → M (Unit {0})
  drain_events zero = λ w. (spinning, w)
  drain_events (suc fuel) = events_round >>= λ r. elim r [
    | none ↦ return tt
    | some none ↦ drain_events fuel
    | some (some e) ↦ fail e
  ]

  unfoldable pub drain_once : ℕ → M (Unit {0})
  drain_once fuel = do flush_overflow_events env; drain_metrics fuel; drain_events fuel
