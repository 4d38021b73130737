-- ===== src/Agent/Reporter/Loop.antt =====
-- reporter.go, drainLoop: when the sender sends. A turn is one pass through the loop up to `continue`; the
-- waits between turns are left out, since a turn before `next_try` does nothing.
use sakura_assistant.Base.{
  ℕ, zero, suc, ◌+◌, String, Option, none, some, Bool, true, false, List, [], ◌∷◌, ltb,
  if◌then◌else◌,
}
use sakura_assistant.Agent.Client.{Failure, send, local, ErrKind, MetricsAck, Posted, classify}
use sakura_assistant.Agent.Queue
use sakura_assistant.Agent.Queue.{metrics, events}
use sakura_assistant.Agent.Queue.Rows.{Row}
use sakura_assistant.Agent.Reporter.{
  Env, World, Outcome, done, failed, spinning, M, ◌>>=◌, ◌>>◌, return, logged, db, read_clock,
}
use sakura_assistant.Agent.Reporter.Drain.{
  post_metrics, post_events, apply_interval, remove, drain_once,
}

-- The variables of `drainLoop`; the zero time is 0.
pub record Latch : Type 0 where
  pub attempt : ℕ
  pub unauthorized : Bool
  pub next_try : ℕ

abbrev pub retry_delay : (ℕ → ℕ) → Failure → ℕ → ℕ
retry_delay backoff (local e) attempt = backoff attempt
retry_delay backoff (send e) attempt =
    if ltb 0 e.retry_after then e.retry_after else backoff attempt

abbrev pub either_pending_of : ℕ → ℕ → Bool
either_pending_of zero n = ltb 0 n
either_pending_of (suc m) n = true

module _ (env : Env) (probe_every : ℕ) (backoff : ℕ → ℕ) where
  -- `handleProbeErr`
  unfoldable pub handle_probe_err : Failure → Latch → M Latch
  handle_probe_err e l = read_clock env >>= (λ now. return (elim (classify e) [
    | ErrKind.unauthorized ↦ record l { next_try = now + probe_every }
    | ErrKind.retryable ↦ record {
      attempt = l.attempt + 1;
      unauthorized = false;
      next_try = now + backoff l.attempt;
    }
    | ErrKind.poison ↦ record {
      attempt = l.attempt + 1;
      unauthorized = false;
      next_try = now + backoff l.attempt;
    }
  ]))

  -- The error of a read is dropped: no rows are read.
  abbrev pub or_no_rows : Outcome (List Row) × World → Outcome (List Row) × World
  or_no_rows (done rows, w) = (done rows, w)
  or_no_rows (failed e, w) = (done [], w)
  or_no_rows (spinning, w) = (spinning, w)

  unfoldable pub try_peek : Queue.Kind → M (List Row)
  try_peek k w = or_no_rows (db env (λ s. (Queue.peek 1 s, s)) k w)

  abbrev pub accepted_again : Latch → Latch
  accepted_again l = record l { unauthorized = false; attempt = 0 }

  unfoldable pub after_metrics_probe : Latch → Row → Posted MetricsAck → M Latch
  after_metrics_probe l row (Posted.acked ack) =
      apply_interval env ack
      >> logged (remove env (row.id ∷ []) metrics)
      >> return (accepted_again l)
  after_metrics_probe l row (Posted.refused e) = handle_probe_err e l

  unfoldable pub after_events_probe : Latch → Row → Posted (Unit {0}) → M Latch
  after_events_probe l row (Posted.acked ack) =
      logged (remove env (row.id ∷ []) events) >> return (accepted_again l)
  after_events_probe l row (Posted.refused e) = handle_probe_err e l

  unfoldable pub probe_body : Latch → Row → Option String → M Latch
  probe_body l row none = handle_probe_err (local "marshal") l
  probe_body l row (some body) = post_events env body >>= after_events_probe l row

  unfoldable pub probe_events : Latch → List Row → M Latch
  probe_events l [] = return (record l { unauthorized = false })
  probe_events l (row ∷ rest) =
      read_clock env >>= (λ now. probe_body l row (env.build_events (row.payload ∷ []) now))

  unfoldable pub probe_metrics : Latch → List Row → M Latch
  probe_metrics l (row ∷ rest) = post_metrics env row.payload >>= after_metrics_probe l row
  probe_metrics l [] = try_peek events >>= probe_events l

  unfoldable pub probe_unauthorized : Latch → M Latch
  probe_unauthorized l = try_peek metrics >>= probe_metrics l

  -- `anyPending`: an error counts as something pending.
  abbrev pub either_pending : Outcome ℕ → Outcome ℕ → Bool
  either_pending (done m) (done n) = either_pending_of m n
  either_pending (done m) (failed e) = true
  either_pending (done m) spinning = true
  either_pending (failed e) o = true
  either_pending spinning o = true

  unfoldable pub any_pending : M Bool
  any_pending w =
      let (m, w1) = db env (λ s. (Queue.pending s, s)) metrics w in
      let (e, w2) = db env (λ s. (Queue.pending s, s)) events w1 in (done (either_pending m e), w2)

  unfoldable pub after_failure : Latch → Failure → M Latch
  after_failure l e = elim (classify e) [
    | ErrKind.unauthorized ↦
        read_clock env
        >>= (λ now. return (record l { unauthorized = true; next_try = now + probe_every }))
    | ErrKind.poison ↦ return (record l { attempt = 0 })
    | ErrKind.retryable ↦ read_clock env >>= (λ now.
        return
          (record l { attempt = l.attempt + 1; next_try = now + retry_delay backoff e l.attempt }))
  ]

  abbrev pub after_drain : Latch → Outcome (Unit {0}) × World → Outcome Latch × World
  after_drain l (done u, w) = (done (record l { attempt = 0; next_try = 0 }), w)
  after_drain l (failed e, w) = after_failure l e w
  after_drain l (spinning, w) = (spinning, w)

  unfoldable pub send_pending : ℕ → Latch → Bool → M Latch
  send_pending fuel l false w = (done l, w)
  send_pending fuel l true w =
      if l.unauthorized then probe_unauthorized l w else after_drain l (drain_once env fuel w)

  unfoldable pub turn : ℕ → Latch → M Latch
  turn fuel l =
      read_clock env
      >>= (λ now. if ltb now l.next_try then return l else any_pending >>= send_pending fuel l)

  -- The first passes of the loop.
  unfoldable pub turns : ℕ → ℕ → Latch → M Latch
  turns zero fuel l = return l
  turns (suc n) fuel l = turn fuel l >>= turns n fuel
