-- ===== src/Agent/Reporter/Drain/Order.antt =====
-- reporter.go, drainOnce: the metrics loop against a hub that answers, on a database that is up.
use mathlib.Core.Path.{subst}
use sakura_assistant.Base.{
  ℕ, zero, suc, ◌+◌, ◌<◌, ◌≤◌, String, ◌≡◌, ◌≢◌, ◌⊎◌, refl, sym, ap, ◌∙◌, Option, none, some, true,
  false, List, [], ◌∷◌, length, drop, arith, inl, inr, Bool-cases, eqb, ltb,
}
use sakura_assistant.Agent.Client.{
  Failure, ErrKind, poison, retryable, unauthorized, MetricsAck, Posted, acked, refused, post,
  decode, classify,
}
use sakura_assistant.Agent.Pace.{interval_of_seconds}
use sakura_assistant.Agent.Queue
use sakura_assistant.Agent.Queue.{metrics, events, Stream}
use sakura_assistant.Agent.Queue.Rows.{Row, ids}
use sakura_assistant.Agent.Queue.Fifo.{IsOrdered, drop-IsOrdered}
use sakura_assistant.Agent.Queue.Delivery.{delete-peek}
use sakura_assistant.Agent.Reporter.{Env, World, Outcome, done, failed, return}
use sakura_assistant.Agent.Reporter.Drain.{
  post_metrics, apply_interval, after_metrics, send_oldest, choose_round, metrics_round,
  drain_metrics,
}

-- The hub's answer to a metrics payload at one interaction, as `PostMetrics` returns it.
unfoldable pub answer : Env → ℕ → String → Posted MetricsAck
answer env tick payload =
    decode "bad metrics ack" env.read_metrics_ack
      (post env.err_detail (env.metrics_answer tick payload))

abbrev pub IsUp : Env → Type 0
IsUp env = (n : ℕ) → env.fails n ≡ false

-- The stream without its `k` oldest rows.
abbrev pub after : ℕ → Stream → Stream
after k s = record s { table = record s.table { rows = drop k s.table.rows } }

not_poison : (k : ErrKind) → k ≢ poison → (k ≡ retryable) ⊎ (k ≡ unauthorized)
not_poison retryable h = inl refl
not_poison unauthorized h = inr refl
not_poison poison h = absurd (h refl)

refused_stops :
    (env : Env) (row : Row) (e : Failure)
    → classify e ≢ poison
    → after_metrics env row (refused e) ≡ return (some e)
unfolding after_metrics
refused_stops env row e h = elim (not_poison (classify e) h) [
  | inl k ↦ rw (k, after_metrics)
  | inr k ↦ rw (k, after_metrics)
]

module _ (env : Env) (up : IsUp env) (w : World) (row : Row) (rest : List Row)
    (ordered : IsOrdered w.queue.metrics_q.table) (rows : w.queue.metrics_q.table.rows ≡ row ∷ rest)
    (few : length rest < 100) where
  peeked : Queue.peek 1 w.queue.metrics_q ≡ row ∷ []
  peeked = rw ((delete-peek 1 w.queue.metrics_q ordered).0, rows)

  deleted : Queue.delete (row.id ∷ []) w.queue.metrics_q ≡ after 1 w.queue.metrics_q
  unfolding Queue.delete
  deleted =
      let e : ids (Queue.peek 1 w.queue.metrics_q) ≡ row.id ∷ [] = ap ids peeked in
      ap (λ t. record w.queue.metrics_q { table = t })
        (rw e at ((delete-peek 1 w.queue.metrics_q ordered).1))

  not_empty : eqb (Queue.pending w.queue.metrics_q) 0 ≡ false
  unfolding Queue.pending
  not_empty = rw rows (ground arith)

  no_backlog : ltb 100 (Queue.pending w.queue.metrics_q) ≡ false
  unfolding Queue.pending
  no_backlog = rw rows (ground arith)

  -- With at most 100 batches pending, a round sends the oldest one.
  round_sends :
      metrics_round env w ≡ send_oldest env (row ∷ []) (record w { tick = w.tick + 1 + 1 })
  unfolding metrics_round choose_round
  round_sends = simp (up, not_empty, no_backlog, peeked)

  pub accepted_round :
      (ack : MetricsAck)
      → answer env (w.tick + 1 + 1) row.payload ≡ acked ack
      → (interval : ℕ) × (metrics_round env w ≡ (
        done (some none),
        record w {
          queue = record w.queue { metrics_q = after 1 w.queue.metrics_q };
          interval = interval;
          tick = w.tick + 1 + 1 + 1 + 1;
        },
      ))
  unfolding send_oldest after_metrics post_metrics apply_interval answer
  accepted_round ack a = elim (Bool-cases (ltb 0 ack.report_interval_seconds)) [
    | inl named ↦ (
      interval_of_seconds ack.report_interval_seconds,
      rw round_sends (simp (up, a, deleted, named)),
    )
    | inr unnamed ↦ (w.interval, rw round_sends (simp (up, a, deleted, unnamed)))
  ]

  pub refused_round :
      (e : Failure)
      → answer env (w.tick + 1 + 1) row.payload ≡ refused e
      → classify e ≢ poison
      → metrics_round env w ≡ (done (some (some e)), record w { tick = w.tick + 1 + 1 + 1 })
  unfolding send_oldest after_metrics post_metrics answer
  refused_round e a k = rw round_sends (simp a (rw (refused_stops env row e k)))

-- What a hub that answers by the payload alone leaves of a list of batches sent in order: it stops
-- at the first refusal, which it reports.
abbrev pub send_all : (String → Posted MetricsAck) → List Row → Option Failure × List Row
send_all f [] = (none, [])
send_all f (row ∷ rest) = elim (f row.payload) [
  | Posted.acked ack ↦ send_all f rest
  | Posted.refused e ↦ (some e, row ∷ rest)
]

abbrev pub outcome_of : Option Failure → Outcome (Unit {0})
outcome_of none = done tt
outcome_of (some e) = failed e

-- A database that is up, and a hub that answers by the payload alone and refuses none as poison.
pub record IsSteady (env : Env) (f : String → Posted MetricsAck) : Type 0 where
  pub up : IsUp env
  pub answers : (n : ℕ) (p : String) → answer env n p ≡ f p
  pub no_poison : (p : String) (e : Failure) → f p ≡ refused e → classify e ≢ poison

-- The loop ended with the given failure, if any, and left the given batches, all else as it was.
abbrev pub Ended : Option Failure × List Row → World → Outcome (Unit {0}) × World → Type 0
Ended s w r =
    (r.0 ≡ outcome_of s.0)
    × (r.1.queue ≡ record w.queue {
      metrics_q = record w.queue.metrics_q {
        table = record w.queue.metrics_q.table { rows = s.1 };
      };
    })

Posted-cases :
    (p : Posted MetricsAck)
    → ((ack : MetricsAck) × (p ≡ acked ack)) ⊎ ((e : Failure) × (p ≡ refused e))
Posted-cases (Posted.acked ack) = inl (ack, refl)
Posted-cases (Posted.refused e) = inr (e, refl)

module _ (env : Env) (f : String → Posted MetricsAck) (steady : IsSteady env f) where
  send_all_acked :
      (row : Row) (rest : List Row) (ack : MetricsAck)
      → f row.payload ≡ acked ack
      → send_all f (row ∷ rest) ≡ send_all f rest
  send_all_acked row rest ack a = rw (a, send_all)

  send_all_refused :
      (row : Row) (rest : List Row) (e : Failure)
      → f row.payload ≡ refused e
      → send_all f (row ∷ rest) ≡ (some e, row ∷ rest)
  send_all_refused row rest e a = rw (a, send_all)

  nothing_left :
      (w : World)
      → w.queue.metrics_q.table.rows ≡ []
      → metrics_round env w ≡ (done none, record w { tick = w.tick + 1 })
  unfolding metrics_round choose_round
  nothing_left w e =
      let z : eqb (Queue.pending w.queue.metrics_q) 0 ≡ true = unfold Queue.pending in rw e in
      simp (steady.up, z)

  drained :
      (fuel : ℕ) (rows : List Row) (w : World)
      → w.queue.metrics_q.table.rows ≡ rows
      → IsOrdered w.queue.metrics_q.table
      → length rows ≤ 100
      → length rows < fuel
      → Ended (send_all f rows) w (drain_metrics env fuel w)
  unfolding drain_metrics
  drained zero rows w e ordered few enough = absurd (omega arith)
  drained (suc fuel) [] w e ordered few enough = rw (nothing_left w e) (refl, rw (← e))
  drained (suc fuel) (row ∷ rest) w e ordered few enough = elim (Posted-cases (f row.payload)) [
    | inl (ack, a) ↦
        let (interval, round) =
          accepted_round env steady.up w row rest ordered e (omega arith) ack
            (steady.answers _ _ ∙ a) in
        let w' : World = record w {
          queue = record w.queue { metrics_q = after 1 w.queue.metrics_q };
          interval = interval;
          tick = w.tick + 1 + 1 + 1 + 1;
        } in
        subst (λ s. Ended s w (drain_metrics env (suc fuel) w))
          (sym (send_all_acked row rest ack a))
          (rw round (
            drained fuel rest w' (ap (drop 1) e) (drop-IsOrdered 1 w.queue.metrics_q.table ordered)
              (omega arith) (omega arith)))
    | inr (x, a) ↦
        subst (λ s. Ended s w (drain_metrics env (suc fuel) w))
          (sym (send_all_refused row rest x a))
          (rw
            (refused_round env steady.up w row rest ordered e (omega arith) x
              (steady.answers _ _ ∙ a) (steady.no_poison row.payload x a))
            (refl, rw (← e)))
  ]

  -- Against a steady hub, with at most 100 batches pending in order and more fuel than batches, the
  -- metrics loop ends: it sends the batches oldest first and deletes each one that is acknowledged;
  -- at the first refusal it stops with that error, and that batch and all later ones stay queued.
  pub drain_metrics-send_all :
      (fuel : ℕ) (w : World)
      → IsOrdered w.queue.metrics_q.table
      → length w.queue.metrics_q.table.rows ≤ 100
      → length w.queue.metrics_q.table.rows < fuel
      → Ended (send_all f w.queue.metrics_q.table.rows) w (drain_metrics env fuel w)
  drain_metrics-send_all fuel w ordered few enough =
      drained fuel w.queue.metrics_q.table.rows w refl ordered few enough
