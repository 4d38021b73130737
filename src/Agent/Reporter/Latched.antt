-- ===== src/Agent/Reporter/Latched.antt =====
-- reporter.go, probeUnauthorized: the sender while the hub refuses its key.
use sakura_assistant.Base.{
  ℕ, zero, suc, ◌+◌, String, Option, ◌≡◌, ◌≢◌, refl, sym, some, Bool, true, false, inl, inr, List,
  [], ◌∷◌, ltb, leb, ◌⊎◌, Bool-cases, if◌then◌else◌, arith, take, length,
}
use mathlib.Core.Path.{subst}
use sakura_assistant.Agent.Client.{replied, post, decode, classify}
use sakura_assistant.Agent.Queue
use sakura_assistant.Agent.Queue.{metrics, events, Stream, stream}
use sakura_assistant.Agent.Queue.Rows.{Row, order_by_id, place, oldest}
use sakura_assistant.Agent.Reporter.{Env, World, Outcome, done, failed, spinning, M, continue}
use sakura_assistant.Agent.Reporter.Drain.{post_metrics, post_events, drain_once}
use sakura_assistant.Agent.Reporter.Loop.{
  Latch, handle_probe_err, or_no_rows, try_peek, after_metrics_probe, after_events_probe,
  probe_body, probe_events, probe_metrics, probe_unauthorized, either_pending_of, any_pending,
  send_pending, after_drain, turn, turns,
}

-- The hub answers 401 to everything, with any body and any Retry-After; the database works, and the
-- encoder makes some body of any events.
pub record Refusing (env : Env) : Type 0 where
  pub up : (n : ℕ) → env.fails n ≡ false
  pub metrics_401 :
      (n : ℕ) (p : String)
      → (b : String) × (wait : Option ℕ) × (env.metrics_answer n p ≡ replied 401 b wait)
  pub events_401 :
      (n : ℕ) (p : String)
      → (b : String) × (wait : Option ℕ) × (env.events_answer n p ≡ replied 401 b wait)
  pub builds : (ps : List String) (n : ℕ) → (b : String) × (env.build_events ps n ≡ some b)

-- The sender returns, still refused, and its queue is as it was.
abbrev pub StaysLatched : Queue.Queue → Outcome Latch × World → Type 0
StaysLatched q (done l, w') = (l.unauthorized ≡ true) × (w'.queue ≡ q)
StaysLatched q (failed e, w') = ⊥
StaysLatched q (spinning, w') = ⊥

-- A stream with pending rows has an oldest one.
place-NonEmpty : (r : Row) (rows : List Row) → place r rows ≢ []
unfolding place
place-NonEmpty r [] e = ground (arith, e)
place-NonEmpty r (s ∷ rest) e = elim (Bool-cases (leb r.id s.id)) [
  | inl first ↦ ground (arith, e, first)
  | inr later ↦ ground (arith, e, later)
]

take_one : (rows : List Row) → rows ≢ [] → take 1 rows ≢ []
take_one [] ne e = ne refl
take_one (r ∷ rest) ne e = ground (arith, e)

order-NonEmpty : (rows : List Row) → length rows ≢ 0 → order_by_id rows ≢ []
unfolding order_by_id
order-NonEmpty [] some_left = absurd (some_left refl)
order-NonEmpty (r ∷ rest) some_left = place-NonEmpty r (order_by_id rest)

peek-NonEmpty : (s : Stream) → Queue.pending s ≢ 0 → Queue.peek 1 s ≢ []
unfolding Queue.pending Queue.peek oldest
peek-NonEmpty s some_left =
    take_one (order_by_id s.table.rows) (order-NonEmpty s.table.rows some_left)

either_pending-left : (m n : ℕ) → either_pending_of m n ≡ true → (m ≢ 0) ⊎ (n ≢ 0)
either_pending-left zero n e = inr (λ z. ground (arith, e, z))
either_pending-left (suc m) n e = inl (λ z. omega (arith, z))

module _ (env : Env) (probe_every : ℕ) (backoff : ℕ → ℕ) (h : Refusing env) where
  after_metrics-StaysLatched :
      (l : Latch) (row : Row) (rest : List Row) (w : World)
      → l.unauthorized ≡ true
      → StaysLatched w.queue (probe_metrics env probe_every backoff l (row ∷ rest) w)
  unfolding probe_metrics post_metrics post decode after_metrics_probe handle_probe_err classify
  after_metrics-StaysLatched l row rest w on =
      let (b, wait, at) = h.metrics_401 w.tick row.payload in rw at (on, refl)

  after_events-StaysLatched :
      (l : Latch) (row : Row) (rest : List Row) (w : World)
      → l.unauthorized ≡ true
      → StaysLatched w.queue (probe_events env probe_every backoff l (row ∷ rest) w)
  unfolding probe_events probe_body post_events post decode after_events_probe handle_probe_err
      classify
  after_events-StaysLatched l row rest w on =
      let (body, built) = h.builds (row.payload ∷ []) (env.now w.tick) in
      let (b, wait, at) = h.events_401 (w.tick + 1) body in rw (built, at) (on, refl)

  try_peek-up :
      (k : Queue.Kind) (w : World)
      → try_peek env probe_every backoff k w
        ≡ (done (Queue.peek 1 (stream k w.queue)), record w { tick = w.tick + 1 })
  unfolding try_peek
  try_peek-up metrics w = rw (or_no_rows, h.up w.tick) refl
  try_peek-up events w = rw (or_no_rows, h.up w.tick) refl

  events-StaysLatched :
      (l : Latch) (rows : List Row) (w : World)
      → l.unauthorized ≡ true
      → rows ≢ []
      → StaysLatched w.queue (probe_events env probe_every backoff l rows w)
  events-StaysLatched l [] w on ne = absurd (ne refl)
  events-StaysLatched l (row ∷ rest) w on ne = after_events-StaysLatched l row rest w on

  metrics-StaysLatched :
      (l : Latch) (rows : List Row) (w : World)
      → l.unauthorized ≡ true
      → (rows ≢ []) ⊎ (Queue.peek 1 w.queue.events_q ≢ [])
      → StaysLatched w.queue (probe_metrics env probe_every backoff l rows w)
  unfolding probe_metrics
  metrics-StaysLatched l (row ∷ rest) w on left = after_metrics-StaysLatched l row rest w on
  metrics-StaysLatched l [] w on (inl ne) = absurd (ne refl)
  metrics-StaysLatched l [] w on (inr ne) =
      rw (try_peek-up events w) (
        events-StaysLatched l (Queue.peek 1 w.queue.events_q) (record w { tick = w.tick + 1 }) on
          ne)

  probe-StaysLatched :
      (l : Latch) (w : World)
      → l.unauthorized ≡ true
      → (Queue.peek 1 w.queue.metrics_q ≢ []) ⊎ (Queue.peek 1 w.queue.events_q ≢ [])
      → StaysLatched w.queue (probe_unauthorized env probe_every backoff l w)
  unfolding probe_unauthorized
  probe-StaysLatched l w on left = rw (try_peek-up metrics w) (
      metrics-StaysLatched l (Queue.peek 1 w.queue.metrics_q) (record w { tick = w.tick + 1 }) on
        left)

  any_pending-up :
      (w : World)
      → any_pending env probe_every backoff w ≡ (
        done (either_pending_of (Queue.pending w.queue.metrics_q) (Queue.pending w.queue.events_q)),
        record w { tick = w.tick + 1 + 1 },
      )
  unfolding any_pending
  any_pending-up w = rw (h.up w.tick, h.up (w.tick + 1)) refl

  send_pending-StaysLatched :
      (fuel : ℕ) (l : Latch) (w : World) (b : Bool)
      → either_pending_of (Queue.pending w.queue.metrics_q) (Queue.pending w.queue.events_q) ≡ b
      → l.unauthorized ≡ true
      → StaysLatched w.queue (send_pending env probe_every backoff fuel l b w)
  unfolding send_pending
  send_pending-StaysLatched fuel l w false at on = (on, refl)
  send_pending-StaysLatched fuel l w true at on =
      let left : (Queue.peek 1 w.queue.metrics_q ≢ []) ⊎ (Queue.peek 1 w.queue.events_q ≢ []) =
        elim (either_pending-left (Queue.pending w.queue.metrics_q) (Queue.pending w.queue.events_q)
          at) [
            | inl m ↦ inl (peek-NonEmpty w.queue.metrics_q m)
            | inr n ↦ inr (peek-NonEmpty w.queue.events_q n)
          ] in
      subst
        (λ b. StaysLatched w.queue (
          if b
          then probe_unauthorized env probe_every backoff l w
          else after_drain env probe_every backoff l (drain_once env fuel w)))
        (sym on) (probe-StaysLatched l w on left)

  turn-StaysLatched :
      (fuel : ℕ) (l : Latch) (w : World)
      → l.unauthorized ≡ true
      → StaysLatched w.queue (turn env probe_every backoff fuel l w)
  unfolding turn
  turn-StaysLatched fuel l w on = elim (Bool-cases (ltb (env.now w.tick) l.next_try)) [
    | inl early ↦ rw early (on, refl)
    | inr due ↦
        rw (due, any_pending-up (record w { tick = w.tick + 1 }))
          (send_pending-StaysLatched fuel l (record w { tick = w.tick + 1 + 1 + 1 }) _ refl on)
  ]

  then-StaysLatched :
      (q : Queue.Queue) (r : Outcome Latch × World) (f : Latch → M Latch)
      → StaysLatched q r
      → ((l : Latch) (w : World) → l.unauthorized ≡ true → StaysLatched w.queue (f l w))
      → StaysLatched q (continue r.0 f r.1)
  then-StaysLatched q (done l, w) f (on, same) stays =
      subst (λ p. StaysLatched p (f l w)) same (stays l w on)
  then-StaysLatched q (failed e, w) f refused stays = refused
  then-StaysLatched q (spinning, w) f refused stays = refused

  -- While the hub answers 401 to everything, with whatever body and Retry-After, the database works and
  -- the encoder makes some body of any events, a sender that is unauthorized goes on: any number of passes
  -- returns, leaves it unauthorized, and leaves the queue as it is, whatever it holds.
  pub turns-StaysLatched :
      (n fuel : ℕ) (l : Latch) (w : World)
      → l.unauthorized ≡ true
      → StaysLatched w.queue (turns env probe_every backoff n fuel l w)
  unfolding turns
  turns-StaysLatched zero fuel l w on = (on, refl)
  turns-StaysLatched (suc n) fuel l w on =
      then-StaysLatched w.queue (turn env probe_every backoff fuel l w)
        (turns env probe_every backoff n fuel) (turn-StaysLatched fuel l w on)
        (turns-StaysLatched n fuel)
