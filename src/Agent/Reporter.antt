-- ===== src/Agent/Reporter.antt =====
-- agent/internal/report/reporter.go: sending what the queue holds.
-- The n-th interaction with the outside is answered by `Env`: whether a database call fails, what a
-- clock reading shows, what the hub answers. Log lines are left out.
pub mod Drain
pub mod Loop
pub mod Latched
use sakura_assistant.Base.{
  ℕ, zero, suc, ◌+◌, ◌-◌, String, Option, none, some, Bool, true, false, List, [], ◌∷◌, map, eqb,
  ltb, if◌then◌else◌,
}
use sakura_assistant.Agent.Client.{Failure, local, MetricsAck, Posted, Response, post, decode}
use sakura_assistant.Agent.Queue.{
  Kind, metrics, events, Queue, stream, put_stream, limit, Stream, Overflow,
}
use sakura_assistant.Agent.Queue

-- What a system event says (`QueueOverflowEvent`, `PayloadDroppedEvent`).
pub data Notice : Type 0 where
  queue_overflow : Kind → Overflow → Notice
  metrics_dropped : ℕ → Failure → Notice
  events_dropped : ℕ → Failure → Notice

pub record Env : Type 0 where
  pub fails : ℕ → Bool
  pub now : ℕ → ℕ
  pub metrics_answer : ℕ → String → Response
  pub events_answer : ℕ → String → Response
  -- the JSON encoder and decoder; `none` is their error
  pub marshal_notice : Notice → ℕ → ℕ → Option String
  pub build_events : List String → ℕ → Option String
  pub read_metrics_ack : String → Option MetricsAck
  pub read_events_ack : String → Option (Unit {0})
  pub err_detail : String → String

-- The sender's state: its queue, its interval, and the number of interactions so far.
pub record World : Type 0 where
  pub queue : Queue
  pub interval : ℕ
  pub tick : ℕ

-- `spinning`: the fuel of a loop ran out.
pub data Outcome {ℓ} (A : Type ℓ) : Type ℓ where
  done : A → Outcome A
  failed : Failure → Outcome A
  spinning : Outcome A

abbrev pub M : Type 0 → Type 0
M A = World → Outcome A × World

abbrev pub continue : {A B : Type 0} → Outcome A → (A → M B) → M B
continue (done a) f w = f a w
continue (failed e) f w = (failed e, w)
continue spinning f w = (spinning, w)

infixl 5 ◌>>=◌ ◌>>◌
abbrev pub ◌>>=◌ : {A B : Type 0} → M A → (A → M B) → M B
◌>>=◌ m f w = let (r, w') = m w in continue r f w'

abbrev pub ◌>>◌ : {B : Type 0} → M (Unit {0}) → M B → M B
m >> k = m >>= λ _. k

abbrev pub return : {A : Type 0} → A → M A
return a w = (done a, w)

abbrev pub fail : {A : Type 0} → Failure → M A
fail e w = (failed e, w)

-- `if err != nil { log }`: the error is dropped, what was done before it stays done.
abbrev pub settle : Outcome (Unit {0}) → Outcome (Unit {0})
settle (done a) = done a
settle (failed e) = done tt
settle spinning = spinning

abbrev pub logged : M (Unit {0}) → M (Unit {0})
logged m w = let (r, w') = m w in (settle r, w')

abbrev pub max_replay : ℕ
max_replay = 100

abbrev pub max_event_send : ℕ
max_event_send = 100

module _ (env : Env) where
  -- A database call: it fails and changes nothing, or does its work.
  abbrev pub db : {A : Type 0} → (Stream → A × Stream) → Kind → M A
  db op k w =
      let w' = record w { tick = w.tick + 1 } in
      let (a, s) = op (stream k w.queue) in
      if env.fails w.tick
      then (failed (local "database"), w')
      else (done a, record w' { queue = put_stream k s w.queue })

  abbrev pub read_clock : M ℕ
  read_clock w = (done (env.now w.tick), record w { tick = w.tick + 1 })

  abbrev pub lift : {A : Type 0} → Posted A → M A
  lift (Posted.acked a) w = (done a, w)
  lift (Posted.refused e) w = (failed e, w)

  abbrev pub encoded : Option String → M String
  encoded none = fail (local "marshal")
  encoded (some b) = return b

  -- `EnqueueEventNoTrim` reads the clock for `created_at` and runs its one statement.
  unfoldable pub emit_system_event_no_trim : Notice → M (Unit {0})
  emit_system_event_no_trim notice = logged (do
    seq ← db Queue.next_seq events
    now ← read_clock
    payload ← encoded (env.marshal_notice notice seq now)
    created ← read_clock
    db (λ s. (tt, Queue.enqueue_no_trim seq payload created s)) events)

  flush_kind : Kind → M (Unit {0})
  flush_kind k = do
    o ← db Queue.read_overflow k
    elim o [
      | none ↦ return tt
      | some ov ↦
          db (λ s. (tt, Queue.clear_overflow (some ov) s)) k
          >> emit_system_event_no_trim (queue_overflow k ov)
    ]

  unfoldable pub flush_overflow_events : M (Unit {0})
  unfolding flush_kind
  flush_overflow_events = do flush_kind metrics; flush_kind events
