-- ===== src/Agent/Reporter/Drain/Livelock.antt =====
-- reporter.go, drainOnce against a hub that refuses every batch of events as poison.
use sakura_assistant.Base.{
  ℕ, zero, suc, ◌+◌, ◌<◌, String, ◌≡◌, refl, none, some, false, List, [], ◌∷◌, map, length, arith,
  length-append,
}
use sakura_assistant.Agent.Client.{Failure, poison, refused, post, decode, classify}
use sakura_assistant.Agent.Queue
use sakura_assistant.Agent.Queue.{metrics, events, Stream}
use sakura_assistant.Agent.Queue.Rows.{Row, ids, insert_row}
use sakura_assistant.Agent.Queue.Fifo.{oldest_some}
use sakura_assistant.Agent.Queue.Steps.{inserted}
use sakura_assistant.Agent.Reporter.{
  Env, World, done, spinning, Notice, max_event_send, events_dropped, emit_system_event_no_trim,
}
use sakura_assistant.Agent.Reporter.Drain.{
  post_events, drop_poison_events, after_events, send_batch, events_round, drain_events,
}

-- No database call fails, everything can be encoded, and the hub answers every batch with poison.
pub record RefusesAll (env : Env) : Type 0 where
  pub database_up : (n : ℕ) → env.fails n ≡ false
  pub encodes_notice : (n : _) (s t : ℕ) → (p : String) × (env.marshal_notice n s t ≡ some p)
  pub encodes_batch : (ps : List String) (t : ℕ) → (p : String) × (env.build_events ps t ≡ some p)
  pub refuses :
      (n : ℕ) (p : String)
      → (e : Failure) × (post env.err_detail (env.events_answer n p) ≡ refused e)
        × (classify e ≡ poison)

module _ (env : Env) (h : RefusesAll env) where
  -- A notice is always added, as the newest event.
  emit_adds :
      (n : Notice) (w : World)
      → (seq created tick : ℕ) × (payload : String) × (emit_system_event_no_trim env n w ≡ (
        done tt,
        record w {
          queue = record w.queue {
            events_q =
                Queue.enqueue_no_trim seq payload created (Queue.next_seq w.queue.events_q).1;
          };
          tick = tick;
        },
      ))
  unfolding emit_system_event_no_trim
  emit_adds n w =
      let seq = (Queue.next_seq w.queue.events_q).0 in
      let (p, e) = h.encodes_notice n seq (env.now (w.tick + 1)) in
      (seq, env.now (w.tick + 1 + 1), w.tick + 1 + 1 + 1 + 1, p, simp (h.database_up, e))

  -- What the events stream is after a batch is dropped and the notice of it is added.
  replaced : List Row → ℕ → String → ℕ → Stream → Stream
  replaced rows seq payload created s =
      Queue.enqueue_no_trim seq payload created (Queue.next_seq (Queue.delete (ids rows) s)).1

  poisoned :
      (rows : List Row) (f : Failure) (w : World)
      → classify f ≡ poison
      → (seq created tick : ℕ) × (payload : String) × (after_events env rows (refused f) w ≡ (
        done none,
        record w {
          queue = record w.queue { events_q = replaced rows seq payload created w.queue.events_q };
          tick = tick;
        },
      ))
  unfolding after_events drop_poison_events replaced
  poisoned rows f w k =
      let w1 : World = record w {
        queue = record w.queue { events_q = Queue.delete (ids rows) w.queue.events_q };
        tick = w.tick + 1;
      } in
      let (seq, created, t, payload, emitted) = emit_adds (events_dropped (length rows) f) w1 in
      (seq, created, t, payload, rw (k, after_events) (simp (h.database_up) (rw emitted)))

  refused_round :
      (row : Row) (rest : List Row) (w : World)
      → Queue.peek max_event_send w.queue.events_q ≡ row ∷ rest
      → (seq created tick : ℕ) × (payload : String) × (events_round env w ≡ (
        done (some none),
        record w {
          queue = record w.queue {
            events_q = replaced (row ∷ rest) seq payload created w.queue.events_q;
          };
          tick = tick;
        },
      ))
  unfolding events_round send_batch post_events
  refused_round row rest w e =
      let (body, b) = h.encodes_batch (map (λ r. r.payload) (row ∷ rest)) (env.now (w.tick + 1)) in
      let (f, p, k) = h.refuses (w.tick + 1 + 1) body in
      let w1 : World = record w { tick = w.tick + 1 + 1 + 1 } in
      let (seq, created, t, payload, dropped) = poisoned (row ∷ rest) f w1 k in
      (
        seq,
        created,
        t,
        payload,
        simp (h.database_up, e, b) (unfold decode in simp (p) (rw dropped)),
      )

  length-replaced :
      (rows : List Row) (seq : ℕ) (payload : String) (created : ℕ) (s : Stream)
      → 0 < length (replaced rows seq payload created s).table.rows
  unfolding replaced Queue.enqueue_no_trim insert_row
  length-replaced rows seq payload created s =
      let t = (Queue.next_seq (Queue.delete (ids rows) s)).1 in
      omega (arith, length-append t.table.rows (inserted seq payload created t ∷ []))

  -- While the hub refuses every batch as poison, the events loop does not end, whatever its fuel:
  -- each batch that it drops is replaced by the notice of the drop, which is sent in turn.
  pub drain_events-spinning :
      (fuel : ℕ) (w : World)
      → 0 < length w.queue.events_q.table.rows
      → (drain_events env fuel w).0 ≡ spinning
  unfolding drain_events
  drain_events-spinning zero w busy = refl
  drain_events-spinning (suc fuel) w busy =
      let (row, rest, e) = oldest_some 99 w.queue.events_q.table busy in
      let (seq, created, t, payload, round) = refused_round row rest w (unfold Queue.peek in e) in
      rw round (
        drain_events-spinning fuel
          (record w {
            queue = record w.queue {
              events_q = replaced (row ∷ rest) seq payload created w.queue.events_q;
            };
            tick = t;
          })
          (length-replaced (row ∷ rest) seq payload created w.queue.events_q))
