-- ===== src/Hub/Stream/Order.antt =====
-- hub/sse.go, handleStream: the order of what is written, in any interleaving with the writers.
use sakura_assistant.Base.{
  ℕ, ◌+◌, ◌≡◌, refl, Option, none, some, Bool, true, false, inl, inr, List, [], ◌∷◌, ltb, leb,
  arith, Bool-cases, Option-cases,
}
use mathlib.Core.Path.{subst}
use sakura_assistant.Hub.Types.{ChangeEntry}
use sakura_assistant.Hub.Fault.Invariant.{Rising, Rising-append}
use sakura_assistant.Hub.Stream.Client.{
  min_change_seq, Phase, connected, subscribed, following, closed, World, publish, subscribe,
  replay, receive, pick, Action, commit, publish_nth, subscribes, replays, receives, published,
  step, run,
}
use sakura_assistant.Hub.Stream.Numbers.{changes_since-above, above-Rising}

-- The log is in order, and nothing is written before the loop; then the numbers written increase
-- strictly from the cursor up to `last`.
abbrev pub WrittenIn : ℕ → List ChangeEntry → Phase → Type 0
WrittenIn since written connected = written ≡ []
WrittenIn since written (subscribed channel) = written ≡ []
WrittenIn since written (following last channel) = Rising since written last
WrittenIn since written (closed reason) = written ≡ []

pub record IsOrdered (since : ℕ) (w : World) : Type 0 where
  pub log : Rising 0 w.log w.counter
  pub written : WrittenIn since w.written w.phase

publish-WrittenIn :
    (since : ℕ) (written : List ChangeEntry) (e : ChangeEntry) (p : Phase)
    → WrittenIn since written p
    → WrittenIn since written (publish e p)
unfolding publish
publish-WrittenIn since written e connected h = h
publish-WrittenIn since written e (subscribed channel) h = h
publish-WrittenIn since written e (following last channel) h = h
publish-WrittenIn since written e (closed reason) h = h

subscribe-WrittenIn :
    (since : ℕ) (written : List ChangeEntry) (fails : Bool) (log : List ChangeEntry) (p : Phase)
    → WrittenIn since written p
    → WrittenIn since written (subscribe fails since log p)
unfolding subscribe
subscribe-WrittenIn since written true log connected h = h
subscribe-WrittenIn since written false log connected h = elim (Option-cases (min_change_seq log)) [
  | inl empty ↦ rw empty h
  | inr (n, least) ↦ elim (Bool-cases (ltb (since + 1) n)) [
    | inl behind ↦ rw (least, behind) h
    | inr within ↦ rw (least, within) h
  ]
]
subscribe-WrittenIn since written fails log (subscribed channel) h = h
subscribe-WrittenIn since written fails log (following last channel) h = h
subscribe-WrittenIn since written fails log (closed reason) h = h

replay-IsOrdered :
    (since : ℕ) (fails : Bool) (w : World) (p : Phase)
    → w.phase ≡ p
    → IsOrdered since w
    → IsOrdered since (replay fails since p w)
unfolding replay
replay-IsOrdered since fails w connected at h = h
replay-IsOrdered since fails w (following last channel) at h = h
replay-IsOrdered since fails w (closed reason) at h = h
replay-IsOrdered since true w (subscribed channel) at h = record {
  log = h.log;
  written = subst (WrittenIn since w.written) at h.written;
}
replay-IsOrdered since false w (subscribed channel) at h =
    let empty : w.written ≡ [] = subst (WrittenIn since w.written) at h.written in
    record {
      log = h.log;
      written =
          rw (empty, changes_since-above since w.log w.counter h.log)
            (above-Rising since 0 w.log w.counter h.log);
    }

receive-IsOrdered :
    (since : ℕ) (w : World) (p : Phase)
    → w.phase ≡ p
    → IsOrdered since w
    → IsOrdered since (receive p w)
unfolding receive
receive-IsOrdered since w connected at h = h
receive-IsOrdered since w (subscribed channel) at h = h
receive-IsOrdered since w (following last []) at h = h
receive-IsOrdered since w (closed reason) at h = h
receive-IsOrdered since w (following last (e ∷ channel)) at h =
    let risen : Rising since w.written last = subst (WrittenIn since w.written) at h.written in
    elim (Bool-cases (leb e.seq last)) [
      | inl old ↦ rw old (record { log = h.log; written = risen })
      | inr new ↦ rw new (record {
        log = h.log;
        written = Rising-append since w.written last e risen (ground (arith, new));
      })
    ]

published-IsOrdered :
    (since : ℕ) (w : World) (o : Option (ChangeEntry × List ChangeEntry))
    → IsOrdered since w
    → IsOrdered since (published o w)
published-IsOrdered since w none h = h
published-IsOrdered since w (some (e, others)) h = record {
  log = h.log;
  written = publish-WrittenIn since w.written e w.phase h.written;
}

step-IsOrdered :
    (since : ℕ) (w : World) (a : Action) → IsOrdered since w → IsOrdered since (step since w a)
unfolding step
step-IsOrdered since w (commit content) h = record {
  log =
      Rising-append 0 w.log w.counter (record content { seq = w.counter + 1 }) h.log (omega arith);
  written = h.written;
}
step-IsOrdered since w (publish_nth n) h = published-IsOrdered since w (pick n w.pending) h
step-IsOrdered since w (subscribes fails) h = record {
  log = h.log;
  written = subscribe-WrittenIn since w.written fails w.log w.phase h.written;
}
step-IsOrdered since w (replays fails) h = replay-IsOrdered since fails w w.phase refl h
step-IsOrdered since w receives h = receive-IsOrdered since w w.phase refl h

-- Whatever the writers, the broker and the client do, and in which order entries are published, the log
-- stays in order, and the client gets each number at most once, in strictly increasing order from its
-- cursor on.
pub run-IsOrdered :
    (since : ℕ) (w : World) (actions : List Action)
    → IsOrdered since w
    → IsOrdered since (run since w actions)
unfolding run
run-IsOrdered since w [] h = h
run-IsOrdered since w (a ∷ rest) h =
    run-IsOrdered since (step since w a) rest (step-IsOrdered since w a h)
