-- ===== src/Hub/Stream/Delivery.antt =====
-- hub/sse.go, handleStream: nothing is lost between the replay and the channel.
use sakura_assistant.Base.{
  ℕ, ◌+◌, ◌<◌, ◌≡◌, refl, sym, ap, ◌∙◌, Bool, true, false, inl, inr, List, [], ◌∷◌, ◌++◌, ltb, leb,
  arith, Bool-cases,
}
use mathlib.Core.Path.{subst}
use mathlib.Core.List.{append-nil, append_assoc}
use sakura_assistant.Hub.Types.{ChangeEntry}
use sakura_assistant.Hub.Fault.Invariant.{Rising, Rising-append}
use sakura_assistant.Hub.Stream.Client.{
  above, changes_since, Phase, connected, subscribed, following, closed, World, last_of, replay,
  receive, pick, Action, commit, publish_nth, subscribes, replays, receives, published, step, run,
}
use sakura_assistant.Hub.Stream.Numbers.{
  Rising-le, above-append, above-all, changes_since-above, above-Rising, above-last, last_of-above,
}
use sakura_assistant.Hub.Stream.Upcoming.{
  IsEndOf, Delivering, AtPhase, IsComplete, IsEndOf-next, no_tail, end-Rising, HasRoom,
  commit-AtPhase, publish-AtPhase, subscribe-AtPhase,
}

-- The replay.
nothing_left :
    (n : ℕ) (done todo : List ChangeEntry) → above n (done ++ todo) ≡ [] → above n todo ≡ []
nothing_left n done todo e =
    no_tail (above n done) (above n todo) (sym (above-append n done todo) ∙ e)

replay-Delivering :
    (since : ℕ) (todo log : List ChangeEntry) (counter : ℕ)
    → Rising 0 log counter
    → IsEndOf todo log
    → Delivering since (last_of since (above since log)) todo (above since log) log counter
replay-Delivering since todo log counter h (done, at) = (
  Rising-le since (above since log) (last_of since (above since log))
      (above-Rising since 0 log counter h),
  last_of-above since 0 log counter h,
  ap (λ t. above since log ++ t)
        (nothing_left (last_of since (above since log)) done todo (
          ap (above (last_of since (above since log))) (sym at) ∙ above-last since 0 log counter h))
      ∙ append-nil (above since log),
)

replay-IsComplete :
    (since : ℕ) (fails : Bool) (w : World) (p : Phase)
    → w.phase ≡ p
    → IsComplete since w
    → IsComplete since (replay fails since p w)
unfolding replay
replay-IsComplete since fails w connected at h = h
replay-IsComplete since fails w (following last channel) at h = h
replay-IsComplete since fails w (closed reason) at h = h
replay-IsComplete since true w (subscribed channel) at h = record { log = h.log; at_phase = tt }
replay-IsComplete since false w (subscribed channel) at h =
    let (empty, ending) = subst (AtPhase since w.pending w.written w.log w.counter) at h.at_phase in
    record {
      log = h.log;
      at_phase =
          rw (empty, changes_since-above since w.log w.counter h.log)
            (ending, replay-Delivering since (channel ++ w.pending) w.log w.counter h.log ending);
    }

-- The client takes an entry from the channel.
skip-Delivering :
    (since last : ℕ) (e : ChangeEntry) (todo written log : List ChangeEntry) (counter : ℕ)
    → leb e.seq last ≡ true
    → Delivering since last (e ∷ todo) written log counter
    → Delivering since last todo written log counter
unfolding above
skip-Delivering since last e todo written log counter old (l, le, got) =
    let below : ltb last e.seq ≡ false = ground (arith, old) in
    let skips : above last (e ∷ todo) ≡ above last todo = rw below refl in
    (l, le, ap (λ t. written ++ t) (sym skips) ∙ got)

take-Delivering :
    (since last : ℕ) (e : ChangeEntry) (todo written log : List ChangeEntry) (counter mid : ℕ)
    → leb e.seq last ≡ false
    → Rising mid (e ∷ todo) counter
    → Delivering since last (e ∷ todo) written log counter
    → Delivering since e.seq todo (written ++ e ∷ []) log counter
unfolding above
take-Delivering since last e todo written log counter mid new rising (l, le, got) =
    let next : ltb last e.seq ≡ true = ground (arith, new) in
    let lt : last < e.seq = ground (arith, new) in
    let takes : above last (e ∷ todo) ≡ e ∷ above e.seq todo = rw next (
      ap (λ t. e ∷ t)
        (above-all last e.seq todo counter rising.1 (omega (arith, lt))
          ∙ sym (above-all e.seq e.seq todo counter rising.1 (omega arith)))) in
    (
      omega (arith, l, lt),
      inr (Rising-le e.seq todo counter rising.1),
      append_assoc written (e ∷ []) (above e.seq todo) ∙ ap (λ t. written ++ t) (sym takes) ∙ got,
    )

receive-IsComplete :
    (since : ℕ) (w : World) (p : Phase)
    → w.phase ≡ p
    → IsComplete since w
    → IsComplete since (receive p w)
unfolding receive
receive-IsComplete since w connected at h = h
receive-IsComplete since w (subscribed channel) at h = h
receive-IsComplete since w (following last []) at h = h
receive-IsComplete since w (closed reason) at h = h
receive-IsComplete since w (following last (e ∷ channel)) at h =
    let (ending, got) = subst (AtPhase since w.pending w.written w.log w.counter) at h.at_phase in
    let ending' = IsEndOf-next e (channel ++ w.pending) w.log ending in
    elim (Bool-cases (leb e.seq last)) [
      | inl old ↦ rw old (record {
        log = h.log;
        at_phase = (
          ending',
          skip-Delivering since last e (channel ++ w.pending) w.written w.log w.counter old got,
        );
      })
      | inr new ↦
          let (mid, rising) = end-Rising (e ∷ channel ++ w.pending) w.log w.counter ending h.log in
          rw new (record {
            log = h.log;
            at_phase = (
              ending',
              take-Delivering since last e (channel ++ w.pending) w.written w.log w.counter mid new
                  rising got,
            );
          })
    ]

-- Entries are published in the order of the commits, and the channel has room for them.
abbrev IsCalm : World → Action → Type 0
IsCalm w (commit content) = Unit
IsCalm w (publish_nth n) = (n ≡ 0) × HasRoom w.phase
IsCalm w (subscribes fails) = Unit
IsCalm w (replays fails) = Unit
IsCalm w receives = Unit

abbrev pub AreCalm : ℕ → World → List Action → Type 0
AreCalm since w [] = Unit
AreCalm since w (a ∷ rest) = IsCalm w a × AreCalm since (step since w a) rest

publish-IsComplete :
    (since : ℕ) (w : World) (pending : List ChangeEntry)
    → w.pending ≡ pending
    → HasRoom w.phase
    → IsComplete since w
    → IsComplete since (published (pick 0 pending) w)
unfolding pick
publish-IsComplete since w [] at room h = h
publish-IsComplete since w (e ∷ pending) at room h = record {
  log = h.log;
  at_phase =
      publish-AtPhase since pending w.written w.log w.counter e w.phase room
        (subst (λ t. AtPhase since t w.written w.log w.counter w.phase) at h.at_phase);
}

step-IsComplete :
    (since : ℕ) (w : World) (a : Action)
    → IsCalm w a
    → IsComplete since w
    → IsComplete since (step since w a)
unfolding step
step-IsComplete since w (commit content) calm h =
    let e : ChangeEntry = record content { seq = w.counter + 1 } in
    record {
      log = Rising-append 0 w.log w.counter e h.log (omega arith);
      at_phase =
          commit-AtPhase since w.pending w.written w.log w.counter e w.phase (omega arith)
            h.at_phase;
    }
step-IsComplete since w (publish_nth n) (first, room) h =
    rw first (publish-IsComplete since w w.pending refl room h)
step-IsComplete since w (subscribes fails) calm h = record {
  log = h.log;
  at_phase = subscribe-AtPhase since w.pending w.written w.log w.counter fails w.phase h.at_phase;
}
step-IsComplete since w (replays fails) calm h = replay-IsComplete since fails w w.phase refl h
step-IsComplete since w receives calm h = receive-IsComplete since w w.phase refl h

run-IsComplete :
    (since : ℕ) (w : World) (actions : List Action)
    → AreCalm since w actions
    → IsComplete since w
    → IsComplete since (run since w actions)
unfolding run
run-IsComplete since w [] calm h = h
run-IsComplete since w (a ∷ rest) calm h =
    run-IsComplete since (step since w a) rest calm.1 (step-IsComplete since w a calm.0 h)

-- A client that has connected.
pub record IsStart (w : World) : Type 0 where
  pub log : Rising 0 w.log w.counter
  pub pending : IsEndOf w.pending w.log
  pub phase : w.phase ≡ connected
  pub written : w.written ≡ []

-- Once the loop runs, what is written and what the channel and the writers still hold beyond `last` make
-- up the changes since the cursor, and nothing is written before.
abbrev pub Delivers : ℕ → World → Phase → Type 0
Delivers since w connected = w.written ≡ []
Delivers since w (subscribed channel) = w.written ≡ []
Delivers since w (following last channel) =
    w.written ++ above last (channel ++ w.pending) ≡ changes_since since w.log
Delivers since w (closed reason) = Unit

complete-Delivers :
    (since : ℕ) (w : World) (p : Phase) → w.phase ≡ p → IsComplete since w → Delivers since w p
complete-Delivers since w connected at h =
    (subst (AtPhase since w.pending w.written w.log w.counter) at h.at_phase).0
complete-Delivers since w (subscribed channel) at h =
    (subst (AtPhase since w.pending w.written w.log w.counter) at h.at_phase).0
complete-Delivers since w (following last channel) at h =
    let phase = subst (AtPhase since w.pending w.written w.log w.counter) at h.at_phase in
    phase.1.2 ∙ sym (changes_since-above since w.log w.counter h.log)
complete-Delivers since w (closed reason) at h = tt

-- For a client that connects and any sequence of steps in which entries are published in the order of
-- their commits to channels with room, changes that are committed before, during and after the replay are
-- delivered once each and in order: what was written and what is still to come beyond `last` make up the
-- changes since the cursor.
pub run-Delivers :
    (since : ℕ) (w : World) (actions : List Action)
    → IsStart w
    → AreCalm since w actions
    → Delivers since (run since w actions) (run since w actions).phase
run-Delivers since w actions start calm =
    complete-Delivers since (run since w actions) (run since w actions).phase refl (
      run-IsComplete since w actions calm (record {
        log = start.log;
        at_phase =
            subst (AtPhase since w.pending w.written w.log w.counter) (sym start.phase)
              (start.written, start.pending);
      }))
