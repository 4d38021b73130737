-- ===== src/Hub/Stream/Overflow.antt =====
-- hub/sse.go, Publish: an entry that finds the channel full.
use sakura_assistant.Base.{
  ℕ, zero, suc, ◌+◌, ◌≤◌, ◌≡◌, ◌≢◌, refl, sym, Option, none, some, Bool, false, inl, inr, List, [],
  ◌∷◌, ◌++◌, ltb, leb, length, arith, All, Bool-cases,
}
use mathlib.Core.Path.{subst}
use sakura_assistant.Hub.Types.{ChangeEntry}
use sakura_assistant.Hub.Stream.Client.{
  Phase, connected, subscribed, following, closed, World, channel_size, offer, publish, subscribe,
  replay, receive, pick, Action, commit, publish_nth, subscribes, replays, receives, published,
  step, run,
}

-- No entry has the number.
abbrev pub Lacks : ℕ → List ChangeEntry → Type 0
Lacks n cs = All (λ c. c.seq ≢ n) cs

Lacks-snoc :
    (n : ℕ) (cs : List ChangeEntry) (c : ChangeEntry)
    → Lacks n cs
    → c.seq ≢ n
    → Lacks n (cs ++ c ∷ [])
Lacks-snoc n [] c h ne = (ne, tt)
Lacks-snoc n (x ∷ cs) c h ne = (h.0, Lacks-snoc n cs c h.1 ne)

-- What is picked, and what is left.
abbrev PickedLacks : ℕ → Option (ChangeEntry × List ChangeEntry) → Type 0
PickedLacks n none = Unit
PickedLacks n (some (c, others)) = (c.seq ≢ n) × Lacks n others

beside-PickedLacks :
    (n : ℕ) (x : ChangeEntry) (o : Option (ChangeEntry × List ChangeEntry))
    → x.seq ≢ n
    → PickedLacks n o
    → PickedLacks n (elim o [ none ↦ none | some (f, others) ↦ some (f, x ∷ others) ])
beside-PickedLacks n x none ne h = tt
beside-PickedLacks n x (some (c, others)) ne h = (h.0, (ne, h.1))

pick-PickedLacks : (n i : ℕ) (cs : List ChangeEntry) → Lacks n cs → PickedLacks n (pick i cs)
unfolding pick
pick-PickedLacks n i [] h = tt
pick-PickedLacks n zero (c ∷ cs) h = h
pick-PickedLacks n (suc i) (c ∷ cs) h =
    beside-PickedLacks n c (pick i cs) h.0 (pick-PickedLacks n i cs h.1)

-- The loop runs, and nothing that it may still be given has the number.
abbrev LoopLacks : ℕ → Phase → Type 0
LoopLacks n (following last channel) = Lacks n channel
LoopLacks n connected = ⊥
LoopLacks n (subscribed channel) = ⊥
LoopLacks n (closed reason) = ⊥

record IsGone (n : ℕ) (w : World) : Type 0 where
  pub handed_out : n ≤ w.counter
  pub pending : Lacks n w.pending
  pub loop : LoopLacks n w.phase
  pub written : Lacks n w.written

offer-Lacks :
    (n : ℕ) (e : ChangeEntry) (channel : List ChangeEntry)
    → e.seq ≢ n
    → Lacks n channel
    → Lacks n (offer e channel)
unfolding offer
offer-Lacks n e channel ne h = elim (Bool-cases (ltb (length channel) channel_size)) [
  | inl room ↦ rw room (Lacks-snoc n channel e h ne)
  | inr full ↦ rw full h
]

publish-LoopLacks :
    (n : ℕ) (e : ChangeEntry) (p : Phase) → e.seq ≢ n → LoopLacks n p → LoopLacks n (publish e p)
unfolding publish
publish-LoopLacks n e connected ne h = h
publish-LoopLacks n e (subscribed channel) ne h = h
publish-LoopLacks n e (following last channel) ne h = offer-Lacks n e channel ne h
publish-LoopLacks n e (closed reason) ne h = h

published-IsGone :
    (n : ℕ) (w : World) (o : Option (ChangeEntry × List ChangeEntry))
    → PickedLacks n o
    → IsGone n w
    → IsGone n (published o w)
published-IsGone n w none picked h = h
published-IsGone n w (some (e, others)) picked h = record {
  handed_out = h.handed_out;
  pending = picked.1;
  loop = publish-LoopLacks n e w.phase picked.0 h.loop;
  written = h.written;
}

subscribe-LoopLacks :
    (n since : ℕ) (fails : Bool) (log : List ChangeEntry) (p : Phase)
    → LoopLacks n p
    → LoopLacks n (subscribe fails since log p)
unfolding subscribe
subscribe-LoopLacks n since fails log connected h = absurd h
subscribe-LoopLacks n since fails log (subscribed channel) h = h
subscribe-LoopLacks n since fails log (following last channel) h = h
subscribe-LoopLacks n since fails log (closed reason) h = h

replay-IsGone :
    (n since : ℕ) (fails : Bool) (w : World) (p : Phase)
    → w.phase ≡ p
    → IsGone n w
    → IsGone n (replay fails since p w)
unfolding replay
replay-IsGone n since fails w connected at h = h
replay-IsGone n since fails w (following last channel) at h = h
replay-IsGone n since fails w (closed reason) at h = h
replay-IsGone n since fails w (subscribed channel) at h = absurd (subst (LoopLacks n) at h.loop)

receive-IsGone : (n : ℕ) (w : World) (p : Phase) → w.phase ≡ p → IsGone n w → IsGone n (receive p w)
unfolding receive
receive-IsGone n w connected at h = h
receive-IsGone n w (subscribed channel) at h = h
receive-IsGone n w (following last []) at h = h
receive-IsGone n w (closed reason) at h = h
receive-IsGone n w (following last (e ∷ channel)) at h =
    let loop = subst (LoopLacks n) at h.loop in
    elim (Bool-cases (leb e.seq last)) [
      | inl old ↦ rw old (record {
        handed_out = h.handed_out;
        pending = h.pending;
        loop = loop.1;
        written = h.written;
      })
      | inr new ↦ rw new (record {
        handed_out = h.handed_out;
        pending = h.pending;
        loop = loop.1;
        written = Lacks-snoc n w.written e h.written loop.0;
      })
    ]

step-IsGone : (n since : ℕ) (w : World) (a : Action) → IsGone n w → IsGone n (step since w a)
unfolding step
step-IsGone n since w (commit content) h = record {
  handed_out = omega (arith, h.handed_out);
  pending =
      Lacks-snoc n w.pending (record content { seq = w.counter + 1 }) h.pending
        (λ e. omega (arith, e, h.handed_out));
  loop = h.loop;
  written = h.written;
}
step-IsGone n since w (publish_nth i) h =
    published-IsGone n w (pick i w.pending) (pick-PickedLacks n i w.pending h.pending) h
step-IsGone n since w (subscribes fails) h = record {
  handed_out = h.handed_out;
  pending = h.pending;
  loop = subscribe-LoopLacks n since fails w.log w.phase h.loop;
  written = h.written;
}
step-IsGone n since w (replays fails) h = replay-IsGone n since fails w w.phase refl h
step-IsGone n since w receives h = receive-IsGone n w w.phase refl h

run-IsGone :
    (n since : ℕ) (w : World) (actions : List Action) → IsGone n w → IsGone n (run since w actions)
unfolding run
run-IsGone n since w [] h = h
run-IsGone n since w (a ∷ rest) h =
    run-IsGone n since (step since w a) rest (step-IsGone n since w a h)

offer-full :
    (e : ChangeEntry) (channel : List ChangeEntry)
    → channel_size ≤ length channel
    → offer e channel ≡ channel
unfolding offer
offer-full e channel full =
    let none_left : ltb (length channel) channel_size ≡ false = ground (arith, full) in
    rw none_left refl

-- The loop runs: it was not ended by a resync, nor by anything else.
abbrev pub IsFollowing : Phase → Type 0
IsFollowing (following last channel) = Unit
IsFollowing connected = ⊥
IsFollowing (subscribed channel) = ⊥
IsFollowing (closed reason) = ⊥

LoopLacks-IsFollowing : (n : ℕ) (p : Phase) → LoopLacks n p → IsFollowing p
LoopLacks-IsFollowing n (following last channel) h = tt
LoopLacks-IsFollowing n connected h = absurd h
LoopLacks-IsFollowing n (subscribed channel) h = absurd h
LoopLacks-IsFollowing n (closed reason) h = absurd h

-- An entry that is published to a client in the loop whose channel is full is never written to it,
-- whatever follows, and the loop goes on: no resync ends it, as one does when the replay is impossible.
-- Its number is that of no other entry that is pending, in the channel or written.
pub publish-NeverWritten :
    (since last i : ℕ) (w : World) (channel others : List ChangeEntry) (e : ChangeEntry)
    (actions : List Action)
    → w.phase ≡ following last channel
    → channel_size ≤ length channel
    → pick i w.pending ≡ some (e, others)
    → e.seq ≤ w.counter
    → Lacks e.seq others
    → Lacks e.seq channel
    → Lacks e.seq w.written
    → Lacks e.seq (run since w (publish_nth i ∷ actions)).written
      × IsFollowing (run since w (publish_nth i ∷ actions)).phase
unfolding run step publish
publish-NeverWritten since last i w channel others e actions at full picked handed_out pending
      waiting written =
    let still_lacks : LoopLacks e.seq (following last (offer e channel)) =
      rw (offer-full e channel full) waiting in
    let gone : IsGone e.seq (published (some (e, others)) w) = record {
      handed_out = handed_out;
      pending = pending;
      loop = subst (λ p. LoopLacks e.seq (publish e p)) (sym at) still_lacks;
      written = written;
    } in
    let after = published (pick i w.pending) w in
    let end =
      run-IsGone e.seq since after actions
        (subst (λ o. IsGone e.seq (published o w)) (sym picked) gone) in
    (end.written, LoopLacks-IsFollowing e.seq (run since after actions).phase end.loop)
