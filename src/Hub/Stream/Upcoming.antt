-- ===== src/Hub/Stream/Upcoming.antt =====
-- hub/sse.go, handleStream: what is still to come when a writer commits or publishes, and when the client
-- subscribes.
use sakura_assistant.Base.{
  ℕ, ◌+◌, ◌≤◌, ◌<◌, ◌≡◌, refl, sym, ap, ◌∙◌, Bool, true, false, ◌⊎◌, inl, inr, List, [], ◌∷◌, ◌++◌,
  ltb, length, lt→ltb, arith, Bool-cases, Option-cases,
}
use mathlib.Core.Path.{subst}
use mathlib.Core.List.{append_assoc}
use sakura_assistant.Hub.Types.{ChangeEntry}
use sakura_assistant.Hub.Fault.Invariant.{Rising}
use sakura_assistant.Hub.Stream.Client.{
  above, min_change_seq, Phase, connected, subscribed, following, closed, World, channel_size,
  offer, publish, subscribe,
}
use sakura_assistant.Hub.Stream.Numbers.{Rising-split, above-append}

-- What is still to come is the end of the log.
abbrev pub IsEndOf : List ChangeEntry → List ChangeEntry → Type 0
IsEndOf todo log = (done : List ChangeEntry) × (log ≡ done ++ todo)

-- What the client has got and what it will take of what is to come make up the changes since its cursor.
abbrev pub Delivering : ℕ → ℕ → List ChangeEntry → List ChangeEntry → List ChangeEntry → ℕ → Type 0
Delivering since last todo written log counter =
    (since ≤ last)
    × ((last ≡ since) ⊎ (last ≤ counter))
    × (written ++ above last todo ≡ above since log)

module _ (since : ℕ) where
  abbrev pub AtPhase : List ChangeEntry → List ChangeEntry → List ChangeEntry → ℕ → Phase → Type 0
  AtPhase pending written log counter connected = (written ≡ []) × IsEndOf pending log
  AtPhase pending written log counter (subscribed channel) =
      (written ≡ []) × IsEndOf (channel ++ pending) log
  AtPhase pending written log counter (following last channel) =
      IsEndOf (channel ++ pending) log
      × Delivering since last (channel ++ pending) written log counter
  AtPhase pending written log counter (closed reason) = Unit

  pub record IsComplete (w : World) : Type 0 where
    pub log : Rising 0 w.log w.counter
    pub at_phase : AtPhase w.pending w.written w.log w.counter w.phase

IsEndOf-snoc :
    (todo log : List ChangeEntry) (e : ChangeEntry)
    → IsEndOf todo log
    → IsEndOf (todo ++ e ∷ []) (log ++ e ∷ [])
IsEndOf-snoc todo log e (done, at) =
    (done, ap (λ l. l ++ e ∷ []) at ∙ append_assoc done todo (e ∷ []))

pub IsEndOf-next :
    (e : ChangeEntry) (todo log : List ChangeEntry) → IsEndOf (e ∷ todo) log → IsEndOf todo log
IsEndOf-next e todo log (done, at) = (done ++ e ∷ [], at ∙ sym (append_assoc done (e ∷ []) todo))

pub no_tail : (xs ys : List ChangeEntry) → xs ++ ys ≡ [] → ys ≡ []
no_tail [] ys e = e
no_tail (x ∷ xs) ys e = ground (arith, e)

-- The numbers to come end at the counter.
pub end-Rising :
    (todo log : List ChangeEntry) (hi : ℕ)
    → IsEndOf todo log
    → Rising 0 log hi
    → (mid : ℕ) × Rising mid todo hi
end-Rising todo log hi (done, at) h = Rising-split 0 done todo hi (subst (λ l. Rising 0 l hi) at h)

-- A commit.
above-new : (n : ℕ) (e : ChangeEntry) → n < e.seq → above n (e ∷ []) ≡ e ∷ []
unfolding above
above-new n e l = let new : ltb n e.seq ≡ true = ground (arith, l) in rw new refl

same-news :
    (since last counter : ℕ) (e : ChangeEntry)
    → since ≤ last
    → (last ≡ since) ⊎ (last ≤ counter)
    → counter < e.seq
    → above last (e ∷ []) ≡ above since (e ∷ [])
same-news since last counter e l (inl same) new = rw same refl
same-news since last counter e l (inr le) new =
    above-new last e (omega (arith, le, new)) ∙ sym (above-new since e (omega (arith, l, le, new)))

commit-Delivering :
    (since last : ℕ) (todo written log : List ChangeEntry) (counter : ℕ) (e : ChangeEntry)
    → counter < e.seq
    → Delivering since last todo written log counter
    → Delivering since last (todo ++ e ∷ []) written (log ++ e ∷ []) e.seq
commit-Delivering since last todo written log counter e new (l, le, got) = (
  l,
  elim le [ inl same ↦ inl same | inr below ↦ inr (omega (arith, below, new)) ],
  ap (λ t. written ++ t) (above-append last todo (e ∷ []))
      ∙ sym (append_assoc written (above last todo) (above last (e ∷ [])))
      ∙ ap (λ t. t ++ above last (e ∷ [])) got
      ∙ ap (λ t. above since log ++ t) (same-news since last counter e l le new)
      ∙ sym (above-append since log (e ∷ [])),
)

pub commit-AtPhase :
    (since : ℕ) (pending written log : List ChangeEntry) (counter : ℕ) (e : ChangeEntry) (p : Phase)
    → counter < e.seq
    → AtPhase since pending written log counter p
    → AtPhase since (pending ++ e ∷ []) written (log ++ e ∷ []) e.seq p
commit-AtPhase since pending written log counter e connected new (empty, ending) =
    (empty, IsEndOf-snoc pending log e ending)
commit-AtPhase since pending written log counter e (subscribed channel) new (empty, ending) = (
  empty,
  subst (λ t. IsEndOf t (log ++ e ∷ [])) (append_assoc channel pending (e ∷ []))
      (IsEndOf-snoc (channel ++ pending) log e ending),
)
commit-AtPhase since pending written log counter e (following last channel) new (ending, got) =
    subst (λ t. IsEndOf t (log ++ e ∷ []) × Delivering since last t written (log ++ e ∷ []) e.seq)
      (append_assoc channel pending (e ∷ []))
      (
        IsEndOf-snoc (channel ++ pending) log e ending,
        commit-Delivering since last (channel ++ pending) written log counter e new got,
      )
commit-AtPhase since pending written log counter e (closed reason) new h = tt

-- The entry that was committed first is published, to a channel with room for it.
abbrev pub HasRoom : Phase → Type 0
HasRoom connected = Unit
HasRoom (subscribed channel) = length channel < channel_size
HasRoom (following last channel) = length channel < channel_size
HasRoom (closed reason) = Unit

offer_snoc :
    (e : ChangeEntry) (channel : List ChangeEntry)
    → length channel < channel_size
    → offer e channel ≡ channel ++ e ∷ []
unfolding offer
offer_snoc e channel room = let fits = lt→ltb (length channel) channel_size room in rw fits refl

pub publish-AtPhase :
    (since : ℕ) (pending written log : List ChangeEntry) (counter : ℕ) (e : ChangeEntry) (p : Phase)
    → HasRoom p
    → AtPhase since (e ∷ pending) written log counter p
    → AtPhase since pending written log counter (publish e p)
unfolding publish
publish-AtPhase since pending written log counter e connected room (empty, ending) =
    (empty, IsEndOf-next e pending log ending)
publish-AtPhase since pending written log counter e (subscribed channel) room (empty, ending) =
    rw (offer_snoc e channel room, append_assoc channel (e ∷ []) pending) (empty, ending)
publish-AtPhase since pending written log counter e (following last channel) room h =
    rw (offer_snoc e channel room, append_assoc channel (e ∷ []) pending) h
publish-AtPhase since pending written log counter e (closed reason) room h = tt

-- The client subscribes.
pub subscribe-AtPhase :
    (since : ℕ) (pending written log : List ChangeEntry) (counter : ℕ) (fails : Bool) (p : Phase)
    → AtPhase since pending written log counter p
    → AtPhase since pending written log counter (subscribe fails since log p)
unfolding subscribe
subscribe-AtPhase since pending written log counter true connected h = h
subscribe-AtPhase since pending written log counter false connected h =
    elim (Option-cases (min_change_seq log)) [
      | inl empty ↦ rw empty h
      | inr (n, least) ↦ elim (Bool-cases (ltb (since + 1) n)) [
        | inl behind ↦ rw (least, behind) tt
        | inr within ↦ rw (least, within) h
      ]
    ]
subscribe-AtPhase since pending written log counter fails (subscribed channel) h = h
subscribe-AtPhase since pending written log counter fails (following last channel) h = h
subscribe-AtPhase since pending written log counter fails (closed reason) h = tt
