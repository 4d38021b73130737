-- ===== src/Hub/Ensures.antt =====
-- Facts on the database around a transaction's body (hub/store.go, withTx).
use sakura_assistant.Hub.Store.{Hub, Tx, Result, ok, err, ◌>>=◌, continue}

-- A transaction's body that starts from `P` and does not fail ends in `Q`.
abbrev pub Post : {A : Type 0} → (A → Hub → Type 0) → Result A × Hub → Type 0
Post Q (ok a, s) = Q a s
Post Q (err e, s) = Unit

pub record Ensures {A : Type 0} (P : Hub → Type 0) (m : Tx A) (Q : A → Hub → Type 0) : Type 0 where
  pub at : (s : Hub) → P s → Post Q (m s)

module _ {A B : Type 0} {P : Hub → Type 0} {R : B → Hub → Type 0} where
  pub Ensures-bind :
      (Q : A → Hub → Type 0) (m : Tx A) (f : A → Tx B)
      → Ensures P m Q
      → ((a : A) → Ensures (Q a) (f a) R)
      → Ensures P (m >>= f) R
  Ensures-bind Q m f em ef = record { at = λ s h. go (m s) (em.at s h) }
    where
      go : (r : Result A × Hub) → Post Q r → Post R (continue r.0 f r.1)
      go (ok a, s) q = (ef a).at s q
      go (err e, s) q = tt

-- A weaker end.
pub Ensures-weaken :
    {A : Type 0} {P : Hub → Type 0} {m : Tx A} {Q R : A → Hub → Type 0}
    → Ensures P m Q
    → ((a : A) (s : Hub) → Q a s → R a s)
    → Ensures P m R
Ensures-weaken {A = A} {m = m} {Q = Q} {R = R} em weaker = record {
  at = λ s h. go (m s) (em.at s h);
}
  where
    go : (r : Result A × Hub) → Post Q r → Post R r
    go (ok a, s) q = weaker a s q
    go (err e, s) q = tt

-- A fact that holds beside the precondition may be used to choose the proof.
pub Ensures-fact :
    {A : Type 0} {P : Hub → Type 0} {F : Type 0} {m : Tx A} {Q : A → Hub → Type 0}
    → (F → Ensures P m Q)
    → Ensures (λ s. P s × F) m Q
Ensures-fact f = record { at = λ s h. (f h.1).at s h.0 }

-- Nothing is asked.
pub Ensures-any : {A : Type 0} (m : Tx A) → Ensures (λ _. Unit {0}) m (λ _ _. Unit {0})
Ensures-any {A = A} m = record { at = λ s h. go (m s) }
  where
    go : (r : Result A × Hub) → Post {A = A} (λ _ _. Unit {0}) r
    go (ok a, s) = tt
    go (err e, s) = tt
