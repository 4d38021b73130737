-- ===== src/Hub/Rules/Window.antt =====
-- hub/rules.go, evalThreshold: what stands behind an opening and a recovery of a threshold fault.
use sakura_assistant.Base.{
  ℕ, ◌+◌, ◌*◌, ◌^◌, ◌<◌, ◌≤◌, ◌≡◌, refl, Bool, true, false, ◌⊎◌, inl, inr, List, [], ◌∷◌, arith,
  Bool-cases,
}
use sakura_assistant.Hub.Rules.Threshold.{
  RuleState, no_state, Verdict, nothing, opens, resolves, judge, second, elapsed, breached,
  recovering_from,
}

-- One evaluation: the answers of `violates`, `recovers` and `isFaultOpen`, and the time.
pub record Reading : Type 0 where
  pub violation : Bool
  pub recovery : Bool
  pub fault_open : Bool
  pub now : ℕ

-- Some of the newest readings, back to one at time `t`, all have the property.
abbrev pub Since : (Reading → Type 0) → List Reading → ℕ → Type 0
Since P [] t = ⊥
Since P (r ∷ past) t = P r × ((r.now ≡ t) ⊎ Since P past t)

abbrev pub Violates : Reading → Type 0
Violates r = r.violation ≡ true

-- Within the limit, and past the recovery limit if the fault was open.
abbrev pub Recovers : Reading → Type 0
Recovers r = (r.violation ≡ false) × ((r.recovery ≡ true) ⊎ (r.fault_open ≡ false))

-- A duration that does not wrap around has passed.
elapsed-le :
    (now since n : ℕ) → n * second < 2 ^ 63 → elapsed now since n ≡ true → since + n * second ≤ now
elapsed-le now since n small full = ground (arith, small, full)

module _ (for recover_for : ℕ) where
  abbrev pub step : RuleState → Reading → Verdict × RuleState
  step st r = judge for recover_for st r.violation r.recovery r.fault_open r.now

  -- The state after readings, newest first.
  abbrev pub state_after : List Reading → RuleState
  state_after [] = no_state
  state_after (r ∷ past) = (step (state_after past) r).1

  abbrev pub verdict_on : Reading → List Reading → Verdict
  verdict_on r past = (step (state_after past) r).0

  -- What the two flags of a state say of the readings.
  record IsTimed (past : List Reading) (st : RuleState) : Type 0 where
    breach : st.breach ≡ true → Since Violates past st.breach_since
    back : st.recovering ≡ true → Since Recovers past st.recover_since

  breached-IsTimed :
      (r : Reading) (past : List Reading) (st : RuleState)
      → IsTimed past st
      → r.violation ≡ true
      → IsTimed (r ∷ past) (breached st r.now)
  breached-IsTimed r past st h v = elim (Bool-cases st.breach) [
    | inl b ↦ record { breach = λ _. (v, rw b (inr (h.breach b))); back = λ e. ground arith }
    | inr b ↦ record { breach = λ _. (v, rw b (inl refl)); back = λ e. ground arith }
  ]

  back-IsTimed :
      (r : Reading) (past : List Reading) (st : RuleState)
      → IsTimed past st
      → Recovers r
      → IsTimed (r ∷ past) (recovering_from st r.now)
  back-IsTimed r past st h v = elim (Bool-cases st.recovering) [
    | inl b ↦ record { breach = λ e. ground arith; back = λ _. (v, rw b (inr (h.back b))) }
    | inr b ↦ record { breach = λ e. ground arith; back = λ _. (v, rw b (inl refl)) }
  ]

  -- What a verdict rests on, and the state that comes with it.
  record Judged (r : Reading) (past : List Reading) (out : Verdict × RuleState) : Type 0 where
    timed : IsTimed (r ∷ past) out.1
    opening :
        out.0 ≡ opens
        → for * second < 2 ^ 63
        → (r.fault_open ≡ false)
          × (t : ℕ) × (Since Violates (r ∷ past) t)
          × (t + for * second ≤ r.now)
    ending :
        out.0 ≡ resolves
        → recover_for * second < 2 ^ 63
        → (r.fault_open ≡ true)
          × (t : ℕ) × (Since Recovers (r ∷ past) t)
          × (t + recover_for * second ≤ r.now)

  abbrev reading : Bool → Bool → Bool → ℕ → Reading
  reading violation recovery fault_open now = record {
    violation = violation;
    recovery = recovery;
    fault_open = fault_open;
    now = now;
  }

  -- No verdict, with timers that are right.
  quiet :
      (r : Reading) (past : List Reading) (st : RuleState)
      → IsTimed (r ∷ past) st
      → Judged r past (nothing, st)
  quiet r past st h = record {
    timed = h;
    opening = λ e small. ground arith;
    ending = λ e small. ground arith;
  }

  judged :
      (violation recovery fault_open : Bool) (now : ℕ) (past : List Reading) (st : RuleState)
      → IsTimed past st
      → Judged
          (reading violation recovery fault_open now)
          past
          (step st (reading violation recovery fault_open now))
  unfolding judge
  judged true recovery fault_open now past st h =
      let r = reading true recovery fault_open now in
      let hit = breached-IsTimed r past st h refl in
      elim (Bool-cases (elapsed now (breached st now).breach_since for)) [
        | inr short ↦ rw short (quiet r past (breached st now) hit)
        | inl full ↦ elim (Bool-cases fault_open) [
          | inl o ↦
              rw (full, o)
                (quiet (reading true recovery true now) past (breached st now)
                  (breached-IsTimed (reading true recovery true now) past st h refl))
          | inr closed ↦
              rw (full, closed)
                (record {
                  timed = breached-IsTimed (reading true recovery false now) past st h refl;
                  opening = λ _ small. (
                    refl,
                    (breached st now).breach_since,
                    (breached-IsTimed (reading true recovery false now) past st h refl).breach refl,
                    elapsed-le now (breached st now).breach_since for small full,
                  );
                  ending = λ e small. ground arith;
                })
        ]
      ]
  judged false recovery false now past st h =
      quiet (reading false recovery false now) past (record st { breach = false })
        (record { breach = λ e. ground arith; back = λ b. ((refl, inr refl), inr (h.back b)) })
  judged false false true now past st h =
      quiet (reading false false true now) past (record st { breach = false; recovering = false })
        (record { breach = λ e. ground arith; back = λ e. ground arith })
  judged false true true now past st h =
      let r = reading false true true now in
      let back = back-IsTimed r past st h (refl, inl refl) in
      elim (Bool-cases (elapsed now (recovering_from st now).recover_since recover_for)) [
        | inr early ↦ rw early (quiet r past (recovering_from st now) back)
        | inl long ↦ rw long (record {
          timed = record { breach = λ e. ground arith; back = λ e. ground arith };
          opening = λ e small. ground arith;
          ending = λ _ small. (
            refl,
            (recovering_from st now).recover_since,
            back.back refl,
            elapsed-le now (recovering_from st now).recover_since recover_for small long,
          );
        })
      ]

  state_after-IsTimed : (past : List Reading) → IsTimed past (state_after past)
  state_after-IsTimed [] = record { breach = λ e. ground arith; back = λ e. ground arith }
  state_after-IsTimed (r ∷ past) =
      (judged r.violation r.recovery r.fault_open r.now past (state_after past)
        (state_after-IsTimed past)).timed

  -- Whatever was evaluated before, a rule whose `for` seconds fit in a duration of 63 bits opens its fault
  -- only when the fault is not open and all readings, back to one that is at least `for` seconds old,
  -- violate the limit.
  pub judge-opens :
      (r : Reading) (past : List Reading)
      → for * second < 2 ^ 63
      → verdict_on r past ≡ opens
      → (r.fault_open ≡ false)
        × (t : ℕ) × (Since Violates (r ∷ past) t)
        × (t + for * second ≤ r.now)
  judge-opens r past small e =
      (judged r.violation r.recovery r.fault_open r.now past (state_after past)
          (state_after-IsTimed past)).opening
        e small

  -- Whatever was evaluated before, a rule whose `recover_for` seconds fit in a duration of 63 bits ends its
  -- fault only when the fault is open and all readings, back to one that is at least `recover_for` seconds
  -- old, are within the limit, and past the recovery limit unless the fault was not open then.
  pub judge-resolves :
      (r : Reading) (past : List Reading)
      → recover_for * second < 2 ^ 63
      → verdict_on r past ≡ resolves
      → (r.fault_open ≡ true)
        × (t : ℕ) × (Since Recovers (r ∷ past) t)
        × (t + recover_for * second ≤ r.now)
  judge-resolves r past small e =
      (judged r.violation r.recovery r.fault_open r.now past (state_after past)
          (state_after-IsTimed past)).ending
        e small
