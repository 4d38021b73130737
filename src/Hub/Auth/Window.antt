-- ===== src/Hub/Auth/Window.antt =====
-- hub/auth.go, loginLimiter: what the limiter lets through.
use sakura_assistant.Base.{
  ℕ, ◌+◌, ◌*◌, ◌≤◌, ◌≡◌, refl, ap, ◌∙◌, true, false, List, [], ◌∷◌, ◌++◌, arith, inl, inr,
  Bool-cases, leb, length, length-append, if◌then◌else◌,
}
use mathlib.Core.Path.{subst}
use sakura_assistant.Hub.Auth.Limiter.{max_hits, is_recent, recent, wait_for, attempt}

-- One key's attempts so far: the times that the limiter keeps, and all the times that it allowed.
pub record Run : Type 0 where
  pub times : List ℕ
  pub allowed : List ℕ

abbrev step : ℕ → Run → Run
step now r = record {
  times = (attempt now r.times).1;
  allowed = if (attempt now r.times).0.allowed then r.allowed ++ now ∷ [] else r.allowed;
}

abbrev pub no_attempts : Run
no_attempts = record { times = []; allowed = [] }

-- The run of attempts, newest first.
abbrev pub run : List ℕ → Run
run [] = no_attempts
run (now ∷ past) = step now (run past)

-- Attempts at times that do not go back, up to `now`, newest first.
abbrev pub UpTo : ℕ → List ℕ → Type 0
UpTo now [] = Unit
UpTo now (t ∷ past) = (t ≤ now) × UpTo t past

recent-append : (now : ℕ) (xs ys : List ℕ) → recent now (xs ++ ys) ≡ recent now xs ++ recent now ys
unfolding recent
recent-append now [] ys = refl
recent-append now (t ∷ xs) ys = elim (Bool-cases (is_recent now t)) [
  | inl new ↦ rw (new, recent-append now xs ys) refl
  | inr old ↦ rw (old, recent-append now xs ys) refl
]

-- What has left the window does not come back.
recent-recent :
    (now later : ℕ) (ts : List ℕ) → now ≤ later → recent later (recent now ts) ≡ recent later ts
unfolding recent
recent-recent now later [] le = refl
recent-recent now later (t ∷ ts) le = elim (Bool-cases (is_recent now t)) [
  | inl new ↦ rw (new, recent-recent now later ts le) refl
  | inr old ↦ elim (Bool-cases (is_recent later t)) [
    | inl back ↦ ground arith
    | inr gone ↦ rw (old, gone, recent-recent now later ts le) refl
  ]
]

length-recent-le : (now : ℕ) (ts : List ℕ) → length (recent now ts) ≤ length ts
unfolding recent
length-recent-le now [] = omega arith
length-recent-le now (t ∷ ts) = ground (arith, length-recent-le now ts)

record IsTracked (now : ℕ) (r : Run) : Type 0 where
  same : (later : ℕ) → now ≤ later → recent later r.times ≡ recent later r.allowed
  few : length r.times ≤ max_hits

step-IsTracked :
    (before now : ℕ) (r : Run) → before ≤ now → IsTracked before r → IsTracked now (step now r)
unfolding attempt
step-IsTracked before now r le h = elim (Bool-cases (leb max_hits (length (recent now r.times)))) [
  | inl full ↦ rw full (record {
    same = λ later l. recent-recent now later r.times l ∙ h.same later (omega (arith, le, l));
    few = omega (arith, length-recent-le now r.times, h.few);
  })
  | inr room ↦ rw room (record {
    same = λ later l.
        rw
          (
            recent-append later (recent now r.times) (now ∷ []),
            recent-append later r.allowed (now ∷ []),
            recent-recent now later r.times l,
            h.same later (omega (arith, le, l)),
          )
          refl;
    few = ground (arith, length-append (recent now r.times) (now ∷ []));
  })
]

run-IsTracked : (past : List ℕ) (now : ℕ) → UpTo now past → IsTracked now (run past)
run-IsTracked [] now h = record { same = λ later l. refl; few = omega arith }
run-IsTracked (t ∷ past) now h =
    let r = step-IsTracked t t (run past) (omega arith) (run-IsTracked past t h.1) in
    record { same = λ later l. r.same later (omega (arith, h.0, l)); few = r.few }

pub run_bounds :
    (past : List ℕ) (now : ℕ) → UpTo now past → length (recent now (run past).allowed) ≤ max_hits
run_bounds past now h =
    let r = run-IsTracked past now h in
    omega
      (arith, ap length (r.same now (omega arith)), length-recent-le now (run past).times, r.few)

-- An attempt is refused only when ten of the allowed ones lie within the last five minutes.
pub attempt-refused :
    (past : List ℕ) (now : ℕ)
    → UpTo now past
    → (attempt now (run past).times).0.allowed ≡ false
    → length (recent now (run past).allowed) ≡ max_hits
unfolding attempt
attempt-refused past now h refused =
    let r = run-IsTracked past now h in
    let b = run_bounds past now h in let e = ap length (r.same now (omega arith)) in ground arith

kept-refused :
    (now : ℕ) (times : List ℕ)
    → (attempt now times).0.allowed ≡ false
    → (attempt now times).1 ≡ recent now times
unfolding attempt
kept-refused now times refused = ground arith

-- The oldest attempt that is kept leaves the window within the wait.
wait_for-leaves :
    (now later : ℕ) (kept : List ℕ)
    → length kept ≤ max_hits
    → now + wait_for now kept * 1000000000 ≤ later
    → leb max_hits (length (recent later kept)) ≡ false
unfolding recent
wait_for-leaves now later [] few le = refl
wait_for-leaves now later (t ∷ ts) few le = ground (arith, length-recent-le later ts)

retry-refused :
    (now : ℕ) (times : List ℕ)
    → (attempt now times).0.allowed ≡ false
    → (attempt now times).0.retry ≡ wait_for now (recent now times)
unfolding attempt
retry-refused now times refused = ground arith

allowed-room :
    (later : ℕ) (kept : List ℕ)
    → leb max_hits (length (recent later kept)) ≡ false
    → (attempt later kept).0.allowed ≡ true
unfolding attempt
allowed-room later kept room = rw room refl

-- A key whose attempt is refused, and that waits for the seconds it is told, is let through.
pub attempt-retry :
    (past : List ℕ) (now later : ℕ)
    → UpTo now past
    → (attempt now (run past).times).0.allowed ≡ false
    → now + (attempt now (run past).times).0.retry * 1000000000 ≤ later
    → (attempt later (attempt now (run past).times).1).0.allowed ≡ true
attempt-retry past now later h refused waited =
    let times = (run past).times in
    rw (kept-refused now times refused) (
      allowed-room later (recent now times) (
        wait_for-leaves now later (recent now times)
          (omega (arith, length-recent-le now times, (run-IsTracked past now h).few))
          (subst (λ w. now + w * 1000000000 ≤ later) (retry-refused now times refused) waited)))
