-- ===== src/Hub/Auth/Limiter.antt =====
-- hub/auth.go, loginLimiter: at most ten attempts for a key within five minutes. Times are in
-- nanoseconds; attempts are made one after the other under the limiter's lock.
use sakura_assistant.Base.{
  ℕ, ◌+◌, ◌*◌, ◌-◌, ◌/◌, String, Bool, true, false, List, [], ◌∷◌, ◌++◌, ◌==◌, ltb, leb, length,
  if◌then◌else◌,
}

abbrev pub window : ℕ
window = 5 * 60 * 1000000000

abbrev pub max_hits : ℕ
max_hits = 10

-- `t.After(cutoff)`, where the cutoff is a window before now.
abbrev pub is_recent : ℕ → ℕ → Bool
is_recent now t = ltb now (t + window)

unfoldable pub recent : ℕ → List ℕ → List ℕ
recent now [] = []
recent now (t ∷ ts) = let rest = recent now ts in if is_recent now t then t ∷ rest else rest

-- The map `hits`.
pub record Hits : Type 0 where
  pub key : String
  pub times : List ℕ

unfoldable pub hits_of : String → List Hits → List ℕ
hits_of key [] = []
hits_of key (h ∷ rest) = if h.key == key then h.times else hits_of key rest

unfoldable pub set_hits : String → List ℕ → List Hits → List Hits
set_hits key times [] = record { key = key; times = times } ∷ []
set_hits key times (h ∷ rest) =
    let others = set_hits key times rest in
    if h.key == key then record { key = key; times = times } ∷ rest else h ∷ others

-- Whether the attempt is allowed, and the seconds after which to retry.
pub record Answer : Type 0 where
  pub allowed : Bool
  pub retry : ℕ

abbrev pub wait_for : ℕ → List ℕ → ℕ
wait_for now [] = 0
wait_for now (t ∷ ts) = (t + window - now) / 1000000000 + 1

-- `allow` on the times of its key.
unfoldable pub attempt : ℕ → List ℕ → Answer × List ℕ
unfolding recent
attempt now times =
    let kept = recent now times in
    if leb max_hits (length kept)
    then (record { allowed = false; retry = wait_for now kept }, kept)
    else (record { allowed = true; retry = 0 }, kept ++ now ∷ [])

unfoldable pub allow : String → ℕ → List Hits → Answer × List Hits
allow key now hits = let r = attempt now (hits_of key hits) in (r.0, set_hits key r.1 hits)
