-- ===== src/Hub/Auth/Rotation.antt =====
-- hub/auth.go, handleRefresh, handleLogin and handleLogout: what a token is worth afterwards.
use sakura_assistant.Base.{
  ℕ, ◌+◌, String, ◌≡◌, ◌≢◌, refl, sym, some, true, false, ◌||◌, ◌⊎◌, List, [], ◌∷◌, ◌==◌, arith,
  inl, inr, All, Bool-cases, Option-cases, eq_iff,
}
use mathlib.Core.Path.{subst}
use sakura_assistant.Hub.Auth.Sessions.{
  AuthEnv, SessionRow, Auth, Issued, AuthReply, issued, invalid_request, internal,
  invalid_credentials, invalid_refresh, no_content, rate_limited, find_refresh, answer_of, ticked,
}
use sakura_assistant.Hub.Auth.Refresh.{
  read_refresh, rotate, has_live, rotate_session, expired, refresh_row, handle_refresh,
}

-- Rows that hold the refresh token are the session's own.
abbrev pub IsHeldBy : String → String → List SessionRow → Type 0
IsHeldBy id hash rows = All (λ r. r.refresh_hash ≡ hash → r.id ≡ id) rows

-- No row that is not revoked holds the refresh token.
abbrev pub IsSpent : String → List SessionRow → Type 0
IsSpent hash rows = All (λ r. (r.refresh_hash ≢ hash) ⊎ (r.revoked ≡ true)) rows

find_refresh-holds :
    (hash : String) (rows : List SessionRow) (r : SessionRow)
    → find_refresh hash rows ≡ some r
    → r.refresh_hash ≡ hash
unfolding find_refresh
find_refresh-holds hash [] r e = ground (arith, e)
find_refresh-holds hash (x ∷ rest) r e = elim (Bool-cases (x.refresh_hash == hash)) [
  | inl same ↦ ground (arith, e, same, eq_iff x.refresh_hash hash)
  | inr other ↦ find_refresh-holds hash rest r (ground (arith, e, other))
]

find_refresh-IsHeldBy :
    (id hash : String) (rows : List SessionRow) (r : SessionRow)
    → IsHeldBy id hash rows
    → find_refresh hash rows ≡ some r
    → r.id ≡ id
unfolding find_refresh
find_refresh-IsHeldBy id hash [] r h e = ground (arith, e)
find_refresh-IsHeldBy id hash (x ∷ rest) r h e = elim (Bool-cases (x.refresh_hash == hash)) [
  | inl same ↦ let at_x = h.0 ((eq_iff x.refresh_hash hash).0 same) in ground (arith, e, same, at_x)
  | inr other ↦ find_refresh-IsHeldBy id hash rest r h.1 (ground (arith, e, other))
]

rotate-IsSpent :
    (env : AuthEnv) (tick now : ℕ) (id hash : String) (rows : List SessionRow)
    → env.hash (env.rand "rtok_" tick) ≢ hash
    → IsHeldBy id hash rows
    → IsSpent hash (rotate env tick now id rows)
unfolding rotate
rotate-IsSpent env tick now id hash [] fresh h = tt
rotate-IsSpent env tick now id hash (r ∷ rest) fresh h = elim (Bool-cases (r.id == id)) [
  | inl same ↦ elim (Bool-cases r.revoked) [
    | inl dead ↦ rw (same, dead) (inr refl, rotate-IsSpent env tick now id hash rest fresh h.1)
    | inr alive ↦ rw (same, alive) (inl fresh, rotate-IsSpent env tick now id hash rest fresh h.1)
  ]
  | inr other ↦ rw other (
    inl (λ e. ground (arith, other, (eq_iff r.id id).1 (h.0 e))),
    rotate-IsSpent env tick now id hash rest fresh h.1,
  )
]

spent-find_refresh :
    (hash : String) (rows : List SessionRow) (r : SessionRow)
    → IsSpent hash rows
    → find_refresh hash rows ≡ some r
    → r.revoked ≡ true
unfolding find_refresh
spent-find_refresh hash [] r h e = ground (arith, e)
spent-find_refresh hash (x ∷ rest) r h e = elim (Bool-cases (x.refresh_hash == hash)) [
  | inr other ↦ spent-find_refresh hash rest r h.1 (ground (arith, e, other))
  | inl same ↦ elim h.0 [
    | inl ne ↦ absurd (ne ((eq_iff x.refresh_hash hash).0 same))
    | inr dead ↦ ground (arith, e, same, dead)
  ]
]

-- The row that is read is the one that is found, if any.
read_refresh-found :
    (env : AuthEnv) (a : Auth) (token : String) (r : SessionRow)
    → read_refresh env a token ≡ some r
    → find_refresh (env.hash token) a.sessions ≡ some r
unfolding read_refresh
read_refresh-found env a token r e =
    elim (Option-cases (find_refresh (env.hash token) a.sessions)) [
      | inl nothing ↦ ground (arith, e, nothing)
      | inr (x, at_x) ↦ ground (arith, e, at_x)
    ]

-- A spent token is refused.
spent-handle_refresh :
    (env : AuthEnv) (token : String) (a : Auth)
    → (token == "") ≡ false
    → IsSpent (env.hash token) a.sessions
    → (handle_refresh env token a).0 ≡ invalid_refresh
unfolding handle_refresh refresh_row
spent-handle_refresh env token a there spent = elim (Option-cases (read_refresh env a token)) [
  | inl nothing ↦ rw (there, nothing) refl
  | inr (r, at_r) ↦
      rw
        (
          there,
          at_r,
          spent-find_refresh (env.hash token) a.sessions r spent
              (read_refresh-found env a token r at_r),
        )
        refl
]

abbrev Spends : String → AuthReply × Auth → Type 0
Spends hash (issued i, a) = IsSpent hash a.sessions
Spends hash (invalid_request, a) = Unit
Spends hash (internal, a) = Unit
Spends hash (invalid_credentials, a) = Unit
Spends hash (invalid_refresh, a) = Unit
Spends hash (no_content, a) = Unit
Spends hash (rate_limited n, a) = Unit

rotate_session-Spends :
    (env : AuthEnv) (hash : String) (r : SessionRow) (a : Auth)
    → env.hash (env.rand "rtok_" a.tick) ≢ hash
    → IsHeldBy r.id hash a.sessions
    → Spends hash (rotate_session env r a)
unfolding rotate_session answer_of
rotate_session-Spends env hash r a fresh held = elim (Bool-cases (env.fails a.tick)) [
  | inl down ↦ rw down tt
  | inr up ↦ elim (Bool-cases (has_live r.id a.sessions)) [
    | inl alive ↦
        rw (up, alive) (rotate-IsSpent env a.tick (env.now a.tick) r.id hash a.sessions fresh held)
    | inr dead ↦ rw (up, dead) tt
  ]
]

handle_refresh-Spends :
    (env : AuthEnv) (token id : String) (a : Auth)
    → env.hash (env.rand "rtok_" (a.tick + 1)) ≢ env.hash token
    → IsHeldBy id (env.hash token) a.sessions
    → Spends (env.hash token) (handle_refresh env token a)
unfolding handle_refresh refresh_row
handle_refresh-Spends env token id a fresh held = elim (Bool-cases (token == "")) [
  | inl empty ↦ rw empty tt
  | inr there ↦ elim (Option-cases (read_refresh env a token)) [
    | inl nothing ↦ rw (there, nothing) tt
    | inr (r, at_r) ↦ elim (Bool-cases (r.revoked || expired env (env.now (a.tick + 1)) r)) [
      | inl over ↦ rw (there, at_r, over) tt
      | inr alive ↦
          rw (there, at_r, alive)
            (rotate_session-Spends env (env.hash token) r (ticked a) fresh (
              subst (λ i. IsHeldBy i (env.hash token) a.sessions)
                (sym (
                  find_refresh-IsHeldBy id (env.hash token) a.sessions r held
                    (read_refresh-found env a token r at_r)))
                held))
    ]
  ]
]

-- A refresh token works once: when it was exchanged, and the new one has another hash and all rows with
-- its hash belong to one session, it is refused when it is presented again, whether or not the database
-- fails.
pub handle_refresh-handle_refresh :
    (env : AuthEnv) (token id : String) (a a' : Auth) (i : Issued)
    → (token == "") ≡ false
    → env.hash (env.rand "rtok_" (a.tick + 1)) ≢ env.hash token
    → IsHeldBy id (env.hash token) a.sessions
    → handle_refresh env token a ≡ (issued i, a')
    → (handle_refresh env token a').0 ≡ invalid_refresh
handle_refresh-handle_refresh env token id a a' i there fresh held exchanged =
    spent-handle_refresh env token a' there
      (subst (Spends (env.hash token)) exchanged (handle_refresh-Spends env token id a fresh held))
