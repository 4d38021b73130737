-- ===== src/Hub/Auth/Login.antt =====
-- hub/auth.go, handleLogin, handleRefresh and handleLogout: the sessions that a login makes.
use sakura_assistant.Base.{
  ℕ, ◌+◌, String, ◌≡◌, ◌≢◌, refl, Option, none, some, false, not, ◌&&◌, ◌||◌, List, [], ◌∷◌, ◌++◌,
  ◌==◌, ltb, arith, inl, inr, Bool-cases, Option-cases, eq_iff, eq_refl,
}
use Prim.Native.String.{◌++◌ as text_append, len}
use mathlib.Core.Path.{subst}
use sakura_assistant.Hub.Auth.Limiter.{allow}
use sakura_assistant.Hub.Auth.Sessions.{
  AuthEnv, AuthConfig, SessionRow, Auth, Session, Issued, AuthReply, issued, invalid_request,
  internal, invalid_credentials, invalid_refresh, no_content, rate_limited, find_token,
  find_refresh, Lookup, found, missing, broken, live, session_of, bearer_token, client_session,
  new_session, answer_of, issue_session, LoginReq, log_in, handle_login, check_password,
}
use sakura_assistant.Hub.Auth.Refresh.{
  read_refresh, handle_refresh, refresh_row, revoke, handle_logout,
}

find_refresh-append :
    (hash : String) (rows : List SessionRow) (r : SessionRow)
    → find_refresh hash rows ≡ none
    → r.refresh_hash ≡ hash
    → find_refresh hash (rows ++ r ∷ []) ≡ some r
unfolding find_refresh
find_refresh-append hash [] r none_yet holds = rw (holds, eq_refl hash) refl
find_refresh-append hash (x ∷ rows) r none_yet holds = elim (Bool-cases (x.refresh_hash == hash)) [
  | inl same ↦ ground (arith, none_yet, same)
  | inr other ↦ rw other (find_refresh-append hash rows r (ground (arith, none_yet, other)) holds)
]

-- The answers that issue a session whose refresh token finds a row with no label.
abbrev HasNoLabel : AuthEnv → List SessionRow → AuthReply × Auth → Type 0
HasNoLabel env before (issued i, a) =
    find_refresh (env.hash i.refresh_token) before ≡ none
    → (r : SessionRow) × (find_refresh (env.hash i.refresh_token) a.sessions ≡ some r)
      × (r.device_label ≡ none)
HasNoLabel env before (invalid_request, a) = Unit
HasNoLabel env before (internal, a) = Unit
HasNoLabel env before (invalid_credentials, a) = Unit
HasNoLabel env before (invalid_refresh, a) = Unit
HasNoLabel env before (no_content, a) = Unit
HasNoLabel env before (rate_limited n, a) = Unit

issue_session-HasNoLabel :
    (env : AuthEnv) (username : String) (a : Auth)
    → HasNoLabel env a.sessions (issue_session env username "" a)
unfolding issue_session answer_of new_session
issue_session-HasNoLabel env username a = elim (Bool-cases (env.fails a.tick)) [
  | inl down ↦ rw down tt
  | inr up ↦ rw up (λ new. (
    new_session env a.tick (env.now a.tick) username "",
    find_refresh-append (env.hash (env.rand "rtok_" a.tick)) a.sessions _ new refl,
    refl,
  ))
]

log_in-HasNoLabel :
    (env : AuthEnv) (c : AuthConfig) (req : LoginReq) (a : Auth)
    → req.device_label ≡ ""
    → HasNoLabel env a.sessions (log_in env c req a)
unfolding log_in
log_in-HasNoLabel env c req a unlabelled =
    elim (Bool-cases
      (not (req.username == c.admin_user) || not (check_password env c req.password))) [
        | inl wrong ↦ rw wrong tt
        | inr right ↦ rw (right, unlabelled) (issue_session-HasNoLabel env req.username a)
      ]

handle_login-HasNoLabel :
    (env : AuthEnv) (c : AuthConfig) (ip : String) (req : LoginReq) (a : Auth)
    → req.device_label ≡ ""
    → HasNoLabel env a.sessions (handle_login env c ip req a)
unfolding handle_login
handle_login-HasNoLabel env c ip req a unlabelled =
    elim (Bool-cases (req.username == "" || req.password == "")) [
      | inl incomplete ↦ rw incomplete tt
      | inr complete ↦ elim (Bool-cases (ltb 100 (len req.device_label))) [
        | inl long ↦ rw (complete, long) tt
        | inr short ↦
            let key = text_append ip (text_append "|" req.username) in
            let r = allow key (env.now a.tick) a.hits in
            let a' = record a { hits = r.1; tick = a.tick + 1 } in
            elim (Bool-cases (allow key (env.now a.tick) a.hits).0.allowed) [
              | inl ok ↦ rw (complete, short, ok) (log_in-HasNoLabel env c req a' unlabelled)
              | inr much ↦ rw (complete, short, much) tt
            ]
      ]
    ]

-- A row with no label is not read.
unlabelled-handle_refresh :
    (env : AuthEnv) (token : String) (a : Auth) (r : SessionRow)
    → (token == "") ≡ false
    → find_refresh (env.hash token) a.sessions ≡ some r
    → r.device_label ≡ none
    → (handle_refresh env token a).0 ≡ invalid_refresh
unfolding handle_refresh read_refresh refresh_row
unlabelled-handle_refresh env token a r there at_r unlabelled =
    elim (Bool-cases (env.fails a.tick)) [
      | inl down ↦ rw (there, down) refl
      | inr up ↦ rw (there, up, at_r, unlabelled) refl
    ]

-- A session whose login named no device cannot be refreshed: its own refresh token, which no older row
-- has the hash of, is refused, at any time and whether or not the database fails.
pub handle_login-handle_refresh :
    (env : AuthEnv) (c : AuthConfig) (ip : String) (req : LoginReq) (a a' : Auth) (i : Issued)
    → req.device_label ≡ ""
    → handle_login env c ip req a ≡ (issued i, a')
    → (i.refresh_token == "") ≡ false
    → find_refresh (env.hash i.refresh_token) a.sessions ≡ none
    → (handle_refresh env i.refresh_token a').0 ≡ invalid_refresh
handle_login-handle_refresh env c ip req a a' i unlabelled logged_in there new =
    let h =
      subst (HasNoLabel env a.sessions) logged_in
        (handle_login-HasNoLabel env c ip req a unlabelled) new in
    unlabelled-handle_refresh env i.refresh_token a' h.0 there h.1 h.2

-- The session of a lookup, if any, is another.
abbrev pub IsNot : String → Lookup → Type 0
IsNot id (found s) = s.id ≢ id
IsNot id missing = Unit
IsNot id broken = Unit

abbrev RowIsNot : String → Option SessionRow → Type 0
RowIsNot id none = Unit
RowIsNot id (some r) = r.id ≢ id

find_token-revoke :
    (id hash : String) (rows : List SessionRow) → RowIsNot id (find_token hash (revoke id rows))
unfolding find_token revoke
find_token-revoke id hash [] = tt
find_token-revoke id hash (r ∷ rest) = elim (Bool-cases (r.id == id)) [
  | inl same ↦ elim (Bool-cases (r.token_hash == hash)) [
    | inl ours ↦ rw (same, ours) (find_token-revoke id hash rest)
    | inr others ↦ rw (same, others) (find_token-revoke id hash rest)
  ]
  | inr other ↦ elim (Bool-cases (r.token_hash == hash && not r.revoked)) [
    | inl ours ↦ rw (other, ours) (λ e. ground (arith, other, (eq_iff r.id id).1 e))
    | inr others ↦ rw (other, others) (find_token-revoke id hash rest)
  ]
]

live-IsNot :
    (r : SessionRow) (now expires : ℕ) (id : String) → r.id ≢ id → IsNot id (live r now expires)
live-IsNot r now expires id h = elim (Bool-cases (ltb expires now)) [
  | inl over ↦ rw (live, over) tt
  | inr alive ↦ rw (live, alive) h
]

session_of-IsNot :
    (env : AuthEnv) (now : ℕ) (id : String) (o : Option SessionRow)
    → RowIsNot id o
    → IsNot id (session_of env now o)
session_of-IsNot env now id none h = tt
session_of-IsNot env now id (some r) h = elim (Option-cases (env.parse_ts r.expires_at)) [
  | inl bad ↦ rw (session_of, bad) tt
  | inr (t, good) ↦ rw (session_of, good) (live-IsNot r now t id h)
]

-- After a logout whose statement succeeds, no header opens the session any more, at any time.
pub handle_logout-client_session :
    (env : AuthEnv) (s : Session) (a : Auth) (now : ℕ) (header : String)
    → env.fails a.tick ≡ false
    → IsNot s.id (client_session env (handle_logout env s a).1 now header)
unfolding handle_logout client_session
handle_logout-client_session env s a now header up =
    elim (Bool-cases (bearer_token env header == "")) [
      | inl empty ↦ rw (up, empty) tt
      | inr there ↦ elim (Bool-cases (env.fails (a.tick + 1))) [
        | inl down ↦ rw (up, there, down) tt
        | inr up' ↦
            rw (up, there, up')
              (session_of-IsNot env now s.id
                (find_token (env.hash (bearer_token env header)) (revoke s.id a.sessions))
                (find_token-revoke s.id (env.hash (bearer_token env header)) a.sessions))
      ]
    ]
