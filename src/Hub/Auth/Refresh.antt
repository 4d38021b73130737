-- ===== src/Hub/Auth/Refresh.antt =====
-- hub/auth.go, handleRefresh and handleLogout: a session gets new tokens, or is revoked.
use sakura_assistant.Base.{
  ℕ, ◌+◌, String, Option, none, some, Bool, true, false, not, ◌&&◌, ◌||◌, List, [], ◌∷◌, ◌==◌, ltb,
  if◌then◌else◌,
}
use sakura_assistant.Hub.Auth.Sessions.{
  AuthEnv, SessionRow, Auth, Session, AuthReply, invalid_request, internal, invalid_refresh,
  no_content, token_ttl, refresh_ttl, find_refresh, answer_of, ticked,
}

-- `Scan` into a `string` is an error when the column is NULL.
abbrev pub scan_text : Option String → Option String
scan_text o = o

-- The row that the first statement of `handleRefresh` reads: `none` when it fails.
unfoldable pub read_refresh : AuthEnv → Auth → String → Option SessionRow
read_refresh env a token =
    if env.fails a.tick then none else elim (find_refresh (env.hash token) a.sessions) [
      | none ↦ none
      | some r ↦ elim (scan_text r.device_label) [ none ↦ none | some _ ↦ some r ]
    ]

-- `UPDATE sessions SET ... WHERE id=? AND revoked=0`, and whether a row is affected.
unfoldable pub rotate : AuthEnv → ℕ → ℕ → String → List SessionRow → List SessionRow
rotate env tick now id [] = []
rotate env tick now id (r ∷ rest) =
    let others = rotate env tick now id rest in
    (if r.id == id && not r.revoked
      then record r {
        token_hash = env.hash (env.rand "tok_" tick);
        refresh_hash = env.hash (env.rand "rtok_" tick);
        expires_at = env.fmt_ts (now + token_ttl);
        refresh_expires_at = env.fmt_ts (now + refresh_ttl);
      }
      else r)
    ∷ others

unfoldable pub has_live : String → List SessionRow → Bool
has_live id [] = false
has_live id (r ∷ rest) = r.id == id && not r.revoked || has_live id rest

-- The rotation, in its statement's place.
unfoldable pub rotate_session : AuthEnv → SessionRow → Auth → AuthReply × Auth
rotate_session env r a =
    let now = env.now a.tick in
    if env.fails a.tick
    then (internal, ticked a)
    else if has_live r.id a.sessions
    then (
      answer_of env a.tick now r.username,
      record a { sessions = rotate env a.tick now r.id a.sessions; tick = a.tick + 1 },
    )
    else (invalid_refresh, ticked a)

abbrev pub expired : AuthEnv → ℕ → SessionRow → Bool
expired env now r = elim (env.parse_ts r.refresh_expires_at) [ none ↦ true | some t ↦ ltb t now ]

unfoldable pub refresh_row : AuthEnv → Option SessionRow → Auth → AuthReply × Auth
refresh_row env none a = (invalid_refresh, a)
refresh_row env (some r) a =
    if r.revoked || expired env (env.now a.tick) r
    then (invalid_refresh, a)
    else rotate_session env r a

-- `handleRefresh`, after the body is decoded. Its SELECT and its UPDATE are two statements and no
-- transaction; here no statement of another request comes between them.
unfoldable pub handle_refresh : AuthEnv → String → Auth → AuthReply × Auth
handle_refresh env token a =
    if token == ""
    then (invalid_request, a)
    else refresh_row env (read_refresh env a token) (ticked a)

unfoldable pub revoke : String → List SessionRow → List SessionRow
revoke id [] = []
revoke id (r ∷ rest) =
    let others = revoke id rest in (if r.id == id then record r { revoked = true } else r) ∷ others

-- `handleLogout` of a session: the answer is the same when the statement fails.
unfoldable pub handle_logout : AuthEnv → Session → Auth → AuthReply × Auth
handle_logout env s a = (
  no_content,
  if env.fails a.tick
      then ticked a
      else record a { sessions = revoke s.id a.sessions; tick = a.tick + 1 },
)
