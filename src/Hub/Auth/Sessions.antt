-- ===== src/Hub/Auth/Sessions.antt =====
-- hub/auth.go: sessions. The clock, the random tokens, SHA-256, bcrypt and `strings.TrimSpace` are
-- library functions; the n-th reading of a clock, token or id is answered by `AuthEnv`, as is
-- whether the n-th statement fails. Times are in nanoseconds.
use sakura_assistant.Base.{
  ℕ, ◌+◌, ◌*◌, String, Option, none, some, Bool, false, not, ◌&&◌, ◌||◌, List, [], ◌∷◌, ◌++◌, ◌==◌,
  ltb, if◌then◌else◌,
}
use Prim.Native.String.{◌++◌ as text_append, len, slice}
use text.Mathlib.Text.{starts_with}
use sakura_assistant.Hub.Types.{SourceRow}
use sakura_assistant.Hub.Auth.Limiter.{Hits, allow}

pub record AuthEnv : Type 0 where
  pub now : ℕ → ℕ
  pub rand : String → ℕ → String
  pub fresh : String → ℕ → String
  pub fails : ℕ → Bool
  pub hash : String → String
  pub compare_password : String → String → Bool
  pub trim : String → String
  pub fmt_ts : ℕ → String
  pub parse_ts : String → Option ℕ

pub record AuthConfig : Type 0 where
  pub admin_user : String
  pub admin_hash : String

-- A row of the table sessions.
pub record SessionRow : Type 0 where
  pub id : String
  pub token_hash : String
  pub refresh_hash : String
  pub username : String
  pub device_label : Option String
  pub created_at : String
  pub expires_at : String
  pub refresh_expires_at : String
  pub revoked : Bool

pub record Auth : Type 0 where
  pub sessions : List SessionRow
  pub hits : List Hits
  pub tick : ℕ

pub record Session : Type 0 where
  pub id : String
  pub username : String
  pub device_label : Option String
  pub expires_at : ℕ

pub record Issued : Type 0 where
  pub token : String
  pub expires_at : String
  pub refresh_token : String
  pub username : String
  pub server_time : String

-- The error envelopes by their codes.
pub data AuthReply : Type 0 where
  issued : Issued → AuthReply
  invalid_request internal invalid_credentials invalid_refresh no_content : AuthReply
  rate_limited : ℕ → AuthReply

abbrev pub token_ttl : ℕ
token_ttl = 30 * 24 * 3600 * 1000000000

abbrev pub refresh_ttl : ℕ
refresh_ttl = 90 * 24 * 3600 * 1000000000

-- `r.Header.Get` gives "" for a header that is not there.
unfoldable pub bearer_token : AuthEnv → String → String
bearer_token env header =
    if starts_with header "Bearer " then env.trim (slice header 7 (len header)) else ""

-- `SELECT ... WHERE token_hash=? AND revoked=0`
unfoldable pub find_token : String → List SessionRow → Option SessionRow
find_token hash [] = none
find_token hash (r ∷ rest) =
    if r.token_hash == hash && not r.revoked then some r else find_token hash rest

-- `SELECT ... WHERE refresh_hash=?`
unfoldable pub find_refresh : String → List SessionRow → Option SessionRow
find_refresh hash [] = none
find_refresh hash (r ∷ rest) = if r.refresh_hash == hash then some r else find_refresh hash rest

-- A session, no session, or an error.
pub data Lookup : Type 0 where
  found : Session → Lookup
  missing broken : Lookup

abbrev pub live : SessionRow → ℕ → ℕ → Lookup
live r now expires =
    if ltb expires now
    then missing
    else found (record {
      id = r.id;
      username = r.username;
      device_label = r.device_label;
      expires_at = expires;
    })

abbrev pub session_of : AuthEnv → ℕ → Option SessionRow → Lookup
session_of env now none = missing
session_of env now (some r) = elim (env.parse_ts r.expires_at) [
  | none ↦ broken
  | some expires ↦ live r now expires
]

-- `clientSession` at the time `now`, for a header.
unfoldable pub client_session : AuthEnv → Auth → ℕ → String → Lookup
client_session env a now header =
    if bearer_token env header == ""
    then missing
    else if env.fails a.tick
    then broken
    else session_of env now (find_token (env.hash (bearer_token env header)) a.sessions)

-- Where `requireClient` leads.
pub data Gate : Type 0 where
  enter : Session → Gate
  unauthorized server_error : Gate

unfoldable pub require_client : AuthEnv → Auth → ℕ → String → Gate
require_client env a now header = elim (client_session env a now header) [
  | found s ↦ enter s
  | missing ↦ unauthorized
  | broken ↦ server_error
]

-- `loadSourceByKeyHash`
unfoldable pub find_key : String → List SourceRow → Option SourceRow
find_key hash [] = none
find_key hash (src ∷ rest) =
    let others = find_key hash rest in
    elim src.deleted_at [
      | some _ ↦ others
      | none ↦ if src.key_hash == hash then some src else others
    ]

-- Where `sourceKeyAuth` leads.
pub data SourceGate : Type 0 where
  enter : SourceRow → SourceGate
  unauthorized server_error source_disabled : SourceGate

abbrev pub key_gate : Option SourceRow → SourceGate
key_gate none = SourceGate.unauthorized
key_gate (some src) = if src.enabled then SourceGate.enter src else source_disabled

unfoldable pub source_key_auth : AuthEnv → Auth → List SourceRow → String → SourceGate
source_key_auth env a sources header =
    if bearer_token env header == ""
    then SourceGate.unauthorized
    else if env.fails a.tick
    then SourceGate.server_error
    else key_gate (find_key (env.hash (bearer_token env header)) sources)

abbrev label_of : String → Option String
label_of s = if s == "" then none else some s

-- `issueSession`: the row, and the answer.
unfoldable pub new_session : AuthEnv → ℕ → ℕ → String → String → SessionRow
new_session env tick now username label = record {
  id = env.fresh "ses_" tick;
  token_hash = env.hash (env.rand "tok_" tick);
  refresh_hash = env.hash (env.rand "rtok_" tick);
  username = username;
  device_label = label_of label;
  created_at = env.fmt_ts now;
  expires_at = env.fmt_ts (now + token_ttl);
  refresh_expires_at = env.fmt_ts (now + refresh_ttl);
  revoked = false;
}

unfoldable pub answer_of : AuthEnv → ℕ → ℕ → String → AuthReply
answer_of env tick now username = issued (record {
  token = env.rand "tok_" tick;
  expires_at = env.fmt_ts (now + token_ttl);
  refresh_token = env.rand "rtok_" tick;
  username = username;
  server_time = env.fmt_ts now;
})

abbrev pub ticked : Auth → Auth
ticked a = record a { tick = a.tick + 1 }

unfoldable pub issue_session : AuthEnv → String → String → Auth → AuthReply × Auth
issue_session env username label a =
    let now = env.now a.tick in
    if env.fails a.tick then (internal, ticked a) else (
      answer_of env a.tick now username,
      record a {
        sessions = a.sessions ++ new_session env a.tick now username label ∷ [];
        tick = a.tick + 1;
      },
    )

unfoldable pub check_password : AuthEnv → AuthConfig → String → Bool
check_password env c password =
    if c.admin_hash == "" then false else env.compare_password c.admin_hash password

pub record LoginReq : Type 0 where
  pub username : String
  pub password : String
  pub device_label : String

-- The part of `handleLogin` after the limiter.
unfoldable pub log_in : AuthEnv → AuthConfig → LoginReq → Auth → AuthReply × Auth
log_in env c req a =
    if not (req.username == c.admin_user) || not (check_password env c req.password)
    then (invalid_credentials, a)
    else issue_session env req.username req.device_label a

-- `handleLogin`, after the body is decoded, for the address `ip`. The limiter reads the clock.
unfoldable pub handle_login : AuthEnv → AuthConfig → String → LoginReq → Auth → AuthReply × Auth
handle_login env c ip req a =
    if req.username == "" || req.password == ""
    then (invalid_request, a)
    else if ltb 100 (len req.device_label)
    then (invalid_request, a)
    else let key = text_append ip (text_append "|" req.username) in
      let r = allow key (env.now a.tick) a.hits in
      let a' = record a { hits = r.1; tick = a.tick + 1 } in
      if r.0.allowed then log_in env c req a' else (rate_limited r.0.retry, a')
