-- ===== src/Hub/Admin/Shut.antt =====
-- hub/admin.go, handleSourceRotateKey and handleSourceDelete, with hub/auth.go, sourceKeyAuth: keys that
-- no longer open a source.
use sakura_assistant.Base.{
  ◌+◌, String, ◌≡◌, ◌≢◌, refl, Option, none, some, Bool, true, false, ◌⊎◌, inl, inr, List, [], ◌∷◌,
  ◌==◌, All, Bool-cases, Option-cases, eq_iff, arith,
}
use mathlib.Core.Path.{subst}
use sakura_assistant.Hub.Types.{SourceRow}
use sakura_assistant.Hub.Store.{
  Hub, Error, Result, ok, err, ◌>>=◌, kept, with_tx, find_source, update_source, insert_change_obj,
  next_change_seq, bad_request, no_rows, unknown_action, constraint, statement,
}
use sakura_assistant.Hub.Ensures.{Post, Ensures, Ensures-bind}
use sakura_assistant.Hub.Ingest.Events.{load_source, emit_source_change}
use sakura_assistant.Hub.Retention.Run.{insert_tombstone}
use sakura_assistant.Hub.Auth.Sessions.{
  AuthEnv, Auth, SourceGate, source_disabled, bearer_token, find_key, key_gate, source_key_auth,
}
use sakura_assistant.Hub.Admin.Sources.{
  AdminEnv, SourceReply, invalid, not_found, internal, no_content, created, source_is, key_is,
  live_source, load_live, error_reply,
}
use sakura_assistant.Hub.Admin.Keys.{
  keyed, write_key, rotated, handle_source_rotate_key, removed, remove_source, delete_reply,
  handle_source_delete,
}

-- A row with the id is deleted, or its key has another hash.
abbrev IsShutRow : String → SourceRow → Type 0
IsShutRow hash r = ((t : String) × (r.deleted_at ≡ some t)) ⊎ (r.key_hash ≢ hash)

abbrev IsShut : String → String → List SourceRow → Type 0
IsShut id hash rows = All (λ r. r.id ≡ id → IsShutRow hash r) rows

-- The request does not go on as the source.
abbrev pub NotEntered : String → SourceGate → Type 0
NotEntered id (SourceGate.enter src) = src.id ≢ id
NotEntered id SourceGate.unauthorized = Unit
NotEntered id SourceGate.server_error = Unit
NotEntered id source_disabled = Unit

abbrev KeyIsNot : String → Option SourceRow → Type 0
KeyIsNot id none = Unit
KeyIsNot id (some r) = r.id ≢ id

find_key-KeyIsNot :
    (id hash : String) (rows : List SourceRow)
    → IsShut id hash rows
    → KeyIsNot id (find_key hash rows)
unfolding find_key
find_key-KeyIsNot id hash [] h = tt
find_key-KeyIsNot id hash (r ∷ rest) h = elim (Option-cases r.deleted_at) [
  | inr (t, gone) ↦ rw gone (find_key-KeyIsNot id hash rest h.1)
  | inl here ↦ elim (Bool-cases (r.key_hash == hash)) [
    | inr other ↦ rw (here, other) (find_key-KeyIsNot id hash rest h.1)
    | inl same ↦
        rw (here, same)
          (λ e. elim (h.0 e) [
            | inl (t, gone) ↦ ground (arith, gone, here)
            | inr ne ↦ ne ((eq_iff r.key_hash hash).0 same)
          ])
  ]
]

key_gate-NotEntered :
    (id : String) (o : Option SourceRow) → KeyIsNot id o → NotEntered id (key_gate o)
key_gate-NotEntered id none h = tt
key_gate-NotEntered id (some r) h = elim (Bool-cases r.enabled) [
  | inl on ↦ rw (key_gate, on) h
  | inr off ↦ rw (key_gate, off) tt
]

source_key_auth-NotEntered :
    (door : AuthEnv) (a : Auth) (id header : String) (rows : List SourceRow)
    → IsShut id (door.hash (bearer_token door header)) rows
    → NotEntered id (source_key_auth door a rows header)
unfolding source_key_auth
source_key_auth-NotEntered door a id header rows h =
    elim (Bool-cases (bearer_token door header == "")) [
      | inl empty ↦ rw empty tt
      | inr there ↦ elim (Bool-cases (door.fails a.tick)) [
        | inl down ↦ rw (there, down) tt
        | inr up ↦
            rw (there, up)
              (key_gate-NotEntered id (find_key (door.hash (bearer_token door header)) rows)
                (find_key-KeyIsNot id (door.hash (bearer_token door header)) rows h))
      ]
    ]

update_source-IsShut :
    (id hash : String) (f : SourceRow → SourceRow) (rows : List SourceRow)
    → ((r : SourceRow) → IsShutRow hash (f r))
    → IsShut id hash (update_source id f rows)
unfolding update_source
update_source-IsShut id hash f [] h = tt
update_source-IsShut id hash f (r ∷ rest) h = elim (Bool-cases (r.id == id)) [
  | inl same ↦ rw (All, same) ((λ e. h r), update_source-IsShut id hash f rest h)
  | inr other ↦
      rw (All, other)
        ((λ e. ground (arith, other, (eq_iff r.id id).1 e)), update_source-IsShut id hash f rest h)
]

find_source-id :
    (id : String) (rows : List SourceRow) (src : SourceRow)
    → find_source id rows ≡ some src
    → src.id ≡ id
unfolding find_source
find_source-id id [] src e = ground (arith, e)
find_source-id id (r ∷ rest) src e = elim (Bool-cases (r.id == id)) [
  | inl same ↦ ground (arith, e, same, eq_iff r.id id)
  | inr other ↦ find_source-id id rest src (ground (arith, e, other))
]

abbrev IsNamed : String → SourceRow → Hub → Type 0
IsNamed id src s = src.id ≡ id

module _ (env : AdminEnv) where
  load_source-IsNamed : (id : String) → Ensures (λ _. Unit {0}) (load_source id) (IsNamed id)
  unfolding load_source
  load_source-IsNamed id = record {
    at = λ s h. elim (Option-cases (find_source id s.sources)) [
      | inl nothing ↦ rw (Post, nothing) tt
      | inr (src, at_src) ↦ rw (Post, at_src) (find_source-id id s.sources src at_src)
    ];
  }

  live_source-IsNamed :
      (id : String) (src : SourceRow) → Ensures (IsNamed id src) (live_source env src) (IsNamed id)
  unfolding live_source
  live_source-IsNamed id src = record {
    at = λ s named. elim (Option-cases src.deleted_at) [
      | inr (t, gone) ↦ rw (Post, gone) tt
      | inl here ↦ rw (Post, here) named
    ];
  }

  load_live-IsNamed : (id : String) → Ensures (λ _. Unit {0}) (load_live env id) (IsNamed id)
  unfolding load_live
  load_live-IsNamed id =
      Ensures-bind (IsNamed id) (load_source id) (live_source env) (load_source-IsNamed id)
        (live_source-IsNamed id)

  write_key-IsShut :
      (id hash key : String) (src : SourceRow)
      → env.hash key ≢ hash
      → Ensures (IsNamed id src) (write_key env key src) (λ _ s. IsShut id hash s.sources)
  unfolding write_key emit_source_change insert_change_obj next_change_seq
  write_key-IsShut id hash key src other = record {
    at = λ s named. rw named (
        update_source-IsShut id hash (keyed env key (env.hub.fmt_ts (env.hub.now s.tick))) s.sources
          (λ r. inr other));
  }

  remove_source-IsShut :
      (id hash : String) (src : SourceRow)
      → Ensures (IsNamed id src) (remove_source env src) (λ _ s. IsShut id hash s.sources)
  unfolding remove_source insert_tombstone insert_change_obj next_change_seq
  remove_source-IsShut id hash src = record {
    at = λ s named. rw named (
        update_source-IsShut id hash (removed env (env.hub.fmt_ts (env.hub.now s.tick))) s.sources
          (λ r. inl (env.hub.fmt_ts (env.hub.now s.tick), refl)));
  }

  -- A source key's hash is another after the answer with a new key.
  abbrev AfterKey : String → String → SourceReply × Hub → Type 0
  AfterKey id hash (key_is key, s) = env.hash key ≢ hash → IsShut id hash s.sources
  AfterKey id hash (no_content, s) = Unit
  AfterKey id hash (invalid, s) = Unit
  AfterKey id hash (not_found, s) = Unit
  AfterKey id hash (internal, s) = Unit
  AfterKey id hash (created src key, s) = Unit
  AfterKey id hash (source_is src, s) = Unit

  error-AfterKey :
      (id hash : String) (e : Error) (s : Hub) → AfterKey id hash (error_reply env e, s)
  error-AfterKey id hash (bad_request m) s = tt
  error-AfterKey id hash no_rows s = tt
  error-AfterKey id hash (unknown_action m) s = tt
  error-AfterKey id hash (constraint m) s = tt
  error-AfterKey id hash statement s = tt

  rotated-AfterKey :
      (lost : Bool) (id hash key : String) (s0 : Hub) (r : Result (Unit {0}) × Hub)
      → (env.hash key ≢ hash → Post (λ _ s. IsShut id hash s.sources) r)
      → AfterKey id hash (rotated env lost id key (kept s0 r))
  rotated-AfterKey lost id hash key s0 (err e, s) h = error-AfterKey id hash e _
  rotated-AfterKey true id hash key s0 (ok u, s) h = tt
  rotated-AfterKey false id hash key s0 (ok u, s) h =
      elim (Option-cases (find_source id s.sources)) [
        | inl nothing ↦ rw (AfterKey, rotated, nothing) tt
        | inr (src, at_src) ↦ elim (Option-cases src.deleted_at) [
          | inr (t, gone) ↦ rw (AfterKey, rotated, at_src, gone) tt
          | inl here ↦ rw (AfterKey, rotated, at_src, here) h
        ]
      ]

  rotate_key-AfterKey :
      (aborted lost : Bool) (id hash : String) (s : Hub)
      → AfterKey id hash (handle_source_rotate_key env aborted lost id s)
  unfolding handle_source_rotate_key with_tx
  rotate_key-AfterKey true lost id hash s = tt
  rotate_key-AfterKey false lost id hash s =
      let key = env.rand "ask_" s.tick in
      rotated-AfterKey lost id hash key (record s { tick = s.tick + 1 })
        ((load_live env id >>= write_key env key) (record s { tick = s.tick + 1 }))
        (λ other.
          (Ensures-bind (IsNamed id) (load_live env id) (write_key env key) (load_live-IsNamed id)
              (λ src. write_key-IsShut id hash key src other)).at
            (record s { tick = s.tick + 1 }) tt)

  abbrev AfterDelete : String → String → SourceReply × Hub → Type 0
  AfterDelete id hash (no_content, s) = IsShut id hash s.sources
  AfterDelete id hash (key_is key, s) = Unit
  AfterDelete id hash (invalid, s) = Unit
  AfterDelete id hash (not_found, s) = Unit
  AfterDelete id hash (internal, s) = Unit
  AfterDelete id hash (created src key, s) = Unit
  AfterDelete id hash (source_is src, s) = Unit

  error-AfterDelete :
      (id hash : String) (e : Error) (s : Hub) → AfterDelete id hash (error_reply env e, s)
  error-AfterDelete id hash (bad_request m) s = tt
  error-AfterDelete id hash no_rows s = tt
  error-AfterDelete id hash (unknown_action m) s = tt
  error-AfterDelete id hash (constraint m) s = tt
  error-AfterDelete id hash statement s = tt

  reply-AfterDelete :
      (id hash : String) (s0 : Hub) (r : Result (Unit {0}) × Hub)
      → Post (λ _ s. IsShut id hash s.sources) r
      → AfterDelete id hash (delete_reply env (kept s0 r))
  reply-AfterDelete id hash s0 (err e, s) h = error-AfterDelete id hash e _
  reply-AfterDelete id hash s0 (ok u, s) h = h

  delete-AfterDelete :
      (aborted : Bool) (id hash : String) (s : Hub)
      → AfterDelete id hash (handle_source_delete env aborted id s)
  unfolding handle_source_delete with_tx
  delete-AfterDelete true id hash s = tt
  delete-AfterDelete false id hash s =
      reply-AfterDelete id hash s ((load_live env id >>= remove_source env) s) (
        (Ensures-bind (IsNamed id) (load_live env id) (remove_source env) (load_live-IsNamed id)
            (λ src. remove_source-IsShut id hash src)).at
          s tt)

-- Once a source's key was rotated, a request whose key has another hash than the new one does not go on
-- as that source.
pub handle_source_rotate_key-source_key_auth :
    (env : AdminEnv) (door : AuthEnv) (a : Auth) (aborted lost : Bool) (id key header : String)
    (s s' : Hub)
    → handle_source_rotate_key env aborted lost id s ≡ (key_is key, s')
    → env.hash key ≢ door.hash (bearer_token door header)
    → NotEntered id (source_key_auth door a s'.sources header)
handle_source_rotate_key-source_key_auth env door a aborted lost id key header s s' rotates other =
    let hash = door.hash (bearer_token door header) in
    source_key_auth-NotEntered door a id header s'.sources
      (subst (AfterKey env id hash) rotates (rotate_key-AfterKey env aborted lost id hash s) other)

-- Once a source was deleted, no request goes on as that source, whatever its key.
pub handle_source_delete-source_key_auth :
    (env : AdminEnv) (door : AuthEnv) (a : Auth) (aborted : Bool) (id header : String) (s s' : Hub)
    → handle_source_delete env aborted id s ≡ (no_content, s')
    → NotEntered id (source_key_auth door a s'.sources header)
handle_source_delete-source_key_auth env door a aborted id header s s' deletes =
    let hash = door.hash (bearer_token door header) in
    source_key_auth-NotEntered door a id header s'.sources
      (subst (AfterDelete env id hash) deletes (delete-AfterDelete env aborted id hash s))
