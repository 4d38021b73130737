-- ===== src/Hub/Admin/Sources.antt =====
-- hub/admin.go: sources are made, changed, given new keys and deleted. A random token, SHA-256 and
-- `validAttachmentBaseURL`, which asks net/url, are parameters. The answers that print a source have
-- its row; the installation notes are left out. `aborted` is the failure of a transaction.
use sakura_assistant.Base.{
  ℕ, ◌+◌, ◌-◌, String, Option, none, some, Bool, true, false, not, ◌&&◌, ◌||◌, [], ◌∷◌, ◌++◌, ◌==◌,
  ltb, length, drop, if◌then◌else◌,
}
use Prim.Native.String.{len, slice}
use text.Mathlib.TextBridge.{to_list, of_list}
use sakura_assistant.Hub.Types.{SourceRow}
use sakura_assistant.Hub.Store.{
  HubEnv, Hub, Tx, Error, bad_request, no_rows, unknown_action, constraint, statement, Result, ok,
  err, ◌>>=◌, ◌>>◌, return, throw, modify, now_ts, with_tx, find_source, update_source,
}
use sakura_assistant.Hub.Ingest.Events.{load_source, emit_source_change}

-- A field of a JSON object: not there, `null`, of another type, or a value.
pub data Field (A : Type 0) : Type 0 where
  absent is_null wrong : Field A
  is : A → Field A

pub record AdminEnv : Type 0 where
  pub hub : HubEnv
  pub rand : String → ℕ → String
  pub hash : String → String
  pub valid_url : String → Bool

pub data SourceReply : Type 0 where
  invalid not_found internal no_content : SourceReply
  created : SourceRow → String → SourceReply
  source_is : SourceRow → SourceReply
  key_is : String → SourceReply

-- `hintTail`
unfoldable pub hint_tail : String → String
hint_tail s =
    let rs = to_list s in
    if ltb 4 (length rs) then of_list (drop (length rs - 4) rs) else of_list rs

-- `key[len(key)-4:]`
abbrev pub last_four : String → String
last_four key = slice key (len key - 4) (len key)

abbrev pub and_then : Option SourceRow → (SourceRow → Option SourceRow) → Option SourceRow
and_then none f = none
and_then (some src) f = f src

unfoldable pub set_mgmt_key : Field String → SourceRow → Option SourceRow
set_mgmt_key absent src = some src
set_mgmt_key is_null src = some (record src { mgmt_key_plain = ""; mgmt_key_hint = "" })
set_mgmt_key wrong src = none
set_mgmt_key (is k) src =
    if k == "" || ltb 200 (len k)
    then none
    else some (record src { mgmt_key_plain = k; mgmt_key_hint = hint_tail k })

-- Only a source of kind feedback has a management key. A new source has none, so `null` leaves it so.
unfoldable pub with_mgmt_key : Field String → SourceRow → Option SourceRow
with_mgmt_key absent src = some src
with_mgmt_key is_null src = if src.kind == "feedback" then set_mgmt_key is_null src else none
with_mgmt_key wrong src = none
with_mgmt_key (is k) src = if src.kind == "feedback" then set_mgmt_key (is k) src else none

unfoldable pub with_name : Field String → SourceRow → Option SourceRow
with_name absent src = some src
with_name is_null src = none
with_name wrong src = none
with_name (is n) src = if n == "" then none else some (record src { name = n })

-- `json.Unmarshal` of `null` leaves the variable false.
unfoldable pub with_enabled : Field Bool → SourceRow → Option SourceRow
with_enabled absent src = some src
with_enabled is_null src = some (record src { enabled = false })
with_enabled wrong src = none
with_enabled (is b) src = some (record src { enabled = b })

abbrev pub text_or_null : String → Option String
text_or_null u = if u == "" then none else some u

module _ (env : AdminEnv) where
  unfoldable pub with_url : Field String → SourceRow → Option SourceRow
  with_url absent src = some src
  with_url is_null src = some (record src { attachment_base_url = none })
  with_url wrong src = none
  with_url (is u) src =
      if not (u == "") && not (env.valid_url u)
      then none
      else some (record src { attachment_base_url = text_or_null u })

  -- The decoded body of `handleSourceCreate`.
  pub record CreateReq : Type 0 where
    pub name : String
    pub kind : String
    pub attachment_base_url : Option String
    pub mgmt_key : Field String

  abbrev pub url_field : Option String → Field String
  url_field none = absent
  url_field (some u) = is u

  abbrev pub new_source : CreateReq → ℕ → SourceRow
  new_source req tick =
      let now = env.hub.fmt_ts (env.hub.now tick) in
      let key = env.rand "ask_" tick in
      record {
        id = env.hub.fresh "src_" tick;
        name = req.name;
        kind = req.kind;
        enabled = true;
        key_hash = env.hash key;
        key_plain = key;
        key_hint = last_four key;
        mgmt_key_plain = "";
        mgmt_key_hint = "";
        attachment_base_url = none;
        last_seen_at = none;
        last_metrics_seq = 0;
        last_event_seq = 0;
        last_boot_time = none;
        deleted_at = none;
        created_at = now;
        updated_at = now;
      }

  unfoldable pub create_source : SourceRow → Tx SourceRow
  create_source src = do
    modify (λ s. record s { sources = s.sources ++ src ∷ [] })
    emit_source_change env.hub src
    return src

  abbrev pub create_reply : Result SourceRow × Hub → SourceReply × Hub
  create_reply (ok src, s) = (created src src.key_plain, s)
  create_reply (err e, s) = (internal, s)

  abbrev pub create_checked : Bool → Option SourceRow → Hub → SourceReply × Hub
  create_checked aborted none s = (invalid, s)
  create_checked aborted (some src) s = create_reply (with_tx aborted (create_source src) s)

  unfoldable pub handle_source_create : Bool → CreateReq → Hub → SourceReply × Hub
  handle_source_create aborted req s =
      if req.name == ""
      then (invalid, s)
      else if not (req.kind == "device") && not (req.kind == "feedback")
      then (invalid, s)
      else create_checked aborted
          (and_then (with_url (url_field req.attachment_base_url) (new_source req s.tick))
            (with_mgmt_key req.mgmt_key))
          (record s { tick = s.tick + 1 })

  -- A source that is deleted is not found.
  unfoldable pub live_source : SourceRow → Tx SourceRow
  live_source src = elim src.deleted_at [ none ↦ return src | some _ ↦ throw no_rows ]

  unfoldable pub load_live : String → Tx SourceRow
  load_live id = load_source id >>= live_source

  unfoldable pub handle_source_get : Bool → String → Hub → SourceReply
  handle_source_get fails id s = if fails then internal else elim (find_source id s.sources) [
    | none ↦ not_found
    | some src ↦ elim src.deleted_at [ none ↦ source_is src | some _ ↦ not_found ]
  ]

  pub record Patch : Type 0 where
    pub name : Field String
    pub enabled : Field Bool
    pub attachment_base_url : Field String
    pub mgmt_key : Field String

  unfoldable pub patched : Patch → SourceRow → Option SourceRow
  patched p src =
      and_then
        (and_then (and_then (with_name p.name src) (with_enabled p.enabled))
          (with_url p.attachment_base_url))
        (with_mgmt_key p.mgmt_key)

  -- The row is written, and broadcast as it was changed in memory.
  unfoldable pub write_source : Option SourceRow → Tx SourceRow
  write_source none = throw (bad_request "source")
  write_source (some src) = now_ts env.hub >>= (λ now.
      let new : SourceRow = record src { updated_at = now } in
      modify (λ s. record s {
        sources =
            update_source src.id
              (λ r. record r {
                name = new.name;
                enabled = new.enabled;
                attachment_base_url = new.attachment_base_url;
                mgmt_key_plain = new.mgmt_key_plain;
                mgmt_key_hint = new.mgmt_key_hint;
                updated_at = now;
              })
              s.sources;
      })
      >> emit_source_change env.hub new
      >> return new)

  abbrev pub error_reply : Error → SourceReply
  error_reply (bad_request message) = invalid
  error_reply no_rows = not_found
  error_reply (unknown_action action) = internal
  error_reply (constraint name) = internal
  error_reply statement = internal

  abbrev pub patch_reply : Result SourceRow × Hub → SourceReply × Hub
  patch_reply (ok src, s) = (source_is src, s)
  patch_reply (err e, s) = (error_reply e, s)

  unfoldable pub handle_source_patch : Bool → String → Patch → Hub → SourceReply × Hub
  handle_source_patch aborted id p s =
      patch_reply (with_tx aborted (load_live id >>= (λ src. write_source (patched p src))) s)
