-- ===== src/Hub/Admin/Keys.antt =====
-- hub/admin.go: a source's keys are rotated, and a source is deleted.
use sakura_assistant.Base.{◌+◌, String, none, some, Bool, not, ◌==◌, if◌then◌else◌}
use sakura_assistant.Hub.Types.{SourceRow}
use sakura_assistant.Hub.Store.{
  Hub, Tx, no_rows, Result, ok, err, ◌>>=◌, ◌>>◌, throw, modify, now_ts, with_tx, find_source,
  update_source,
}
use sakura_assistant.Hub.Ingest.Events.{emit_source_change}
use sakura_assistant.Hub.Retention.Run.{insert_tombstone}
use sakura_assistant.Hub.Admin.Sources.{
  AdminEnv, SourceReply, not_found, no_content, key_is, last_four, load_live, error_reply,
}

module _ (env : AdminEnv) where
  abbrev pub keyed : String → String → SourceRow → SourceRow
  keyed key now src = record src {
    key_hash = env.hash key;
    key_plain = key;
    key_hint = last_four key;
    updated_at = now;
  }

  unfoldable pub write_key : String → SourceRow → Tx (Unit {0})
  write_key key src = now_ts env.hub >>= (λ now.
      modify (λ s. record s { sources = update_source src.id (keyed key now) s.sources })
      >> emit_source_change env.hub (keyed key now src))

  -- After the commit the source is read again, for the installation notes; `lost` is the failure of that.
  abbrev pub rotated : Bool → String → String → Result (Unit {0}) × Hub → SourceReply × Hub
  rotated lost id key (err e, s) = (error_reply env e, s)
  rotated lost id key (ok u, s) = (
    if lost then not_found else elim (find_source id s.sources) [
      | none ↦ not_found
      | some src ↦ elim src.deleted_at [ none ↦ key_is key | some _ ↦ not_found ]
    ],
    s,
  )

  unfoldable pub handle_source_rotate_key : Bool → Bool → String → Hub → SourceReply × Hub
  handle_source_rotate_key aborted lost id s =
      let key = env.rand "ask_" s.tick in
      rotated lost id key
        (with_tx aborted (load_live env id >>= write_key key) (record s { tick = s.tick + 1 }))

  abbrev pub managed : String → String → SourceRow → SourceRow
  managed key now src = record src {
    mgmt_key_plain = key;
    mgmt_key_hint = last_four key;
    updated_at = now;
  }

  unfoldable pub write_mgmt_key : String → SourceRow → Tx (Unit {0})
  write_mgmt_key key src =
      if not (src.kind == "feedback")
      then throw no_rows
      else now_ts env.hub >>= (λ now.
        modify (λ s. record s { sources = update_source src.id (managed key now) s.sources })
        >> emit_source_change env.hub (managed key now src))

  abbrev pub key_reply : String → Result (Unit {0}) × Hub → SourceReply × Hub
  key_reply key (ok u, s) = (key_is key, s)
  key_reply key (err e, s) = (error_reply env e, s)

  unfoldable pub handle_source_rotate_mgmt_key : Bool → String → Hub → SourceReply × Hub
  handle_source_rotate_mgmt_key aborted id s =
      let key = env.rand "amk_" s.tick in
      key_reply key
        (with_tx aborted (load_live env id >>= write_mgmt_key key) (record s { tick = s.tick + 1 }))

  abbrev pub removed : String → SourceRow → SourceRow
  removed now src = record src {
    deleted_at = some now;
    key_hash = "";
    key_plain = "";
    mgmt_key_plain = "";
    mgmt_key_hint = "";
    updated_at = now;
  }

  unfoldable pub remove_source : SourceRow → Tx (Unit {0})
  remove_source src = now_ts env.hub >>= (λ now.
      modify (λ s. record s { sources = update_source src.id (removed now) s.sources })
      >> insert_tombstone env.hub "source" src.id)

  abbrev pub delete_reply : Result (Unit {0}) × Hub → SourceReply × Hub
  delete_reply (ok u, s) = (no_content, s)
  delete_reply (err e, s) = (error_reply env e, s)

  unfoldable pub handle_source_delete : Bool → String → Hub → SourceReply × Hub
  handle_source_delete aborted id s =
      delete_reply (with_tx aborted (load_live env id >>= remove_source) s)
