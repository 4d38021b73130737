-- ===== src/Hub/Api/Skipped.antt =====
-- hub/api.go, handleSync: a change that is committed between its two statements.
use sakura_assistant.Base.{
  ℕ, suc, ◌<◌, ◌≡◌, refl, ap, ◌∙◌, some, false, List, [], ◌∷◌, ◌++◌, max, take, arith, lt→ltb,
}
use sakura_assistant.Hub.Types.{ChangeEntry}
use sakura_assistant.Hub.Fault.Invariant.{Rising}
use sakura_assistant.Hub.Stream.Client.{changes_since}
use sakura_assistant.Hub.Stream.Numbers.{above-none, changes_since-above}
use sakura_assistant.Hub.Retention.Run.{max_seq}
use sakura_assistant.Hub.Api.Sync.{max_change_seq, scan_rows, idle_cursor, page_of, sync_page}

empty-sync_page :
    (limit since : ℕ) (log later : List ChangeEntry)
    → changes_since since log ≡ []
    → sync_page limit since log later
      ≡ (record { cursor = idle_cursor since later; has_more = false; changes = [] })
unfolding sync_page scan_rows
empty-sync_page limit since log later empty =
    ap (λ rows. page_of since later (scan_rows limit [] 0 (take (suc limit) rows))) empty

Rising-below-last :
    (lo : ℕ) (log : List ChangeEntry) (e : ChangeEntry) (hi : ℕ)
    → Rising lo (log ++ e ∷ []) hi
    → lo < e.seq
Rising-below-last lo [] e hi h = h.0
Rising-below-last lo (x ∷ log) e hi h = omega (arith, h.0, Rising-below-last x.seq log e hi h.1)

max_seq-last :
    (lo : ℕ) (log : List ChangeEntry) (e : ChangeEntry) (hi : ℕ)
    → Rising lo (log ++ e ∷ []) hi
    → max_seq (log ++ e ∷ []) ≡ some e.seq
unfolding max_seq
max_seq-last lo [] e hi h = refl
max_seq-last lo (x ∷ log) e hi h =
    let greatest : max x.seq e.seq ≡ e.seq = omega (arith, Rising-below-last x.seq log e hi h.1) in
    rw (max_seq-last x.seq log e hi h.1, greatest) refl

max_change_seq-last :
    (log : List ChangeEntry) (e : ChangeEntry)
    → Rising 0 (log ++ e ∷ []) e.seq
    → max_change_seq (log ++ e ∷ []) ≡ e.seq
unfolding max_change_seq
max_change_seq-last log e h = rw (max_change_seq, max_seq-last 0 log e e.seq h) refl

idle_cursor-last :
    (since : ℕ) (log : List ChangeEntry) (e : ChangeEntry)
    → Rising 0 (log ++ e ∷ []) e.seq
    → since < e.seq
    → idle_cursor since (log ++ e ∷ []) ≡ e.seq
unfolding idle_cursor
idle_cursor-last since log e h new =
    let after = lt→ltb since e.seq new in rw (max_change_seq-last log e h, after) refl

-- When a client is up to date at the first statement of its request and a change is committed before the
-- second, the page is empty, says that there is no more, and has the number of that change as its
-- cursor; the next page from that cursor is empty too, so the client never gets the change.
pub sync_page-Skips :
    (limit since : ℕ) (log : List ChangeEntry) (e : ChangeEntry)
    → Rising 0 (log ++ e ∷ []) e.seq
    → since < e.seq
    → changes_since since log ≡ []
    → (sync_page limit since log (log ++ e ∷ [])
        ≡ record { cursor = e.seq; has_more = false; changes = [] })
      × ((sync_page limit e.seq (log ++ e ∷ []) (log ++ e ∷ [])).changes ≡ [])
sync_page-Skips limit since log e h new up_to_date =
    let later = log ++ e ∷ [] in
    let nothing : changes_since e.seq later ≡ [] =
      changes_since-above e.seq later e.seq h ∙ above-none e.seq 0 later e.seq h (omega arith) in
    (
      empty-sync_page limit since log later up_to_date
          ∙ ap (λ n. record { cursor = n; has_more = false; changes = [] })
              (idle_cursor-last since log e h new),
      ap (λ p. p.changes) (empty-sync_page limit e.seq later later nothing),
    )
