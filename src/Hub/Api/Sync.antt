-- ===== src/Hub/Api/Sync.antt =====
-- hub/api.go, handleSync: the changes above a cursor, a page at a time. The largest number is read by a
-- second statement, when the log may have grown: `later`.
use sakura_assistant.Base.{
  ℕ, suc, String, Option, none, some, Bool, true, false, List, [], ◌∷◌, ◌++◌, ◌==◌, ltb, leb, eqb,
  length, take, if◌then◌else◌,
}
use sakura_assistant.Hub.Types.{ChangeEntry}
use sakura_assistant.Hub.Stream.Client.{changes_since}
use sakura_assistant.Hub.Retention.Run.{max_seq}

pub record Page : Type 0 where
  pub cursor : ℕ
  pub has_more : Bool
  pub changes : List ChangeEntry

pub data SyncReply : Type 0 where
  page : Page → SyncReply
  invalid internal : SyncReply

-- `maxChangeSeq`
unfoldable pub max_change_seq : List ChangeEntry → ℕ
max_change_seq log = elim (max_seq log) [ none ↦ 0 | some n ↦ n ]

-- The loop over the rows, with the items, the last number, and whether a row is left.
unfoldable pub scan_rows : ℕ → List ChangeEntry → ℕ → List ChangeEntry → List ChangeEntry × ℕ × Bool
scan_rows limit items last [] = (items, last, false)
scan_rows limit items last (c ∷ rest) =
    let more = scan_rows limit (items ++ c ∷ []) c.seq rest in
    if leb limit (length items) then (items, last, true) else more

-- The cursor after a page with no rows.
unfoldable pub idle_cursor : ℕ → List ChangeEntry → ℕ
idle_cursor since later = if ltb since (max_change_seq later) then max_change_seq later else since

abbrev pub page_of : ℕ → List ChangeEntry → List ChangeEntry × ℕ × Bool → Page
page_of since later (items, last, true) = record { cursor = last; has_more = true; changes = items }
page_of since later ([], last, false) = record {
  cursor = idle_cursor since later;
  has_more = false;
  changes = [];
}
page_of since later (c ∷ items, last, false) = record {
  cursor = last;
  has_more = false;
  changes = c ∷ items;
}

unfoldable pub sync_page : ℕ → ℕ → List ChangeEntry → List ChangeEntry → Page
sync_page limit since log later =
    page_of since later (scan_rows limit [] 0 (take (suc limit) (changes_since since log)))

-- The query's fields, each "" when it is not there; `parse_number` is `strconv.ParseInt`, for a number
-- that is not negative.
module _ (parse_number : String → Option ℕ) where
  unfoldable pub sync_since : String → Option ℕ
  sync_since text = if text == "" then some 0 else parse_number text

  abbrev pub capped : ℕ → Option ℕ
  capped n = if eqb n 0 then none else if ltb 1000 n then some 1000 else some n

  unfoldable pub sync_limit : String → Option ℕ
  sync_limit text =
      if text == "" then some 500 else elim (parse_number text) [ none ↦ none | some n ↦ capped n ]

  -- `handleSync`; `fails` is the failure of the query.
  unfoldable pub handle_sync :
      Bool → String → String → List ChangeEntry → List ChangeEntry → SyncReply
  handle_sync fails since_text limit_text log later = elim (sync_since since_text) [
    | none ↦ invalid
    | some since ↦ elim (sync_limit limit_text) [
      | none ↦ invalid
      | some limit ↦ if fails then internal else page (sync_page limit since log later)
    ]
  ]
