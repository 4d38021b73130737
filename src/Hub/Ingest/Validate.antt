-- ===== src/Hub/Ingest/Validate.antt =====
-- hub/ingest.go, validateEvent. Times are in nanoseconds.
use sakura_assistant.Base.{
  ℕ, ◌*◌, ◌+◌, String, Option, none, some, Bool, true, not, ◌&&◌, ◌||◌, ◌==◌, ltb, leb,
  if◌then◌else◌,
}
use Prim.Native.String.{String as Text, count}
use Prim.Native.Char.{code}
use sakura_assistant.Hub.Types.{EventPayload}
use sakura_assistant.Hub.Store.{HubEnv}
use sakura_assistant.Hub.Fault.Tables.{non_empty, or_empty}

-- One character of `[A-Za-z0-9._:-]`, by its code.
abbrev between : ℕ → ℕ → ℕ → Bool
between lo hi c = leb lo c && leb c hi

unfoldable pub id_char : ℕ → Bool
id_char c =
    between 65 90 c || between 97 122 c || between 48 58 c || between 45 46 c || between 95 95 c

unfoldable pub all_id_chars : Text → Bool
all_id_chars Text.[] = true
all_id_chars (Text.◌∷◌ c rest) = id_char (code c) && all_id_chars rest

unfoldable pub matches_event_id : String → Bool
matches_event_id id = leb 1 (count id) && leb (count id) 128 && all_id_chars id

abbrev pub max_backfill_age : ℕ
max_backfill_age = 90 * 24 * 3600 * 1000000000

abbrev pub too_old : ℕ → ℕ → Bool
too_old now t = ltb (t + max_backfill_age) now

abbrev known_severity : String → Bool
known_severity s = s == "info" || s == "warning" || s == "critical"

abbrev known_action : String → Bool
known_action a = a == "open" || a == "update" || a == "resolve"

-- The fault key and the action, each absent when empty.
unfoldable pub check_incident : Option String → Option String → Option String
check_incident none none = none
check_incident (some _) none = some "faultKey 非空时 incidentAction 必填"
check_incident key (some act) =
    if known_action act
    then elim key [ none ↦ some "incidentAction 需要非空 faultKey" | some _ ↦ none ]
    else some "incidentAction 非法"

unfoldable pub check_texts : EventPayload → Option String
check_texts ev =
    if not (known_severity ev.severity)
    then some "severity 非法"
    else if ev.title == "" || ltb 200 (count ev.title)
    then some "title 缺失或超过 200 字符"
    else if ltb 20000 (count (or_empty ev.body))
    then some "body 超过 20000 字符"
    else check_incident (non_empty ev.fault_key) (non_empty ev.incident_action)

-- `validateEvent`: the description of the error, if the event is not valid. The clock shows `now`.
unfoldable pub validate_event : HubEnv → ℕ → EventPayload → Option String
validate_event env now ev =
    if not (matches_event_id ev.event_id)
    then some "eventId 缺失或非法（[A-Za-z0-9._:-]{1,128}）"
    else if ev.kind == ""
    then some "kind 必填"
    else elim (env.parse_ts ev.occurred_at) [
      | none ↦ some "occurredAt 缺失或非法"
      | some t ↦ if too_old now t then some "occurredAt 超出 90 天补传窗口" else check_texts ev
    ]
