-- ===== src/Hub/Admin/Settings.antt =====
-- hub/admin.go, handleSettingsPatch, and hub/store.go, loadSettings: the settings with their version. The
-- row of the table settings is beside the `Hub`; a version is never negative here. Transactions run
-- one at a time, under the store's lock.
use sakura_assistant.Base.{
  ℕ, ◌+◌, String, Option, none, some, Bool, true, false, not, ◌&&◌, ◌||◌, List, [], ◌∷◌, ◌==◌, eqb,
  leb, map, if◌then◌else◌,
}
use Prim.Native.Char.{code}
use text.Mathlib.TextBridge.{to_list}
use sakura_assistant.Hub.Types.{document}
use sakura_assistant.Hub.Store.{HubEnv, Hub, Result, ok, err, with_tx, insert_change_obj}

pub record Dnd : Type 0 where
  pub enabled : Bool
  pub start : String
  pub end_at : String
  pub timezone : String

pub record SettingsDoc : Type 0 where
  pub version : ℕ
  pub dnd : Dnd
  pub report_interval_seconds : ℕ

abbrev pub default_settings : SettingsDoc
default_settings = record {
  version = 1;
  dnd = record { enabled = false; start = "23:00"; end_at = "08:00"; timezone = "Asia/Shanghai" };
  report_interval_seconds = 30;
}

-- `loadSettings`, when its statements succeed: a missing row is made.
unfoldable pub load_settings : Option SettingsDoc → SettingsDoc
load_settings none = default_settings
load_settings (some doc) = doc

abbrev in_range : ℕ → ℕ → ℕ → Bool
in_range lo hi n = leb lo n && leb n hi

abbrev is_hour : ℕ → ℕ → Bool
is_hour a b = in_range 48 49 a && in_range 48 57 b || eqb a 50 && in_range 48 51 b

-- `^([01]\d|2[0-3]):[0-5]\d$`, by the codes of the characters.
unfoldable pub is_time : List ℕ → Bool
is_time (a ∷ b ∷ c ∷ d ∷ e ∷ []) = is_hour a b && eqb c 58 && in_range 48 53 d && in_range 48 57 e
is_time _ = false

abbrev pub dnd_time : String → Bool
dnd_time s = is_time (map code (to_list s))

pub record SettingsReq : Type 0 where
  pub expected_version : Option ℕ
  pub dnd : Option Dnd
  pub report_interval_seconds : Option ℕ

unfoldable pub valid_dnd : Option Dnd → Bool
valid_dnd none = true
valid_dnd (some d) = dnd_time d.start && dnd_time d.end_at && not (d.timezone == "")

unfoldable pub valid_interval : Option ℕ → Bool
valid_interval none = true
valid_interval (some n) = in_range 10 600 n

pub data SettingsReply : Type 0 where
  saved : SettingsDoc → SettingsReply
  version_conflict : ℕ → SettingsReply
  invalid internal : SettingsReply

abbrev pub or_else : {A : Type 0} → Option A → A → A
or_else none a = a
or_else (some b) a = b

abbrev pub changed_settings : SettingsReq → SettingsDoc → SettingsDoc
changed_settings req doc = record {
  version = doc.version + 1;
  dnd = or_else req.dnd doc.dnd;
  report_interval_seconds = or_else req.report_interval_seconds doc.report_interval_seconds;
}

module _ (env : HubEnv) (marshal : SettingsDoc → String) where
  abbrev pub settings_reply :
      SettingsDoc
      → SettingsDoc
      → Result (Unit {0}) × Hub
      → SettingsReply × (Option SettingsDoc × Hub)
  settings_reply doc new (ok u, s) = (saved new, (some new, s))
  settings_reply doc new (err e, s) = (internal, (some doc, s))

  unfoldable pub save_settings :
      Bool → ℕ → SettingsReq → SettingsDoc → Hub → SettingsReply × (Option SettingsDoc × Hub)
  save_settings aborted expected req doc s =
      let new = changed_settings req doc in
      if eqb doc.version expected
      then settings_reply doc new (
          with_tx aborted (insert_change_obj env "settings" (λ seq. document (marshal new)) none) s)
      else (version_conflict doc.version, (some doc, s))

  unfoldable pub patch_settings :
      Bool
      → Bool
      → Option ℕ
      → SettingsReq
      → Option SettingsDoc
      → Hub
      → SettingsReply × (Option SettingsDoc × Hub)
  patch_settings lost aborted none req stored s = (invalid, (stored, s))
  patch_settings lost aborted (some expected) req stored s =
      if not (valid_dnd req.dnd) || not (valid_interval req.report_interval_seconds)
      then (invalid, (stored, s))
      else if lost
      then (internal, (stored, s))
      else save_settings aborted expected req (load_settings stored) s

  -- `handleSettingsPatch`, after the body is decoded. `lost` is the failure to load, `aborted` that of
  -- the transaction.
  unfoldable pub handle_settings_patch :
      Bool
      → Bool
      → SettingsReq
      → Option SettingsDoc
      → Hub
      → SettingsReply × (Option SettingsDoc × Hub)
  handle_settings_patch lost aborted req stored s =
      patch_settings lost aborted req.expected_version req stored s
