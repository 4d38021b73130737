-- ===== src/Hub/Admin/Versions.antt =====
-- hub/admin.go, handleSettingsPatch: of two changes to one version, only one is taken.
use sakura_assistant.Base.{
  ℕ, ◌+◌, ◌<◌, List, [], ◌∷◌, String, ◌≡◌, refl, sym, ap, ◌∙◌, Option, none, some, Bool, false, not,
  ◌||◌, inl, inr, eqb, arith, Bool-cases,
}
use mathlib.Core.Path.{subst}
use sakura_assistant.Hub.Store.{HubEnv, Hub, Result, ok, err}
use sakura_assistant.Hub.Admin.Settings.{
  SettingsDoc, load_settings, SettingsReq, valid_dnd, valid_interval, SettingsReply, saved,
  version_conflict, invalid, internal, changed_settings, settings_reply, save_settings,
  patch_settings, handle_settings_patch,
}

-- A saved document is the stored one, of the version after the expected one.
abbrev Saves : SettingsReq → SettingsReply × (Option SettingsDoc × Hub) → Type 0
Saves req (saved doc, (stored, s)) =
    (v : ℕ) × (req.expected_version ≡ some v) × (stored ≡ some doc) × (doc.version ≡ v + 1)
Saves req (version_conflict v, after) = Unit
Saves req (invalid, after) = Unit
Saves req (internal, after) = Unit

-- Nothing is saved, and the document is as it was.
abbrev pub Refuses : SettingsDoc → SettingsReply × (Option SettingsDoc × Hub) → Type 0
Refuses doc (saved new, after) = ⊥
Refuses doc (version_conflict v, (stored, s)) = (stored ≡ some doc) × (v ≡ doc.version)
Refuses doc (invalid, (stored, s)) = stored ≡ some doc
Refuses doc (internal, (stored, s)) = stored ≡ some doc

abbrev pub Refused : Option SettingsDoc → SettingsReply × (Option SettingsDoc × Hub) → Type 0
Refused none r = ⊥
Refused (some doc) r = Refuses doc r

-- A document is stored, and its version is above `v`.
abbrev IsNewer : ℕ → Option SettingsDoc → Type 0
IsNewer v none = ⊥
IsNewer v (some doc) = v < doc.version

-- A request, with what fails in it, and the rest of the database when it comes.
pub record Attempt : Type 0 where
  pub lost : Bool
  pub aborted : Bool
  pub req : SettingsReq
  pub before : Hub

module _ (env : HubEnv) (marshal : SettingsDoc → String) where
  reply-Saves :
      (req : SettingsReq) (v : ℕ) (doc : SettingsDoc) (r : Result (Unit {0}) × Hub)
      → req.expected_version ≡ some v
      → doc.version ≡ v
      → Saves req (settings_reply env marshal doc (changed_settings req doc) r)
  reply-Saves req v doc (ok u, s) at same = (v, at, refl, ap (λ n. n + 1) same)
  reply-Saves req v doc (err e, s) at same = tt

  save-Saves :
      (aborted : Bool) (v : ℕ) (req : SettingsReq) (doc : SettingsDoc) (s : Hub)
      → req.expected_version ≡ some v
      → Saves req (save_settings env marshal aborted v req doc s)
  unfolding save_settings
  save-Saves aborted v req doc s at = elim (Bool-cases (eqb doc.version v)) [
    | inl same ↦ rw same (reply-Saves req v doc _ at (ground (arith, same)))
    | inr other ↦ rw other tt
  ]

  patch-Saves :
      (lost aborted : Bool) (o : Option ℕ) (req : SettingsReq) (stored : Option SettingsDoc)
      (s : Hub)
      → req.expected_version ≡ o
      → Saves req (patch_settings env marshal lost aborted o req stored s)
  unfolding patch_settings
  patch-Saves lost aborted none req stored s at = tt
  patch-Saves lost aborted (some v) req stored s at =
      elim (Bool-cases
        (not (valid_dnd req.dnd) || not (valid_interval req.report_interval_seconds))) [
          | inl bad ↦ rw bad tt
          | inr good ↦ elim (Bool-cases lost) [
            | inl down ↦ rw (good, down) tt
            | inr up ↦ rw (good, up) (save-Saves aborted v req (load_settings stored) s at)
          ]
        ]

  patch-Refuses :
      (lost aborted : Bool) (v : ℕ) (req : SettingsReq) (doc : SettingsDoc) (s : Hub)
      → v < doc.version
      → Refuses doc (patch_settings env marshal lost aborted (some v) req (some doc) s)
  unfolding patch_settings load_settings save_settings
  patch-Refuses lost aborted v req doc s newer =
      let other : eqb doc.version v ≡ false = ground (arith, newer) in
      elim (Bool-cases
        (not (valid_dnd req.dnd) || not (valid_interval req.report_interval_seconds))) [
          | inl bad ↦ rw bad refl
          | inr good ↦ elim (Bool-cases lost) [
            | inl down ↦ rw (good, down) refl
            | inr up ↦ rw (good, up, other) (refl, refl)
          ]
        ]

  reply-IsNewer :
      (v : ℕ) (req : SettingsReq) (doc : SettingsDoc) (r : Result (Unit {0}) × Hub)
      → v < doc.version
      → IsNewer v (settings_reply env marshal doc (changed_settings req doc) r).1.0
  reply-IsNewer v req doc (ok u, s) newer = omega (arith, newer)
  reply-IsNewer v req doc (err e, s) newer = newer

  save-IsNewer :
      (aborted : Bool) (v expected : ℕ) (req : SettingsReq) (doc : SettingsDoc) (s : Hub)
      → v < doc.version
      → IsNewer v (save_settings env marshal aborted expected req doc s).1.0
  unfolding save_settings
  save-IsNewer aborted v expected req doc s newer = elim (Bool-cases (eqb doc.version expected)) [
    | inl same ↦ rw same (reply-IsNewer v req doc _ newer)
    | inr other ↦ rw other newer
  ]

  patch-IsNewer :
      (lost aborted : Bool) (v : ℕ) (o : Option ℕ) (req : SettingsReq) (doc : SettingsDoc) (s : Hub)
      → v < doc.version
      → IsNewer v (patch_settings env marshal lost aborted o req (some doc) s).1.0
  unfolding patch_settings load_settings
  patch-IsNewer lost aborted v none req doc s newer = newer
  patch-IsNewer lost aborted v (some expected) req doc s newer =
      elim (Bool-cases
        (not (valid_dnd req.dnd) || not (valid_interval req.report_interval_seconds))) [
          | inl bad ↦ rw bad newer
          | inr good ↦ elim (Bool-cases lost) [
            | inl down ↦ rw (good, down) newer
            | inr up ↦ rw (good, up) (save-IsNewer aborted v expected req doc s newer)
          ]
        ]

  -- The document that is stored after the attempts.
  pub settings_after : List Attempt → Option SettingsDoc → Option SettingsDoc
  settings_after [] stored = stored
  settings_after (a ∷ rest) stored =
      settings_after rest
        (handle_settings_patch env marshal a.lost a.aborted a.req stored a.before).1.0

  settings_after-IsNewer :
      (v : ℕ) (between : List Attempt) (stored : Option SettingsDoc)
      → IsNewer v stored
      → IsNewer v (settings_after between stored)
  unfolding settings_after handle_settings_patch
  settings_after-IsNewer v [] stored newer = newer
  settings_after-IsNewer v (a ∷ rest) none newer = absurd newer
  settings_after-IsNewer v (a ∷ rest) (some doc) newer =
      settings_after-IsNewer v rest _
        (patch-IsNewer a.lost a.aborted v a.req.expected_version a.req doc a.before newer)

  IsNewer-Refused :
      (lost aborted : Bool) (v : ℕ) (req : SettingsReq) (stored : Option SettingsDoc) (s : Hub)
      → IsNewer v stored
      → req.expected_version ≡ some v
      → Refused stored (handle_settings_patch env marshal lost aborted req stored s)
  unfolding handle_settings_patch
  IsNewer-Refused lost aborted v req none s newer same = absurd newer
  IsNewer-Refused lost aborted v req (some doc) s newer same =
      subst (λ o. Refuses doc (patch_settings env marshal lost aborted o req (some doc) s))
        (sym same) (patch-Refuses lost aborted v req doc s newer)

  -- Of two changes of the settings that expect the same version only one is taken: after the first was
  -- saved, whatever further changes were asked for in between, taken or not, and whatever was written to
  -- the other tables, the second, whatever it asks and whether or not it fails, saves nothing, leaves
  -- the document that is stored by then, and when it is told of a conflict it gets that document's version.
  pub handle_settings_patch-Refuses :
      (lost lost' aborted aborted' : Bool) (req req' : SettingsReq) (between : List Attempt)
      (stored stored' : Option SettingsDoc) (doc : SettingsDoc) (s s' s'' : Hub)
      → handle_settings_patch env marshal lost aborted req stored s ≡ (saved doc, (stored', s'))
      → req'.expected_version ≡ req.expected_version
      → Refused (settings_after between stored') (
          handle_settings_patch env marshal lost' aborted' req'
            (settings_after between stored')
            s'')
  unfolding handle_settings_patch
  handle_settings_patch-Refuses lost lost' aborted aborted' req req' between stored stored' doc s s'
        s'' saves same =
      let (v, at, there, next) =
        subst (Saves req) saves (patch-Saves lost aborted req.expected_version req stored s refl) in
      let newer : v < doc.version = omega (arith, next) in
      IsNewer-Refused lost' aborted' v req' (settings_after between stored') s''
        (settings_after-IsNewer v between stored' (subst (IsNewer v) (sym there) newer)) (same ∙ at)
