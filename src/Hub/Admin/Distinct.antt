-- ===== src/Hub/Admin/Distinct.antt =====
-- hub/admin.go, validateRulesDoc and handleRulesPut: what is known of rules that were saved.
use sakura_assistant.Base.{
  ℕ, ◌+◌, String, ◌≡◌, ◌≢◌, refl, ap, Option, none, some, Bool, true, false, not, ◌||◌, inl, inr,
  List, [], ◌∷◌, ◌==◌, eqb, All, Bool-cases, Option-cases, eq_refl, arith,
}
use mathlib.Core.Path.{subst}
use sakura_assistant.Hub.Store.{HubEnv, Hub, Result, ok, err}
use sakura_assistant.Hub.Ingest.Events.{text_in}
use sakura_assistant.Hub.Rules.Types.{Rule}
use sakura_assistant.Hub.Admin.Rules.{
  RulesDoc, Fault, check_rule, check_rules, validate_rules, load_rules, RulesReq, RulesReply, saved,
  version_conflict, invalid, internal, valid_heartbeat, changed_rules, rules_reply, save_rules,
  put_checked, put_rules, handle_rules_put,
}

or_true : (b : Bool) → (b || true) ≡ true
or_true true = refl
or_true false = refl

module _ {V : Type 0} where
  -- No two rules have one id.
  abbrev pub AreDistinct : List (Rule V) → Type 0
  AreDistinct [] = Unit
  AreDistinct (r ∷ rest) = All (λ q. q.id ≢ r.id) rest × AreDistinct rest

  check_rule-new :
      (seen : List String) (r : Rule V) → check_rule seen r ≡ none → text_in r.id seen ≡ false
  unfolding check_rule
  check_rule-new seen r e = elim (Bool-cases (text_in r.id seen)) [
    | inr new ↦ new
    | inl old ↦ ground (arith, e, old)
  ]

  -- The first rule is right, and so are the others.
  check_rules-next :
      (seen : List String) (r : Rule V) (rest : List (Rule V))
      → check_rules seen (r ∷ rest) ≡ none
      → (check_rule seen r ≡ none) × (check_rules (r.id ∷ seen) rest ≡ none)
  unfolding check_rules
  check_rules-next seen r rest e = elim (Option-cases (check_rule seen r)) [
    | inl right ↦ (right, ground (arith, e, right))
    | inr (f, wrong) ↦ ground (arith, e, wrong)
  ]

  seen-Differs :
      (x : String) (seen : List String) (rules : List (Rule V))
      → text_in x seen ≡ true
      → check_rules seen rules ≡ none
      → All (λ q. q.id ≢ x) rules
  unfolding text_in
  seen-Differs x seen [] there e = tt
  seen-Differs x seen (r ∷ rest) there e =
      let (right, later) = check_rules-next seen r rest e in
      let new = check_rule-new seen r right in
      (
        (λ same. ground (arith, subst (λ i. text_in i seen ≡ false) same new, there)),
        seen-Differs x (r.id ∷ seen) rest (rw there (or_true (r.id == x))) later,
      )

  check_rules-AreDistinct :
      (seen : List String) (rules : List (Rule V))
      → check_rules seen rules ≡ none
      → AreDistinct rules
  unfolding text_in
  check_rules-AreDistinct seen [] e = tt
  check_rules-AreDistinct seen (r ∷ rest) e =
      let (right, later) = check_rules-next seen r rest e in
      (
        seen-Differs r.id (r.id ∷ seen) rest (rw (eq_refl r.id) refl) later,
        check_rules-AreDistinct (r.id ∷ seen) rest later,
      )

  -- A saved document is the stored one, of the version after the expected one, and no two of its rules
  -- have one id.
  abbrev pub IsStored : Option ℕ → RulesReply V × (Option (RulesDoc V) × Hub) → Type 0
  IsStored expected (saved doc, (stored, s)) =
      (stored ≡ some doc)
      × AreDistinct doc.rules
      × ((v : ℕ) × (expected ≡ some v) × (doc.version ≡ v + 1))
  IsStored expected (version_conflict v, after) = Unit
  IsStored expected (invalid, after) = Unit
  IsStored expected (internal, after) = Unit

module _ {V : Type 0} (env : HubEnv) (of_number : ℕ → V) (marshal : RulesDoc V → String) where
  reply-IsStored :
      (v : ℕ) (req : RulesReq V) (doc : RulesDoc V) (r : Result (Unit {0}) × Hub)
      → AreDistinct req.rules
      → doc.version ≡ v
      → IsStored
          (some v)
          (rules_reply env of_number marshal doc (changed_rules env of_number marshal req doc) r)
  reply-IsStored v req doc (ok u, s) distinct same =
      (refl, distinct, (v, refl, ap (λ n. n + 1) same))
  reply-IsStored v req doc (err e, s) distinct same = tt

  save_rules-IsStored :
      (aborted : Bool) (v : ℕ) (req : RulesReq V) (doc : RulesDoc V) (s : Hub)
      → AreDistinct req.rules
      → IsStored (some v) (save_rules env of_number marshal aborted v req doc s)
  unfolding save_rules
  save_rules-IsStored aborted v req doc s distinct = elim (Bool-cases (eqb doc.version v)) [
    | inl same ↦ rw same (reply-IsStored v req doc _ distinct (ground (arith, same)))
    | inr other ↦ rw other tt
  ]

  put_checked-IsStored :
      (lost aborted : Bool) (v : ℕ) (o : Option Fault) (req : RulesReq V)
      (stored : Option (RulesDoc V)) (s : Hub)
      → validate_rules req.rules ≡ o
      → IsStored (some v) (put_checked env of_number marshal lost aborted v o req stored s)
  put_checked-IsStored lost aborted v (some e) req stored s at = tt
  put_checked-IsStored lost aborted v none req stored s at =
      elim (Bool-cases (not (valid_heartbeat req.heartbeat_seconds))) [
        | inl bad ↦ rw (put_checked, bad) tt
        | inr good ↦ elim (Bool-cases lost) [
          | inl down ↦ rw (put_checked, good, down) tt
          | inr up ↦
              rw (put_checked, good, up)
                (save_rules-IsStored aborted v req (load_rules of_number stored) s
                  (check_rules-AreDistinct [] req.rules at))
        ]
      ]

  put_rules-IsStored :
      (lost aborted : Bool) (expected : Option ℕ) (req : RulesReq V) (stored : Option (RulesDoc V))
      (s : Hub)
      → IsStored expected (put_rules env of_number marshal lost aborted expected req stored s)
  put_rules-IsStored lost aborted none req stored s = tt
  put_rules-IsStored lost aborted (some v) req stored s =
      put_checked-IsStored lost aborted v (validate_rules req.rules) req stored s refl

  -- When new rules are answered as saved, they are the stored ones, their version is the one after the
  -- version that the request expects, and no two rules have one id.
  pub handle_rules_put-IsStored :
      (lost aborted : Bool) (req : RulesReq V) (stored : Option (RulesDoc V)) (s : Hub)
      → IsStored req.expected_version
          (handle_rules_put env of_number marshal lost aborted req stored s)
  unfolding handle_rules_put
  handle_rules_put-IsStored lost aborted req stored s =
      put_rules-IsStored lost aborted req.expected_version req stored s
