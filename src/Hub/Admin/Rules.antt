-- ===== src/Hub/Admin/Rules.antt =====
-- hub/admin.go, validateRulesDoc and handleRulesPut, and hub/store.go, loadRules: the rules with their
-- version, over measured values of any type. `of_number` is a whole number as a value. Durations and
-- versions are never negative here. The row of the table rules is beside the `Hub`.
use sakura_assistant.Base.{
  ℕ, ◌+◌, String, Option, none, some, Bool, true, not, ◌&&◌, ◌||◌, List, [], ◌∷◌, ◌==◌, eqb, leb,
  if◌then◌else◌,
}
use Prim.Native.String.{count}
use sakura_assistant.Hub.Types.{document}
use sakura_assistant.Hub.Store.{HubEnv, Hub, Result, ok, err, with_tx, insert_change_obj}
use sakura_assistant.Hub.Ingest.Validate.{all_id_chars}
use sakura_assistant.Hub.Ingest.Events.{text_in}
use sakura_assistant.Hub.Rules.Types.{Rule}

pub record RulesDoc (V : Type 0) : Type 0 where
  pub version : ℕ
  pub heartbeat_seconds : ℕ
  pub rules : List (Rule V)

-- What is wrong with a set of rules.
pub data Fault : Type 0 where
  bad_id duplicate_id bad_severity bad_metric no_value bad_op bad_kind : Fault

-- `^[A-Za-z0-9._:-]{1,64}$`
unfoldable pub matches_rule_id : String → Bool
matches_rule_id id = leb 1 (count id) && leb (count id) 64 && all_id_chars id

abbrev pub series_metric : String → Bool
series_metric m =
    m == "cpu_percent"
    || m == "mem_percent"
    || m == "disk_percent"
    || m == "net_rx_bps"
    || m == "net_tx_bps"

abbrev pub known_op : String → Bool
known_op op = op == "" || op == "gt" || op == "gte" || op == "lt" || op == "lte"

module _ {V : Type 0} where
  -- The seconds are natural numbers, so the tests that `ForSeconds` and `RecoverForSeconds` are not
  -- negative are left out.
  unfoldable pub check_threshold : Rule V → Option Fault
  check_threshold r = if not (series_metric r.metric) then some bad_metric else elim r.value [
    | none ↦ some no_value
    | some v ↦ if known_op r.op then none else some bad_op
  ]

  unfoldable pub check_kind : Rule V → Option Fault
  check_kind r =
      if r.kind == "threshold"
      then check_threshold r
      else if r.kind == "container_exit" || r.kind == "smart" || r.kind == "pool"
      then none
      else some bad_kind

  unfoldable pub check_rule : List String → Rule V → Option Fault
  check_rule seen r =
      if not (matches_rule_id r.id)
      then some bad_id
      else if text_in r.id seen
      then some duplicate_id
      else if not (r.severity == "warning") && not (r.severity == "critical")
      then some bad_severity
      else check_kind r

  -- The loop of `validateRulesDoc`, with the ids seen.
  unfoldable pub check_rules : List String → List (Rule V) → Option Fault
  check_rules seen [] = none
  check_rules seen (r ∷ rest) =
      let later = check_rules (r.id ∷ seen) rest in
      elim (check_rule seen r) [ none ↦ later | some e ↦ some e ]

  abbrev pub validate_rules : List (Rule V) → Option Fault
  validate_rules rules = check_rules [] rules

  abbrev pub basic_rule : String → String → String → Rule V
  basic_rule id kind severity = record {
    id = id;
    kind = kind;
    metric = "";
    label = none;
    op = "";
    value = none;
    for_seconds = 0;
    recover_value = none;
    recover_for_seconds = 0;
    matching = none;
    severity = severity;
    enabled = true;
  }

  abbrev pub high : (ℕ → V) → String → String → Option String → ℕ → ℕ → Rule V
  high of_number id metric label for_seconds recover =
      record (basic_rule id "threshold" "warning") {
        metric = metric;
        label = label;
        op = "gt";
        value = some (of_number 90);
        for_seconds = for_seconds;
        recover_value = some (of_number recover);
        recover_for_seconds = 60;
      }

  unfoldable pub default_rules : (ℕ → V) → List (Rule V)
  default_rules of_number =
      high of_number "cpu_high" "cpu_percent" none 180 75
      ∷ high of_number "mem_high" "mem_percent" none 180 80
      ∷ high of_number "disk_high" "disk_percent" (some "*") 60 85
      ∷ record (basic_rule "container_exit" "container_exit" "warning") { matching = some "*" }
      ∷ basic_rule "smart_failing" "smart" "critical"
      ∷ basic_rule "pool_error" "pool" "critical"
      ∷ []

  -- `loadRules`, when its statements succeed: a missing row is made.
  unfoldable pub load_rules : (ℕ → V) → Option (RulesDoc V) → RulesDoc V
  load_rules of_number none = record {
    version = 1;
    heartbeat_seconds = 180;
    rules = default_rules of_number;
  }
  load_rules of_number (some doc) = doc

pub record RulesReq (V : Type 0) : Type 0 where
  pub expected_version : Option ℕ
  pub heartbeat_seconds : Option ℕ
  pub rules : List (Rule V)

pub data RulesReply (V : Type 0) : Type 0 where
  saved : RulesDoc V → RulesReply V
  version_conflict : ℕ → RulesReply V
  invalid internal : RulesReply V

unfoldable pub valid_heartbeat : Option ℕ → Bool
valid_heartbeat none = true
valid_heartbeat (some n) = leb 60 n && leb n 3600

module _ {V : Type 0} (env : HubEnv) (of_number : ℕ → V) (marshal : RulesDoc V → String) where
  abbrev pub changed_rules : RulesReq V → RulesDoc V → RulesDoc V
  changed_rules req doc = record {
    version = doc.version + 1;
    heartbeat_seconds = elim req.heartbeat_seconds [ none ↦ doc.heartbeat_seconds | some n ↦ n ];
    rules = req.rules;
  }

  abbrev pub rules_reply :
      RulesDoc V → RulesDoc V → Result (Unit {0}) × Hub → RulesReply V × (Option (RulesDoc V) × Hub)
  rules_reply doc new (ok u, s) = (saved new, (some new, s))
  rules_reply doc new (err e, s) = (internal, (some doc, s))

  unfoldable pub save_rules :
      Bool → ℕ → RulesReq V → RulesDoc V → Hub → RulesReply V × (Option (RulesDoc V) × Hub)
  save_rules aborted expected req doc s =
      let new = changed_rules req doc in
      if eqb doc.version expected
      then rules_reply doc new
          (with_tx aborted (insert_change_obj env "rules" (λ seq. document (marshal new)) none) s)
      else (version_conflict doc.version, (some doc, s))

  abbrev pub put_checked :
      Bool
      → Bool
      → ℕ
      → Option Fault
      → RulesReq V
      → Option (RulesDoc V)
      → Hub
      → RulesReply V × (Option (RulesDoc V) × Hub)
  put_checked lost aborted expected (some e) req stored s = (invalid, (stored, s))
  put_checked lost aborted expected none req stored s =
      if not (valid_heartbeat req.heartbeat_seconds)
      then (invalid, (stored, s))
      else if lost
      then (internal, (stored, s))
      else save_rules aborted expected req (load_rules of_number stored) s

  abbrev pub put_rules :
      Bool
      → Bool
      → Option ℕ
      → RulesReq V
      → Option (RulesDoc V)
      → Hub
      → RulesReply V × (Option (RulesDoc V) × Hub)
  put_rules lost aborted none req stored s = (invalid, (stored, s))
  put_rules lost aborted (some expected) req stored s =
      put_checked lost aborted expected (validate_rules req.rules) req stored s

  -- `handleRulesPut`, after the body is decoded. `lost` is the failure to load, `aborted` that of the
  -- transaction.
  unfoldable pub handle_rules_put :
      Bool
      → Bool
      → RulesReq V
      → Option (RulesDoc V)
      → Hub
      → RulesReply V × (Option (RulesDoc V) × Hub)
  handle_rules_put lost aborted req stored s =
      put_rules lost aborted req.expected_version req stored s
