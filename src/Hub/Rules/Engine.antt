-- ===== src/Hub/Rules/Engine.antt =====
-- hub/rules.go: the timers of the rule engine, evalThreshold and evalSample. The timers are in
-- memory: the transaction threads them. What the code leaves in them when the transaction fails is
-- not modelled.
use sakura_assistant.Base.{
  ℕ, max, String, Option, none, some, Bool, ◌&&◌, List, [], ◌∷◌, ◌==◌, if◌then◌else◌, not,
}
use Prim.Native.String.{◌++◌ as text_append}
use sakura_assistant.Hub.Types.{SourceRow}
use sakura_assistant.Hub.Store.{HubEnv, Tx, ◌>>=◌, ◌>>◌, return}
use sakura_assistant.Hub.Rules.Types.{Order, ContainerPayload, SamplePayload, Rule}
use sakura_assistant.Hub.Rules.Threshold.{
  LabelValue, RuleState, no_state, Verdict, nothing, opens, resolves, judge, violates, recovers,
  extract_metric, threshold_title,
}
use sakura_assistant.Hub.Rules.Emit.{is_fault_open, emit}
use sakura_assistant.Hub.Rules.Containers.{eval_containers}
use sakura_assistant.Hub.Rules.Nas.{eval_smart, eval_pool}

pub record RuleKey : Type 0 where
  pub source_id : String
  pub rule_id : String
  pub label_sel : String

pub record Timer : Type 0 where
  pub key : RuleKey
  pub state : RuleState

abbrev same_key : RuleKey → RuleKey → Bool
same_key a b = a.source_id == b.source_id && a.rule_id == b.rule_id && a.label_sel == b.label_sel

-- `re.states[key]`, a fresh state when there is none.
unfoldable pub timer : RuleKey → List Timer → RuleState
timer key [] = no_state
timer key (t ∷ rest) = if same_key t.key key then t.state else timer key rest

unfoldable pub set_timer : RuleKey → RuleState → List Timer → List Timer
set_timer key st [] = record { key = key; state = st } ∷ []
set_timer key st (t ∷ rest) =
    let others = set_timer key st rest in
    if same_key t.key key then record { key = key; state = st } ∷ rest else t ∷ others

-- `pauseSource`
unfoldable pub pause_source : String → List Timer → List Timer
pause_source src [] = []
pause_source src (t ∷ rest) =
    let others = pause_source src rest in if t.key.source_id == src then others else t ∷ others

-- The formatting of measured values and numbers: selector, value, limit and duration.
pub record RuleTexts (V : Type 0) : Type 0 where
  pub over : String → V → V → ℕ → String
  pub under : String → V → V → ℕ → String
  pub dec : ℕ → String

module _ {V : Type 0} (env : HubEnv) (o : Order V) (texts : RuleTexts V) (src : SourceRow)
    (now : ℕ) where
  abbrev fault_key_of : Rule V → String → String
  fault_key_of r sel = text_append "rule:" (text_append r.id (text_append ":" sel))

  abbrev title_of : Rule V → String → String → String
  title_of r sel what =
      text_append src.name (text_append "：" (text_append (threshold_title r sel) what))

  unfoldable pub report_verdict : Rule V → V → V → LabelValue V → Verdict → Tx (Unit {0})
  report_verdict r limit back lv nothing = return tt
  report_verdict r limit back lv opens = emit env src now (record {
    kind = "threshold";
    severity = r.severity;
    fault_key = fault_key_of r lv.sel;
    action = "open";
    title = title_of r lv.sel " 持续超限";
    body = texts.over lv.sel lv.v limit r.for_seconds;
  })
  report_verdict r limit back lv resolves = emit env src now (record {
    kind = "threshold_recovered";
    severity = "info";
    fault_key = fault_key_of r lv.sel;
    action = "resolve";
    title = title_of r lv.sel " 恢复正常";
    body = texts.under lv.sel lv.v back r.recover_for_seconds;
  })

  abbrev key_of : Rule V → LabelValue V → RuleKey
  key_of r lv = record { source_id = src.id; rule_id = r.id; label_sel = lv.sel }

  abbrev judged : Rule V → V → V → LabelValue V → Bool → List Timer → Verdict × RuleState
  judged r limit back lv open_now timers =
      judge r.for_seconds r.recover_for_seconds (timer (key_of r lv) timers)
        (violates o r.op lv.v limit) (recovers o r.op lv.v back) open_now now

  unfoldable pub eval_values : Rule V → V → V → List (LabelValue V) → List Timer → Tx (List Timer)
  eval_values r limit back [] timers = return timers
  eval_values r limit back (lv ∷ rest) timers =
      is_fault_open src.id (fault_key_of r lv.sel) >>= (λ open_now.
        report_verdict r limit back lv (judged r limit back lv open_now timers).0
        >> eval_values r limit back rest
            (set_timer (key_of r lv) (judged r limit back lv open_now timers).1 timers))

  abbrev pub value_or : V → Option V → V
  value_or v none = v
  value_or v (some w) = w

  unfoldable pub eval_threshold : Rule V → SamplePayload V → List Timer → Tx (List Timer)
  eval_threshold r s timers = elim r.value [
    | none ↦ return timers
    | some limit ↦ eval_values r limit (value_or limit r.recover_value) (extract_metric r s) timers
  ]

  abbrev keeping : List Timer → Tx (Unit {0}) → Tx (List Timer)
  keeping timers m = m >> return timers

  abbrev containers_of : Option (SamplePayload V) → Option (List ContainerPayload)
  containers_of none = none
  containers_of (some p) = p.containers

  unfoldable pub eval_rule :
      Rule V → Option (SamplePayload V) → SamplePayload V → List Timer → Tx (List Timer)
  eval_rule r prev s timers =
      if not r.enabled
      then return timers
      else if r.kind == "threshold"
      then eval_threshold r s timers
      else if r.kind == "container_exit"
      then keeping timers (
          eval_containers env texts.dec src now r.severity r.matching (containers_of prev)
            s.containers)
      else if r.kind == "smart"
      then keeping timers (eval_smart env src now r.severity s.nas)
      else if r.kind == "pool"
      then keeping timers (eval_pool env src now r.severity s.nas)
      else return timers

  unfoldable pub eval_rules :
      List (Rule V) → Option (SamplePayload V) → SamplePayload V → List Timer → Tx (List Timer)
  eval_rules [] prev s timers = return timers
  eval_rules (r ∷ rest) prev s timers = eval_rule r prev s timers >>= eval_rules rest prev s

-- `evalSample`: rules are judged at the later of the sample's time and its arrival. A time that does
-- not parse counts as none.
unfoldable pub eval_now : HubEnv → String → ℕ → ℕ
eval_now env ts arrival = elim (env.parse_ts ts) [ none ↦ arrival | some t ↦ max t arrival ]

unfoldable pub eval_sample :
    {V : Type 0}
    → HubEnv
    → Order V
    → RuleTexts V
    → SourceRow
    → List (Rule V)
    → Option (SamplePayload V)
    → SamplePayload V
    → ℕ
    → List Timer
    → Tx (List Timer)
eval_sample env o texts src rules prev s arrival =
    eval_rules env o texts src (eval_now env s.ts arrival) rules prev s
