-- ===== src/Hub/Rules/Soundness.antt =====
-- hub/rules.go: the database after the rules and after the heartbeat check.
use sakura_assistant.Base.{
  ℕ, String, Option, none, some, Bool, true, false, not, ◌==◌, List, [], ◌∷◌, if◌then◌else◌,
}
use sakura_assistant.Hub.Types.{SourceRow}
use sakura_assistant.Hub.Store.{HubEnv, Tx, ◌>>=◌, ◌>>◌, return}
use sakura_assistant.Hub.Ensures.{Ensures, Ensures-bind}
use sakura_assistant.Hub.Fault.Invariant.{IsSound, Sound}
use sakura_assistant.Hub.Ingest.Soundness.{emit_hub_event-Sound}
use sakura_assistant.Hub.Rules.Types.{
  Order, ContainerPayload, NasDiskPayload, NasPoolPayload, NasPayload, SamplePayload, Rule,
}
use sakura_assistant.Hub.Rules.Threshold.{
  LabelValue, Verdict, nothing, opens, resolves, extract_metric,
}
use sakura_assistant.Hub.Rules.Emit.{Report, is_fault_open, emit, emit_if}
use sakura_assistant.Hub.Rules.Nas.{
  Health, bad, good, unknown, report_health, eval_disks, eval_pools, eval_smart, eval_pool,
  smart_open, smart_resolve, disk_health, pool_open, pool_resolve, pool_health,
}
use sakura_assistant.Hub.Rules.Containers.{
  Move, exited, came_back, restarted, no_move, report_move, eval_present, eval_gone,
  eval_containers,
}
use sakura_assistant.Hub.Rules.Engine.{
  Timer, RuleTexts, report_verdict, eval_values, value_or, eval_threshold, eval_rule, eval_rules,
}

-- A step that returns with the database sound, whatever comes before.
abbrev pub Keeps : {A : Type 0} → Tx A → Type 0
Keeps m = Ensures IsSound m Sound

pub Keeps-return : {A : Type 0} (a : A) → Keeps (return a)
Keeps-return a = record { at = λ s h. h }

pub Keeps-then :
    {A B : Type 0} (m : Tx A) (f : A → Tx B) → Keeps m → ((a : A) → Keeps (f a)) → Keeps (m >>= f)
Keeps-then m f km kf = Ensures-bind Sound m f km kf

pub if-Sound : {A : Type 0} (b : Bool) (m n : Tx A) → Keeps m → Keeps n → Keeps (if b then m else n)
if-Sound true m n km kn = km
if-Sound false m n km kn = kn

module _ (env : HubEnv) (src : SourceRow) (now : ℕ) where
  emit-Sound : (p : Report) → Keeps (emit env src now p)
  unfolding emit
  emit-Sound p = emit_hub_event-Sound env src p.kind p.severity _ _ p.title _ now

  emit_if-Sound : (b : Bool) (p : Report) → Keeps (emit_if env src now b p)
  unfolding emit_if
  emit_if-Sound true p = emit-Sound p
  emit_if-Sound false p = Keeps-return tt

  -- A report that depends on whether the fault is open.
  asked-Sound :
      {B : Type 0} (key : String) (f : Bool → Tx B)
      → ((b : Bool) → Keeps (f b))
      → Keeps (is_fault_open src.id key >>= f)
  unfolding is_fault_open
  asked-Sound key f kf = record { at = λ s h. (kf _).at s h }

  report_health-Sound :
      (key : String) (opening ending : Report) (h : Health)
      → Keeps (report_health env src now key opening ending h)
  unfolding report_health
  report_health-Sound key opening ending unknown = Keeps-return tt
  report_health-Sound key opening ending bad =
      asked-Sound key _ (λ b. emit_if-Sound (not b) opening)
  report_health-Sound key opening ending good = asked-Sound key _ (λ b. emit_if-Sound b ending)

  eval_disks-Sound :
      (severity : String) (ds : List NasDiskPayload) → Keeps (eval_disks env src now severity ds)
  unfolding eval_disks
  eval_disks-Sound severity [] = Keeps-return tt
  eval_disks-Sound severity (d ∷ rest) =
      Keeps-then
        (report_health env src now _ (smart_open severity d) (smart_resolve d)
          (disk_health d.smart))
        (λ _. eval_disks env src now severity rest)
        (report_health-Sound _ (smart_open severity d) (smart_resolve d) (disk_health d.smart))
        (λ _. eval_disks-Sound severity rest)

  eval_pools-Sound :
      (severity : String) (ps : List NasPoolPayload) → Keeps (eval_pools env src now severity ps)
  unfolding eval_pools
  eval_pools-Sound severity [] = Keeps-return tt
  eval_pools-Sound severity (p ∷ rest) =
      Keeps-then
        (report_health env src now _ (pool_open severity p) (pool_resolve p) (pool_health p.state))
        (λ _. eval_pools env src now severity rest)
        (report_health-Sound _ (pool_open severity p) (pool_resolve p) (pool_health p.state))
        (λ _. eval_pools-Sound severity rest)

  eval_smart-Sound :
      (severity : String) (n : Option NasPayload) → Keeps (eval_smart env src now severity n)
  unfolding eval_smart
  eval_smart-Sound severity none = Keeps-return tt
  eval_smart-Sound severity (some n) = eval_disks-Sound severity n.disks

  eval_pool-Sound :
      (severity : String) (n : Option NasPayload) → Keeps (eval_pool env src now severity n)
  unfolding eval_pool
  eval_pool-Sound severity none = Keeps-return tt
  eval_pool-Sound severity (some n) = eval_pools-Sound severity n.pools

  module _ (dec : ℕ → String) where
    report_move-Sound :
        (severity : String) (c : ContainerPayload) (m : Move)
        → Keeps (report_move env dec src now severity c m)
    unfolding report_move
    report_move-Sound severity c no_move = Keeps-return tt
    report_move-Sound severity c exited = asked-Sound _ _ (λ b. emit_if-Sound (not b) _)
    report_move-Sound severity c came_back = asked-Sound _ _ (λ b. emit_if-Sound b _)
    report_move-Sound severity c restarted = asked-Sound _ _ (λ b. emit_if-Sound b _)

    eval_present-Sound :
        (severity : String) (filter : Option String) (prev cur : List ContainerPayload)
        → Keeps (eval_present env dec src now severity filter prev cur)
    unfolding eval_present
    eval_present-Sound severity filter prev [] = Keeps-return tt
    eval_present-Sound severity filter prev (c ∷ rest) =
        Keeps-then (report_move env dec src now severity c _)
          (λ _. eval_present env dec src now severity filter prev rest)
          (report_move-Sound severity c _) (λ _. eval_present-Sound severity filter prev rest)

    eval_gone-Sound :
        (filter : Option String) (cur prev : List ContainerPayload)
        → Keeps (eval_gone env dec src now filter cur prev)
    unfolding eval_gone
    eval_gone-Sound filter cur [] = Keeps-return tt
    eval_gone-Sound filter cur (p ∷ rest) =
        Keeps-then _ (λ _. eval_gone env dec src now filter cur rest)
          (if-Sound _ (return tt) _ (Keeps-return tt) (asked-Sound _ _ (λ b. emit_if-Sound b _)))
          (λ _. eval_gone-Sound filter cur rest)

    eval_containers-Sound :
        (severity : String) (filter : Option String) (prev cur : Option (List ContainerPayload))
        → Keeps (eval_containers env dec src now severity filter prev cur)
    unfolding eval_containers
    eval_containers-Sound severity filter prev none = Keeps-return tt
    eval_containers-Sound severity filter prev (some cur) =
        Keeps-then (eval_present env dec src now severity filter _ cur)
          (λ _. eval_gone env dec src now filter cur _) (eval_present-Sound severity filter _ cur)
          (λ _. eval_gone-Sound filter cur _)

module _ {V : Type 0} (env : HubEnv) (o : Order V) (texts : RuleTexts V) (src : SourceRow)
    (now : ℕ) where
  report_verdict-Sound :
      (r : Rule V) (limit back : V) (lv : LabelValue V) (v : Verdict)
      → Keeps (report_verdict env o texts src now r limit back lv v)
  unfolding report_verdict
  report_verdict-Sound r limit back lv nothing = Keeps-return tt
  report_verdict-Sound r limit back lv opens = emit-Sound env src now _
  report_verdict-Sound r limit back lv resolves = emit-Sound env src now _

  eval_values-Sound :
      (r : Rule V) (limit back : V) (lvs : List (LabelValue V)) (timers : List Timer)
      → Keeps (eval_values env o texts src now r limit back lvs timers)
  unfolding eval_values
  eval_values-Sound r limit back [] timers = Keeps-return timers
  eval_values-Sound r limit back (lv ∷ rest) timers = asked-Sound env src now _ _ (λ b.
      Keeps-then (report_verdict env o texts src now r limit back lv _) _
        (report_verdict-Sound r limit back lv _) (λ _. eval_values-Sound r limit back rest _))

  eval_threshold-Sound :
      (r : Rule V) (s : SamplePayload V) (timers : List Timer)
      → Keeps (eval_threshold env o texts src now r s timers)
  unfolding eval_threshold
  eval_threshold-Sound r s timers = go r.value
    where
      go :
          (value : Option V)
          → Keeps (elim value [
            | none ↦ return timers
            | some limit ↦
                eval_values env o texts src now r limit
                  (value_or env o texts src now limit r.recover_value)
                  (extract_metric r s)
                  timers
          ])
      go none = Keeps-return timers
      go (some limit) = eval_values-Sound r limit _ (extract_metric r s) timers

  keeping-Sound : (timers : List Timer) (m : Tx (Unit {0})) → Keeps m → Keeps (m >> return timers)
  keeping-Sound timers m km = Keeps-then m (λ _. return timers) km (λ _. Keeps-return timers)

  eval_rule-Sound :
      (r : Rule V) (prev : Option (SamplePayload V)) (s : SamplePayload V) (timers : List Timer)
      → Keeps (eval_rule env o texts src now r prev s timers)
  unfolding eval_rule
  eval_rule-Sound r prev s timers = if-Sound (not r.enabled) _ _ (Keeps-return timers) (
      if-Sound (r.kind == "threshold") _ _ (eval_threshold-Sound r s timers) (
        if-Sound (r.kind == "container_exit") _ _
          (keeping-Sound timers _
            (eval_containers-Sound env src now texts.dec r.severity r.matching _ s.containers))
          (if-Sound (r.kind == "smart") _ _
            (keeping-Sound timers _ (eval_smart-Sound env src now r.severity s.nas))
            (if-Sound (r.kind == "pool") _ _
              (keeping-Sound timers _ (eval_pool-Sound env src now r.severity s.nas))
              (Keeps-return timers)))))

  pub eval_rules-Sound :
      (rules : List (Rule V)) (prev : Option (SamplePayload V)) (s : SamplePayload V)
      (timers : List Timer)
      → Keeps (eval_rules env o texts src now rules prev s timers)
  unfolding eval_rules
  eval_rules-Sound [] prev s timers = Keeps-return timers
  eval_rules-Sound (r ∷ rest) prev s timers =
      Keeps-then (eval_rule env o texts src now r prev s timers)
        (eval_rules env o texts src now rest prev s) (eval_rule-Sound r prev s timers)
        (λ t. eval_rules-Sound rest prev s t)
