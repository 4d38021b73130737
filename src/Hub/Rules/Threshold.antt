-- ===== src/Hub/Rules/Threshold.antt =====
-- hub/rules.go: what a threshold rule makes of one value. Times and durations are in nanoseconds.
use sakura_assistant.Base.{
  ℕ, ◌+◌, ◌*◌, ◌%◌, ◌^◌, String, Option, none, some, Bool, true, false, not, ◌&&◌, ◌||◌, List, [],
  ◌∷◌, ◌==◌, leb, if◌then◌else◌,
}
use Prim.Native.String.{◌++◌ as text_append}
use sakura_assistant.Hub.Rules.Types.{Order, DiskPayload, NetPayload, SamplePayload, Rule}

pub record LabelValue (V : Type 0) : Type 0 where
  pub sel : String
  pub v : V

pub record RuleState : Type 0 where
  pub breach : Bool
  pub breach_since : ℕ
  pub recovering : Bool
  pub recover_since : ℕ

abbrev pub no_state : RuleState
no_state = record { breach = false; breach_since = 0; recovering = false; recover_since = 0 }

abbrev pub second : ℕ
second = 1000000000

-- `evalNow.Sub(since) >= time.Duration(n) * time.Second`: the product is an int64 and wraps around, and
-- any time has passed since, when it is negative.
abbrev pub elapsed : ℕ → ℕ → ℕ → Bool
elapsed now since n = leb (2 ^ 63) (n * second % 2 ^ 64) || leb (since + n * second % 2 ^ 64) now

-- A label filter that is absent or "*" takes every disk.
abbrev label_takes : Option String → String → Bool
label_takes none sel = true
label_takes (some l) sel = l == "*" || l == sel

module _ {V : Type 0} where
  abbrev one_value : Option V → List (LabelValue V)
  one_value none = []
  one_value (some v) = record { sel = "-"; v = v } ∷ []

  unfoldable pub disk_values : Option String → List (DiskPayload V) → List (LabelValue V)
  disk_values label [] = []
  disk_values label (d ∷ rest) =
      let others = disk_values label rest in
      elim d.percent [
        | none ↦ others
        | some v ↦
            let sel = text_append "mount=" d.mount in
            if label_takes label sel then record { sel = sel; v = v } ∷ others else others
      ]

  abbrev net_value : (NetPayload V → Option V) → Option (NetPayload V) → List (LabelValue V)
  net_value get none = []
  net_value get (some n) = one_value (get n)

  unfoldable pub extract_metric : Rule V → SamplePayload V → List (LabelValue V)
  unfolding disk_values
  extract_metric r s =
      if r.metric == "cpu_percent"
      then one_value s.cpu_percent
      else if r.metric == "mem_percent"
      then one_value s.mem_percent
      else if r.metric == "disk_percent"
      then disk_values r.label s.disks
      else if r.metric == "net_rx_bps"
      then net_value (λ n. n.rx_bps) s.net
      else if r.metric == "net_tx_bps"
      then net_value (λ n. n.tx_bps) s.net
      else []

  unfoldable pub violates : Order V → String → V → V → Bool
  violates o op v limit =
      if op == "gte"
      then o.le limit v
      else if op == "lt"
      then o.lt v limit
      else if op == "lte"
      then o.le v limit
      else o.lt limit v

  unfoldable pub recovers : Order V → String → V → V → Bool
  recovers o op v limit = if op == "lt" || op == "lte" then o.lt limit v else o.lt v limit

  unfoldable pub threshold_title : Rule V → String → String
  threshold_title r sel =
      if not (sel == "-") && not (sel == "")
      then text_append r.metric (text_append "(" (text_append sel ")"))
      else r.metric

-- What the rule does with its fault.
pub data Verdict : Type 0 where
  nothing opens resolves : Verdict

-- The body of the loop of `evalThreshold`, but for the events: `violation` and `recovery` are the
-- answers of `violates` and `recovers`, and `fault_open` that of `isFaultOpen`.
abbrev pub breached : RuleState → ℕ → RuleState
breached st now = record {
  breach = true;
  breach_since = if st.breach then st.breach_since else now;
  recovering = false;
  recover_since = st.recover_since;
}

abbrev pub recovering_from : RuleState → ℕ → RuleState
recovering_from st now = record st {
  breach = false;
  recovering = true;
  recover_since = if st.recovering then st.recover_since else now;
}

unfoldable pub judge : ℕ → ℕ → RuleState → Bool → Bool → Bool → ℕ → Verdict × RuleState
judge for recover_for st violation recovery fault_open now =
    let hit = breached st now in
    let back = recovering_from st now in
    if violation
    then (if elapsed now hit.breach_since for && not fault_open
        then (opens, hit)
        else (nothing, hit))
    else if not fault_open
    then (nothing, record st { breach = false })
    else if not recovery
    then (nothing, record st { breach = false; recovering = false })
    else if elapsed now back.recover_since recover_for
    then (resolves, no_state)
    else (nothing, back)
