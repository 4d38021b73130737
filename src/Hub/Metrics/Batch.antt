-- ===== src/Hub/Metrics/Batch.antt =====
-- hub/ingest.go, handleIngestMetrics.
use sakura_assistant.Base.{
  ℕ, String, Option, none, some, Bool, true, false, ◌==◌, List, leb, if◌then◌else◌,
}
use Prim.Native.String.{◌++◌ as text_append}
use sakura_assistant.Hub.Types.{SourceRow}
use sakura_assistant.Hub.Store.{
  HubEnv, Hub, Tx, Result, ok, err, ◌>>=◌, ◌>>◌, return, modify, update_source, with_tx,
}
use sakura_assistant.Hub.Fault.Apply.{emit_hub_event, touch_source_seen}
use sakura_assistant.Hub.Ingest.Events.{load_source, emit_source_change}
use sakura_assistant.Hub.Rules.Types.{Order, SamplePayload, Rule}
use sakura_assistant.Hub.Rules.Engine.{Timer, RuleTexts, eval_sample}
use sakura_assistant.Hub.Metrics.Tables.{
  MetricsReq, MetricsDb, put_sample, insert_raw_metrics, find_details, put_details, updated,
}

-- A restart is reported when another boot time was known.
unfoldable pub report_reboot : HubEnv → SourceRow → ℕ → Option String → String → Tx (Unit {0})
report_reboot env cur arrival none boot = return tt
report_reboot env cur arrival (some was) boot =
    emit_hub_event env cur "host_reboot" "info" none none (text_append cur.name " 已重启")
      (some (text_append "bootTime " (text_append was (text_append " → " boot)))) arrival

abbrev same_boot : Option String → String → Bool
same_boot none boot = false
same_boot (some was) boot = was == boot

unfoldable pub note_boot : HubEnv → SourceRow → ℕ → Option String → Tx (Unit {0})
note_boot env cur arrival none = return tt
note_boot env cur arrival (some boot) =
    if boot == ""
    then return tt
    else if same_boot cur.last_boot_time boot
    then return tt
    else report_reboot env cur arrival cur.last_boot_time boot
      >> modify (λ s. record s {
        sources = update_source cur.id (λ r. record r { last_boot_time = some boot }) s.sources;
      })

-- The tables of samples, and the timers of the rules.
pub record Memory (V : Type 0) : Type 0 where
  pub db : MetricsDb V
  pub timers : List Timer

pub record Outcome (V : Type 0) : Type 0 where
  pub duplicate : Bool
  pub memory : Memory V

pub data MetricsReply : Type 0 where
  bad_sample : String → MetricsReply
  failed : MetricsReply
  taken : Bool → MetricsReply

-- The answer, the database, the tables of samples, and the timers: `none` after a failed
-- transaction, whose timers are not modelled.
pub record MetricsResult (V : Type 0) : Type 0 where
  pub reply : MetricsReply
  pub hub : Hub
  pub db : MetricsDb V
  pub timers : Option (List Timer)

abbrev pub result_of : {V : Type 0} → Memory V → Result (Outcome V) × Hub → MetricsResult V
result_of memory (ok out, s) = record {
  reply = taken out.duplicate;
  hub = s;
  db = out.memory.db;
  timers = some out.memory.timers;
}
result_of memory (err e, s) = record { reply = failed; hub = s; db = memory.db; timers = none }

abbrev pub not_taken : {V : Type 0} → String → Memory V → Hub → MetricsResult V
not_taken message memory s = record {
  reply = bad_sample message;
  hub = s;
  db = memory.db;
  timers = some memory.timers;
}

unfoldable pub refresh : HubEnv → String → Tx (Unit {0})
refresh env id = load_source id >>= emit_source_change env

module _ {V : Type 0} (env : HubEnv) (o : Order V) (texts : RuleTexts V)
    (rules : List (Rule V)) where
  abbrev stored : SourceRow → ℕ → MetricsReq V → SamplePayload V → MetricsDb V → MetricsDb V
  stored cur arrival req sample db = record {
    samples =
        put_sample
          (record { source_id = cur.id; received_at = env.fmt_ts arrival; sample = sample })
          db.samples;
    raw = insert_raw_metrics cur.id sample db.raw;
    details = put_details (updated req sample (find_details cur.id db.details)) db.details;
  }

  -- A sample that is new: its rows, a restart, the rules, the change. The rules see the sample
  -- before as it was when the transaction began.
  unfoldable pub store_sample :
      SourceRow → ℕ → MetricsReq V → SamplePayload V → Memory V → Tx (Outcome V)
  store_sample cur arrival req sample memory = do
    note_boot env cur arrival sample.boot_time
    modify (λ s. record s {
      sources =
          update_source cur.id
            (λ r. record r { last_metrics_seq = req.seq; updated_at = env.fmt_ts arrival })
            s.sources;
    })
    timers ←
        eval_sample env o texts (record cur { last_metrics_seq = req.seq }) rules
          (find_details cur.id memory.db.details).prev_sample sample arrival memory.timers
    refresh env cur.id
    return (record {
      duplicate = false;
      memory = record { db = stored cur arrival req sample memory.db; timers = timers };
    })

  -- A batch whose number is not above the last one is dropped, but counts as traffic.
  unfoldable pub take_sample :
      ℕ → MetricsReq V → SamplePayload V → Memory V → SourceRow → Tx (Outcome V)
  take_sample arrival req sample memory cur =
      if leb req.seq cur.last_metrics_seq
      then refresh env cur.id >> return (record { duplicate = true; memory = memory })
      else store_sample cur arrival req sample memory

  unfoldable pub ingest_sample :
      String → ℕ → MetricsReq V → SamplePayload V → Memory V → Tx (Outcome V)
  ingest_sample id arrival req sample memory =
      load_source id
      >>= (λ row. touch_source_seen env row arrival >>= take_sample arrival req sample memory)

  unfoldable pub handle_sample :
      Bool → String → ℕ → MetricsReq V → Memory V → Hub → Option (SamplePayload V) → MetricsResult V
  handle_sample aborted id arrival req memory s none = not_taken "sample.ts 必填" memory s
  handle_sample aborted id arrival req memory s (some sample) =
      if sample.ts == "" then not_taken "sample.ts 必填" memory s else elim (env.parse_ts sample.ts) [
        | none ↦ not_taken "sample.ts 非法" memory s
        | some _ ↦ result_of memory (with_tx aborted (ingest_sample id arrival req sample memory) s)
      ]

  -- `handleIngestMetrics`, after the body is decoded. `aborted` is the transaction's failure.
  unfoldable pub handle_ingest_metrics :
      Bool → String → ℕ → MetricsReq V → Memory V → Hub → MetricsResult V
  handle_ingest_metrics aborted id arrival req memory s =
      handle_sample aborted id arrival req memory s req.sample
