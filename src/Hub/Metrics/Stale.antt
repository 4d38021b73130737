-- ===== src/Hub/Metrics/Stale.antt =====
-- hub/ingest.go, handleIngestMetrics: a batch that came before.
use sakura_assistant.Base.{
  ℕ, String, ◌≡◌, refl, ap, Option, none, some, Bool, true, ◌==◌, List, leb, inl, inr, Bool-cases,
  Option-cases,
}
use sakura_assistant.Hub.Types.{SourceRow}
use sakura_assistant.Hub.Store.{HubEnv, Hub, Result, ok, err, return, find_source, with_tx, kept}
use sakura_assistant.Hub.Ensures.{Post, Ensures, Ensures-bind, Ensures-fact, Ensures-any}
use sakura_assistant.Hub.Fault.Apply.{touch_source_seen}
use sakura_assistant.Hub.Fault.Events.{Seen, touch_source_seen-Seen}
use sakura_assistant.Hub.Ingest.Delivered.{load_source-found}
use sakura_assistant.Hub.Rules.Types.{Order, SamplePayload, Rule}
use sakura_assistant.Hub.Rules.Engine.{RuleTexts}
use sakura_assistant.Hub.Metrics.Tables.{MetricsReq}
use sakura_assistant.Hub.Metrics.Batch.{
  Memory, Outcome, refresh, take_sample, ingest_sample, bad_sample, failed, taken, MetricsResult,
  result_of, handle_sample, handle_ingest_metrics,
}

-- The tables of samples are as they were, so are the timers after a transaction that did not fail,
-- and an answer that the batch is taken calls it a duplicate.
abbrev pub IsDropped : {V : Type 0} → Memory V → MetricsResult V → Type 0
IsDropped memory r =
    (r.db ≡ memory.db)
    × (elim r.timers [ none ↦ Unit {0} | some t ↦ t ≡ memory.timers ])
    × (elim r.reply [ bad_sample m ↦ Unit {0} | failed ↦ Unit {0} | taken dup ↦ dup ≡ true ])

module _ {V : Type 0} (env : HubEnv) (o : Order V) (texts : RuleTexts V) (rules : List (Rule V))
    (arrival : ℕ) (req : MetricsReq V) (memory : Memory V) where
  abbrev Duplicate : Outcome V → Hub → Type 0
  Duplicate out s = (out.duplicate ≡ true) × (out.memory ≡ memory)

  take_sample-Duplicate :
      (sample : SamplePayload V) (cur : SourceRow)
      → leb req.seq cur.last_metrics_seq ≡ true
      → Ensures
          (λ _. Unit {0})
          (take_sample env o texts rules arrival req sample memory cur)
          Duplicate
  unfolding take_sample
  take_sample-Duplicate sample cur old = rw old (
      Ensures-bind (λ _ _. Unit {0}) (refresh env cur.id)
        (λ _. return (record { duplicate = true; memory = memory })) (Ensures-any _)
        (λ _. record { at = λ s h. (refl, refl) }))

  ingest_sample-Duplicate :
      (id : String) (sample : SamplePayload V) (row : SourceRow) (s : Hub)
      → find_source id s.sources ≡ some row
      → leb req.seq row.last_metrics_seq ≡ true
      → Post Duplicate (ingest_sample env o texts rules id arrival req sample memory s)
  unfolding ingest_sample
  ingest_sample-Duplicate id sample row s found old = rw (load_source-found id row s found) (
      (Ensures-bind (Seen (λ _. Unit {0}) (λ es e h. tt) row) (touch_source_seen env row arrival)
          (take_sample env o texts rules arrival req sample memory)
          (touch_source_seen-Seen (λ _. Unit {0}) (λ es e h. tt) env row arrival)
          (λ cur. Ensures-fact (λ seen. take_sample-Duplicate sample cur (rw seen.metrics old)))).at
        s tt)

  -- A batch of a known source whose number is not above the source's last one is dropped, whatever it
  -- holds: the tables of samples stay as they are, so do the timers unless the transaction fails, and
  -- an answer that the batch is taken calls it a duplicate.
  pub handle_ingest_metrics-IsDropped :
      (aborted : Bool) (id : String) (row : SourceRow) (s : Hub)
      → find_source id s.sources ≡ some row
      → leb req.seq row.last_metrics_seq ≡ true
      → IsDropped memory (handle_ingest_metrics env o texts rules aborted id arrival req memory s)
  unfolding handle_ingest_metrics handle_sample with_tx
  handle_ingest_metrics-IsDropped aborted id row s found old = on req.sample
    where
      go :
          (r : Result (Outcome V) × Hub)
          → Post Duplicate r
          → IsDropped memory (result_of memory (kept s r))
      go (ok out, s') d = (ap (λ m. m.db) d.1, ap (λ m. m.timers) d.1, d.0)
      go (err e, s') d = (refl, tt, tt)

      on :
          (sample : Option (SamplePayload V))
          → IsDropped memory
              (handle_sample env o texts rules aborted id arrival req memory s sample)
      on none = (refl, refl, tt)
      on (some sample) = elim (Bool-cases (sample.ts == "")) [
        | inl empty ↦ rw empty (refl, refl, tt)
        | inr there ↦ elim (Option-cases (env.parse_ts sample.ts)) [
          | inl bad ↦ rw (there, bad) (refl, refl, tt)
          | inr (t, good) ↦ elim (Bool-cases aborted) [
            | inl a ↦ rw (there, good, a) (refl, tt, tt)
            | inr b ↦
                rw (there, good, b)
                  (go (ingest_sample env o texts rules id arrival req sample memory s)
                    (ingest_sample-Duplicate id sample row s found old))
          ]
        ]
      ]
