-- ===== src/Hub/Metrics/Tables.antt =====
-- hub/ingest.go: what a sample leaves beside the tables of `Hub`. Samples are kept as the records
-- that their JSON texts stand for.
use sakura_assistant.Base.{ℕ, String, Option, none, some, ◌&&◌, List, [], ◌∷◌, ◌==◌, if◌then◌else◌}
use Prim.Native.String.{◌++◌ as text_append}
use sakura_assistant.Hub.Rules.Types.{DiskPayload, NetPayload, SamplePayload}

pub record AgentInfo : Type 0 where
  pub version : String
  pub os : String
  pub arch : String
  pub hostname : String

pub record MetricsReq (V : Type 0) : Type 0 where
  pub seq : ℕ
  pub sample : Option (SamplePayload V)
  pub agent : Option AgentInfo
  pub capabilities : Option String

pub record DiskSum (V : Type 0) : Type 0 where
  pub mount : String
  pub percent : V

pub record Summary (V : Type 0) : Type 0 where
  pub ts : String
  pub cpu_percent : Option V
  pub mem_percent : Option V
  pub disks : List (DiskSum V)
  pub uptime_seconds : Option ℕ

pub record SampleRow (V : Type 0) : Type 0 where
  pub source_id : String
  pub received_at : String
  pub sample : SamplePayload V

pub record RawRow (V : Type 0) : Type 0 where
  pub source_id : String
  pub ts : String
  pub metric : String
  pub label : String
  pub value : V

-- The columns of sources that only this handler writes.
pub record Details (V : Type 0) : Type 0 where
  pub source_id : String
  pub last_summary : Option (Summary V)
  pub prev_sample : Option (SamplePayload V)
  pub agent_version : Option String
  pub agent_os : Option String
  pub agent_arch : Option String
  pub hostname : Option String
  pub capabilities : Option String

pub record MetricsDb (V : Type 0) : Type 0 where
  pub samples : List (SampleRow V)
  pub raw : List (RawRow V)
  pub details : List (Details V)

-- `nullStr`
unfoldable pub null_str : String → Option String
null_str s = if s == "" then none else some s

module _ {V : Type 0} where
  -- `INSERT OR REPLACE` under the key (source_id, ts).
  unfoldable pub put_sample : SampleRow V → List (SampleRow V) → List (SampleRow V)
  put_sample r [] = r ∷ []
  put_sample r (x ∷ rest) =
      let others = put_sample r rest in
      if x.source_id == r.source_id && x.sample.ts == r.sample.ts then r ∷ rest else x ∷ others

  -- `INSERT OR REPLACE` under the key (source_id, ts, metric, label).
  unfoldable pub put_raw : RawRow V → List (RawRow V) → List (RawRow V)
  put_raw r [] = r ∷ []
  put_raw r (x ∷ rest) =
      let others = put_raw r rest in
      if x.source_id == r.source_id && x.ts == r.ts && x.metric == r.metric && x.label == r.label
      then r ∷ rest
      else x ∷ others

  abbrev put_some : String → String → String → String → Option V → List (RawRow V) → List (RawRow V)
  put_some src ts metric label none rows = rows
  put_some src ts metric label (some v) rows =
      put_raw (record { source_id = src; ts = ts; metric = metric; label = label; value = v }) rows

  unfoldable pub put_disks :
      String → String → List (DiskPayload V) → List (RawRow V) → List (RawRow V)
  put_disks src ts [] rows = rows
  put_disks src ts (d ∷ rest) rows =
      put_disks src ts rest
        (put_some src ts "disk_percent" (text_append "mount=" d.mount) d.percent rows)

  unfoldable pub put_net :
      String → String → Option (NetPayload V) → List (RawRow V) → List (RawRow V)
  put_net src ts none rows = rows
  put_net src ts (some n) rows =
      put_some src ts "net_tx_bps" "" n.tx_bps (put_some src ts "net_rx_bps" "" n.rx_bps rows)

  -- `insertRawMetrics`: an absent field makes no row.
  unfoldable pub insert_raw_metrics : String → SamplePayload V → List (RawRow V) → List (RawRow V)
  insert_raw_metrics src s rows = put_net src s.ts s.net (
      put_disks src s.ts s.disks (
        put_some src s.ts "mem_percent" "" s.mem_percent
          (put_some src s.ts "cpu_percent" "" s.cpu_percent rows)))

  unfoldable pub disk_sums : List (DiskPayload V) → List (DiskSum V)
  disk_sums [] = []
  disk_sums (d ∷ rest) =
      let others = disk_sums rest in
      elim d.percent [ none ↦ others | some v ↦ record { mount = d.mount; percent = v } ∷ others ]

  unfoldable pub build_summary : SamplePayload V → Summary V
  build_summary s = record {
    ts = s.ts;
    cpu_percent = s.cpu_percent;
    mem_percent = s.mem_percent;
    disks = disk_sums s.disks;
    uptime_seconds = s.uptime_seconds;
  }

  abbrev pub no_details : String → Details V
  no_details src = record {
    source_id = src;
    last_summary = none;
    prev_sample = none;
    agent_version = none;
    agent_os = none;
    agent_arch = none;
    hostname = none;
    capabilities = none;
  }

  unfoldable pub find_details : String → List (Details V) → Details V
  find_details src [] = no_details src
  find_details src (d ∷ rest) = if d.source_id == src then d else find_details src rest

  unfoldable pub put_details : Details V → List (Details V) → List (Details V)
  put_details d [] = d ∷ []
  put_details d (x ∷ rest) =
      let others = put_details d rest in if x.source_id == d.source_id then d ∷ rest else x ∷ others

  abbrev with_agent : Option AgentInfo → Details V → Details V
  with_agent none d = d
  with_agent (some a) d = record d {
    agent_version = null_str a.version;
    agent_os = null_str a.os;
    agent_arch = null_str a.arch;
    hostname = null_str a.hostname;
  }

  abbrev with_capabilities : Option String → Details V → Details V
  with_capabilities none d = d
  with_capabilities (some c) d = record d { capabilities = some c }

  -- The columns after a sample.
  unfoldable pub updated : MetricsReq V → SamplePayload V → Details V → Details V
  updated req s d = with_capabilities req.capabilities (
      with_agent req.agent
        (record d { last_summary = some (build_summary s); prev_sample = some s }))
