-- ===== src/Hub/Rules/Nas.antt =====
-- hub/rules.go: evalSmart and evalPool.
use sakura_assistant.Base.{
  ℕ, String, Option, none, some, not, ◌||◌, List, [], ◌∷◌, ◌==◌, if◌then◌else◌,
}
use Prim.Native.String.{◌++◌ as text_append}
use sakura_assistant.Hub.Types.{SourceRow}
use sakura_assistant.Hub.Store.{HubEnv, Tx, ◌>>=◌, ◌>>◌, return}
use sakura_assistant.Hub.Rules.Types.{NasDiskPayload, NasPoolPayload, NasPayload}
use sakura_assistant.Hub.Rules.Emit.{Report, is_fault_open, emit_if, severity_or}

-- What a reading says of its fault: bad, good, or nothing.
pub data Health : Type 0 where
  bad good unknown : Health

unfoldable pub disk_health : String → Health
disk_health smart = if smart == "failing" then bad else if smart == "ok" then good else unknown

unfoldable pub pool_health : String → Health
pool_health state =
    if state == "degraded" || state == "error" then bad else if state == "ok" then good else unknown

unfoldable pub smart_open : String → NasDiskPayload → Report
smart_open severity d = record {
  kind = "smart_failing";
  severity = severity_or "critical" severity;
  fault_key = text_append "smart:" d.dev;
  action = "open";
  title = text_append "磁盘 " (text_append d.dev " SMART 异常");
  body = "smart=failing";
}

unfoldable pub smart_resolve : NasDiskPayload → Report
smart_resolve d = record {
  kind = "smart_back";
  severity = "info";
  fault_key = text_append "smart:" d.dev;
  action = "resolve";
  title = text_append "磁盘 " (text_append d.dev " SMART 恢复");
  body = "smart=ok";
}

unfoldable pub pool_open : String → NasPoolPayload → Report
pool_open severity p = record {
  kind = "pool_error";
  severity = severity_or "critical" severity;
  fault_key = text_append "pool:" p.name;
  action = "open";
  title = text_append "存储池 " (text_append p.name " 异常");
  body = text_append "state=" p.state;
}

unfoldable pub pool_resolve : NasPoolPayload → Report
pool_resolve p = record {
  kind = "pool_back";
  severity = "info";
  fault_key = text_append "pool:" p.name;
  action = "resolve";
  title = text_append "存储池 " (text_append p.name " 恢复");
  body = "state=ok";
}

module _ (env : HubEnv) (src : SourceRow) (now : ℕ) where
  -- A bad reading opens a fault that is not open; a good one ends a fault that is.
  unfoldable pub report_health : String → Report → Report → Health → Tx (Unit {0})
  report_health key opening ending unknown = return tt
  report_health key opening ending bad =
      is_fault_open src.id key >>= (λ open_now. emit_if env src now (not open_now) opening)
  report_health key opening ending good =
      is_fault_open src.id key >>= (λ open_now. emit_if env src now open_now ending)

  unfoldable pub eval_disks : String → List NasDiskPayload → Tx (Unit {0})
  eval_disks severity [] = return tt
  eval_disks severity (d ∷ rest) =
      report_health (text_append "smart:" d.dev) (smart_open severity d) (smart_resolve d)
        (disk_health d.smart)
      >> eval_disks severity rest

  unfoldable pub eval_pools : String → List NasPoolPayload → Tx (Unit {0})
  eval_pools severity [] = return tt
  eval_pools severity (p ∷ rest) =
      report_health (text_append "pool:" p.name) (pool_open severity p) (pool_resolve p)
        (pool_health p.state)
      >> eval_pools severity rest

  unfoldable pub eval_smart : String → Option NasPayload → Tx (Unit {0})
  eval_smart severity none = return tt
  eval_smart severity (some n) = eval_disks severity n.disks

  unfoldable pub eval_pool : String → Option NasPayload → Tx (Unit {0})
  eval_pool severity none = return tt
  eval_pool severity (some n) = eval_pools severity n.pools
