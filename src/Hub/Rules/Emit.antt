-- ===== src/Hub/Rules/Emit.antt =====
-- hub/rules.go: isFaultOpen, and the events that rules emit.
use sakura_assistant.Base.{
  ℕ, String, some, Bool, true, false, ◌&&◌, ◌||◌, List, [], ◌∷◌, ◌==◌, if◌then◌else◌,
}
use sakura_assistant.Hub.Types.{FaultRow, SourceRow}
use sakura_assistant.Hub.Store.{HubEnv, Tx, gets, return}
use sakura_assistant.Hub.Fault.Machine.{is_opened}
use sakura_assistant.Hub.Fault.Apply.{emit_hub_event}

unfoldable pub fault_open : String → String → List FaultRow → Bool
fault_open src key [] = false
fault_open src key (f ∷ rest) =
    f.source_id == src && f.fault_key == key && is_opened f.state || fault_open src key rest

unfoldable pub is_fault_open : String → String → Tx Bool
is_fault_open src key = gets (λ s. fault_open src key s.faults)

-- An event that a rule may emit.
pub record Report : Type 0 where
  pub kind : String
  pub severity : String
  pub fault_key : String
  pub action : String
  pub title : String
  pub body : String

unfoldable pub emit : HubEnv → SourceRow → ℕ → Report → Tx (Unit {0})
emit env src at p =
    emit_hub_event env src p.kind p.severity (some p.fault_key) (some p.action) p.title
      (some p.body) at

unfoldable pub emit_if : HubEnv → SourceRow → ℕ → Bool → Report → Tx (Unit {0})
emit_if env src at true p = emit env src at p
emit_if env src at false p = return tt

-- A rule whose severity is empty has a default.
abbrev pub severity_or : String → String → String
severity_or default s = if s == "" then default else s
