-- ===== src/Hub/Rules/Containers.antt =====
-- hub/rules.go: evalContainers.
use sakura_assistant.Base.{
  ℕ, String, Option, none, some, Bool, true, false, not, ◌&&◌, ◌||◌, List, [], ◌∷◌, ◌==◌, ltb,
  if◌then◌else◌,
}
use Prim.Native.String.{◌++◌ as text_append}
use sakura_assistant.Hub.Types.{SourceRow}
use sakura_assistant.Hub.Store.{HubEnv, Tx, ◌>>=◌, ◌>>◌, return}
use sakura_assistant.Hub.Rules.Types.{ContainerPayload}
use sakura_assistant.Hub.Rules.Emit.{Report, is_fault_open, emit_if, severity_or}

-- The filter `match` of a rule.
unfoldable pub takes : Option String → String → Bool
takes none name = true
takes (some m) name = m == "*" || m == name

-- `prevByName`: of two containers with one name, the later.
unfoldable pub named : String → List ContainerPayload → Option ContainerPayload
named name [] = none
named name (c ∷ rest) = elim (named name rest) [
  | some d ↦ some d
  | none ↦ if c.name == name then some c else none
]

abbrev is_running : ContainerPayload → Bool
is_running c = c.state == "running"

abbrev more : Option ℕ → Option ℕ → Bool
more none b = false
more (some a) none = false
more (some a) (some b) = ltb b a

abbrev container_key : ContainerPayload → String
container_key c = text_append "container:" c.name

abbrev about : ContainerPayload → String → String
about c what = text_append "容器 " (text_append c.name what)

-- What a container did since the last sample.
pub data Move : Type 0 where
  exited came_back restarted no_move : Move

unfoldable pub move_of : ContainerPayload → ContainerPayload → Move
move_of was c =
    if is_running was && not (is_running c)
    then exited
    else if not (is_running was) && is_running c
    then came_back
    else if is_running was && is_running c && more c.restart_count was.restart_count
    then restarted
    else no_move

-- `dec` prints a number.
module _ (env : HubEnv) (dec : ℕ → String) (src : SourceRow) (now : ℕ) where
  abbrev state_text : ContainerPayload → String
  state_text c = text_append "state=" (
      text_append c.state
        (elim c.exit_code [ none ↦ "" | some code ↦ text_append " exitCode=" code ]))

  abbrev count_text : Option ℕ → String
  count_text none = ""
  count_text (some n) = dec n

  abbrev report : String → String → String → ContainerPayload → String → String → Report
  report kind severity action c what body = record {
    kind = kind;
    severity = severity;
    fault_key = container_key c;
    action = action;
    title = about c what;
    body = body;
  }

  unfoldable pub report_move : String → ContainerPayload → Move → Tx (Unit {0})
  report_move severity c no_move = return tt
  report_move severity c exited = is_fault_open src.id (container_key c) >>= (λ open_now.
      emit_if env src now (not open_now)
        (report "container_exit" (severity_or "warning" severity) "open" c " 退出" (state_text c)))
  report_move severity c came_back = is_fault_open src.id (container_key c) >>= (λ open_now.
      emit_if env src now open_now
        (report "container_back" "info" "resolve" c " 恢复运行" "state=running"))
  report_move severity c restarted = is_fault_open src.id (container_key c) >>= (λ open_now.
      emit_if env src now open_now (
        report "container_exit" "warning" "update" c " 重启计数增加"
          (text_append "restartCount=" (count_text c.restart_count))))

  -- A container that was not in the last sample makes no move.
  abbrev pub move_since : Option ContainerPayload → ContainerPayload → Move
  move_since none c = no_move
  move_since (some was) c = move_of was c

  unfoldable pub eval_present :
      String → Option String → List ContainerPayload → List ContainerPayload → Tx (Unit {0})
  eval_present severity filter prev [] = return tt
  eval_present severity filter prev (c ∷ rest) =
      report_move severity c
        (if takes filter c.name then move_since (named c.name prev) c else no_move)
      >> eval_present severity filter prev rest

  abbrev is_in : String → List ContainerPayload → Bool
  is_in name cur = elim (named name cur) [ none ↦ false | some _ ↦ true ]

  -- Containers that are gone.
  unfoldable pub eval_gone :
      Option String → List ContainerPayload → List ContainerPayload → Tx (Unit {0})
  eval_gone filter cur [] = return tt
  eval_gone filter cur (p ∷ rest) =
      (if is_in p.name cur || not (takes filter p.name)
        then return tt
        else is_fault_open src.id (container_key p) >>= (λ open_now.
          emit_if env src now open_now (report "container_back" "info" "resolve" p " 已移除" "容器已移除")))
      >> eval_gone filter cur rest

  abbrev listed : Option (List ContainerPayload) → List ContainerPayload
  listed none = []
  listed (some cs) = cs

  -- A sample without containers is not evaluated. With no last sample the list before is empty.
  unfoldable pub eval_containers :
      String
      → Option String
      → Option (List ContainerPayload)
      → Option (List ContainerPayload)
      → Tx (Unit {0})
  eval_containers severity filter prev none = return tt
  eval_containers severity filter prev (some cur) =
      eval_present severity filter (listed prev) cur >> eval_gone filter cur (listed prev)
