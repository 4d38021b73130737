-- ===== src/Hub/Stream/Frames.antt =====
-- hub/sse.go, sseWrite and changeSSEData: what is written to the stream. The texts of JSON objects and
-- the kind of an entry's object are parameters; data is a list of bytes.
use sakura_assistant.Base.{
  ℕ, zero, suc, String, Option, none, some, true, false, not, List, [], ◌∷◌, ◌++◌, ◌==◌, eqb,
  if◌then◌else◌,
}
use sakura_assistant.Hub.Types.{NotifyBlock, ChangeData, ChangeEntry}

abbrev pub Bytes : Type 0
Bytes = List ℕ

abbrev pub newline : ℕ
newline = 10

-- The loop of `splitLines`, with the bytes since `start`.
unfoldable pub split_from : Bytes → Bytes → List Bytes
split_from line [] = line ∷ []
split_from line (c ∷ rest) = elim (eqb c newline) [
  | true ↦ line ∷ split_from [] rest
  | false ↦ split_from (line ++ c ∷ []) rest
]

unfoldable pub split_lines : Bytes → List Bytes
split_lines b = split_from [] b

-- The bytes of a text and the decimals of a number, as `fmt.Fprintf` prints them; and the JSON of
-- entries: `json.Unmarshal` of the data, the key "notify" added, and `json.Marshal`.
pub record StreamEnv : Type 0 where
  pub bytes_of : String → Bytes
  pub decimal : ℕ → Bytes
  pub parse_number : String → Option ℕ
  pub type_of : ChangeData → String
  pub data_of : ChangeData → Bytes
  pub with_notify : Bytes → NotifyBlock → Option Bytes
  pub cursor_expired : Bytes
  pub internal : Bytes

-- "id: ", "event: " and "data: "
abbrev pub id_field : Bytes
id_field = 105 ∷ 100 ∷ 58 ∷ 32 ∷ []

abbrev pub event_field : Bytes
event_field = 101 ∷ 118 ∷ 101 ∷ 110 ∷ 116 ∷ 58 ∷ 32 ∷ []

abbrev pub data_field : Bytes
data_field = 100 ∷ 97 ∷ 116 ∷ 97 ∷ 58 ∷ 32 ∷ []

abbrev pub line_of : Bytes → Bytes → Bytes
line_of field v = field ++ v ++ newline ∷ []

abbrev pub id_lines : StreamEnv → ℕ → Bytes
id_lines env zero = []
id_lines env (suc n) = line_of id_field (env.decimal (suc n))

abbrev pub data_lines : List Bytes → Bytes
data_lines [] = []
data_lines (l ∷ rest) = line_of data_field l ++ data_lines rest

-- The bytes that `sseWrite` prints.
unfoldable pub sse_write : StreamEnv → String → ℕ → Bytes → Bytes
sse_write env event id body =
    id_lines env id
    ++ (line_of event_field (env.bytes_of event) ++ (data_lines (split_lines body) ++ newline ∷ []))

unfoldable pub change_sse_data : StreamEnv → ChangeEntry → Bytes
change_sse_data env e = elim e.notify [
  | none ↦ env.data_of e.object
  | some block ↦
      if not (env.type_of e.object == "message")
      then env.data_of e.object
      else elim (env.with_notify (env.data_of e.object) block) [
        | none ↦ env.data_of e.object
        | some body ↦ body
      ]
]

unfoldable pub write_entry : StreamEnv → ChangeEntry → Bytes
write_entry env e = sse_write env (env.type_of e.object) e.seq (change_sse_data env e)
