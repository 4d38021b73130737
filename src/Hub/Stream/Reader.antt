-- ===== src/Hub/Stream/Reader.antt =====
-- The reader of the stream that hub/sse.go, sseWrite, writes for: the parser of an EventSource, as the
-- HTML standard has it, on bytes. It is the description that sseWrite is held against.
use sakura_assistant.Base.{
  Option, none, some, Bool, true, false, not, ◌&&◌, ◌||◌, List, [], ◌∷◌, ◌++◌, eqb, if◌then◌else◌,
}
use sakura_assistant.Hub.Stream.Frames.{Bytes, newline}

-- The lines with a newline before each.
abbrev pub each_after : List Bytes → Bytes
each_after [] = []
each_after (l ∷ rest) = newline ∷ l ++ each_after rest

abbrev pub join : List Bytes → Bytes
join [] = []
join (l ∷ rest) = l ++ each_after rest

-- What was read of an event: the last number, the type and the lines of data.
pub record Draft : Type 0 where
  pub id : Option Bytes
  pub name : Bytes
  pub lines : List Bytes

abbrev pub no_draft : Draft
no_draft = record { id = none; name = []; lines = [] }

-- An event that is dispatched. An empty name stands for "message".
pub record Event : Type 0 where
  pub id : Option Bytes
  pub name : Bytes
  pub body : Bytes

unfoldable pub same : Bytes → Bytes → Bool
same [] [] = true
same [] (b ∷ bs) = false
same (a ∷ xs) [] = false
same (a ∷ xs) (b ∷ bs) = eqb a b && same xs bs

-- The name of a field stands before the first colon, its value behind it, less one space.
unfoldable pub before_colon : Bytes → Bytes
before_colon [] = []
before_colon (c ∷ rest) = let more = before_colon rest in if eqb c 58 then [] else c ∷ more

unfoldable pub less_space : Bytes → Bytes
less_space [] = []
less_space (c ∷ rest) = if eqb c 32 then rest else c ∷ rest

unfoldable pub after_colon : Bytes → Bytes
after_colon [] = []
after_colon (c ∷ rest) = let more = after_colon rest in if eqb c 58 then less_space rest else more

unfoldable pub has_null : Bytes → Bool
has_null [] = false
has_null (c ∷ rest) = eqb c 0 || has_null rest

-- A line that is not empty. A number that holds a NUL is ignored, and so are a comment and an unknown
-- field.
unfoldable pub take_field : Draft → Bytes → Draft
take_field d line =
    let field = before_colon line in
    let v = after_colon line in
    if same field (100 ∷ 97 ∷ 116 ∷ 97 ∷ [])
    then record d { lines = d.lines ++ v ∷ [] }
    else if same field (101 ∷ 118 ∷ 101 ∷ 110 ∷ 116 ∷ [])
    then record d { name = v }
    else if same field (105 ∷ 100 ∷ []) && not (has_null v)
    then record d { id = some v }
    else d

abbrev skip_newline : Bytes → Bytes
skip_newline [] = []
skip_newline (c ∷ rest) = if eqb c newline then rest else c ∷ rest

-- The event that begins the bytes, and the bytes behind it. A line ends with LF, CR or both; `cr` says
-- that a CR was the last byte. An empty line ends an event that has data, and clears one that has none.
unfoldable pub read_from : Bool → Draft → Bytes → Bytes → Option (Event × Bytes)
read_from cr d line [] = none
read_from cr d line (c ∷ rest) = elim (cr && eqb c newline) [
  | true ↦ read_from false d line rest
  | false ↦ elim (eqb c newline || eqb c 13) [
    | false ↦ read_from false d (line ++ c ∷ []) rest
    | true ↦ elim line [
      | x ∷ xs ↦ read_from (eqb c 13) (take_field d (x ∷ xs)) [] rest
      | [] ↦ elim d.lines [
        | [] ↦ read_from (eqb c 13) (record d { name = [] }) [] rest
        | l ∷ ls ↦ some (
          record { id = d.id; name = d.name; body = join (l ∷ ls) },
          if eqb c 13 then skip_newline rest else rest,
        )
      ]
    ]
  ]
]

abbrev pub read : Bytes → Option (Event × Bytes)
read b = read_from false no_draft [] b
