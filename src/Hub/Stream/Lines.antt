-- ===== src/Hub/Stream/Lines.antt =====
-- hub/sse.go, sseWrite: a reader of the stream gets the event that was written.
use sakura_assistant.Base.{
  ℕ, zero, suc, ◌≤◌, String, ◌≡◌, ◌≢◌, refl, sym, ap, ◌∙◌, Option, none, some, false, List, [], ◌∷◌,
  ◌++◌, eqb, arith, inl, inr, All, Bool-cases,
}
use mathlib.Core.List.{append-nil, append_assoc}
use mathlib.Core.Path.{subst}
use sakura_assistant.Hub.Stream.Frames.{
  Bytes, newline, split_from, split_lines, StreamEnv, id_field, event_field, data_field, line_of,
  data_lines, sse_write,
}
use sakura_assistant.Hub.Stream.Reader.{
  each_after, join, Draft, no_draft, same, before_colon, less_space, after_colon, has_null,
  take_field, read_from, read,
}

-- No byte that ends a line of the stream.
abbrev pub IsPlain : ℕ → Type 0
IsPlain c = (c ≢ newline) × (c ≢ 13)

abbrev pub IsDigit : ℕ → Type 0
IsDigit c = (48 ≤ c) × (c ≤ 57)

each_after-split : (line b : Bytes) → each_after (split_from line b) ≡ newline ∷ line ++ b
unfolding split_from
each_after-split line [] = refl
each_after-split line (c ∷ rest) = elim (Bool-cases (eqb c newline)) [
  | inl ends ↦
      let at : c ≡ newline = ground (arith, ends) in
      rw (each_after, ends)
        (ap (λ t. newline ∷ line ++ t) (each_after-split [] rest)
          ∙ ap (λ x. newline ∷ line ++ x ∷ rest) (sym at))
  | inr within ↦
      rw
        (
          each_after,
          within,
          each_after-split (line ++ c ∷ []) rest,
          append_assoc line (c ∷ []) rest,
        )
        refl
]

join-split : (line b : Bytes) → join (split_from line b) ≡ line ++ b
unfolding split_from
join-split line [] = refl
join-split line (c ∷ rest) = elim (Bool-cases (eqb c newline)) [
  | inl ends ↦
      let at : c ≡ newline = ground (arith, ends) in
      rw (join, ends)
        (ap (λ t. line ++ t) (each_after-split [] rest) ∙ ap (λ x. line ++ x ∷ rest) (sym at))
  | inr within ↦
      rw (join, within, join-split (line ++ c ∷ []) rest, append_assoc line (c ∷ []) rest) refl
]

IsPlain-snoc : (line : Bytes) (c : ℕ) → All IsPlain line → IsPlain c → All IsPlain (line ++ c ∷ [])
IsPlain-snoc [] c h p = (p, tt)
IsPlain-snoc (x ∷ line) c h p = (h.0, IsPlain-snoc line c h.1 p)

-- Data without CR is split into lines that hold no end of a line.
split_from-IsPlain :
    (line b : Bytes)
    → All IsPlain line
    → All (λ c. c ≢ 13) b
    → All (All IsPlain) (split_from line b)
unfolding split_from
split_from-IsPlain line [] h p = (h, tt)
split_from-IsPlain line (c ∷ rest) h p = elim (Bool-cases (eqb c newline)) [
  | inl ends ↦ rw (All, ends) (h, split_from-IsPlain [] rest tt p.1)
  | inr within ↦
      rw (All, within)
        (split_from-IsPlain (line ++ c ∷ []) rest
          (IsPlain-snoc line c h ((λ e. ground (arith, within, e)), p.0)) p.1)
]

-- There is always a line.
split_from-NonEmpty :
    (line b : Bytes) → (l : Bytes) × (ls : List Bytes) × (split_from line b ≡ l ∷ ls)
unfolding split_from
split_from-NonEmpty line [] = (line, [], refl)
split_from-NonEmpty line (c ∷ rest) = elim (Bool-cases (eqb c newline)) [
  | inl ends ↦ (line, split_from [] rest, rw (split_from, ends) refl)
  | inr within ↦
      let (l, ls, e) = split_from-NonEmpty (line ++ c ∷ []) rest in
      (l, ls, rw (split_from, within) e)
]

All-append : (a b : Bytes) → All IsPlain a → All IsPlain b → All IsPlain (a ++ b)
All-append [] b h k = k
All-append (x ∷ a) b h k = (h.0, All-append a b h.1 k)

-- A byte of a line is taken into it.
read_byte :
    (d : Draft) (line : Bytes) (c : ℕ) (rest : Bytes)
    → IsPlain c
    → read_from false d line (c ∷ rest) ≡ read_from false d (line ++ c ∷ []) rest
unfolding read_from
read_byte d line c rest h =
    let no_lf : eqb c newline ≡ false = ground (arith, h.0) in
    let no_cr : eqb c 13 ≡ false = ground (arith, h.1) in rw (read_from, no_lf, no_cr) refl

-- A line that is begun is read to its end.
read_line :
    (d : Draft) (x : ℕ) (line text rest : Bytes)
    → All IsPlain text
    → read_from false d (x ∷ line) (text ++ newline ∷ rest)
      ≡ read_from false (take_field d (x ∷ line ++ text)) [] rest
unfolding read_from
read_line d x line [] rest h =
    ap (λ l. read_from false (take_field d (x ∷ l)) [] rest) (sym (append-nil line))
read_line d x line (c ∷ text) rest h =
    read_byte d (x ∷ line) c (text ++ newline ∷ rest) h.0
    ∙ read_line d x (line ++ c ∷ []) text rest h.1
    ∙ ap (λ l. read_from false (take_field d (x ∷ l)) [] rest) (append_assoc line (c ∷ []) text)

-- A field's line, as `sseWrite` prints it, behind which the stream goes on.
line_of-read :
    (d : Draft) (x : ℕ) (field v rest : Bytes)
    → All IsPlain (x ∷ field)
    → All IsPlain v
    → read_from false d [] (line_of (x ∷ field) v ++ rest)
      ≡ read_from false (take_field d (x ∷ field ++ v)) [] rest
line_of-read d x field v rest f h =
    ap (λ b. read_from false d [] (x ∷ b)) (append_assoc (field ++ v) (newline ∷ []) rest)
    ∙ read_byte d [] x ((field ++ v) ++ newline ∷ rest) f.0
    ∙ read_line d x [] (field ++ v) rest (All-append field v f.1 h)

module _ (d : Draft) (v rest : Bytes) (plain : All IsPlain v) where
  data-read :
      read_from false d [] (line_of data_field v ++ rest)
      ≡ read_from false (record d { lines = d.lines ++ v ∷ [] }) [] rest
  unfolding take_field same before_colon after_colon less_space
  data-read = line_of-read d 100 (97 ∷ 116 ∷ 97 ∷ 58 ∷ 32 ∷ []) v rest (omega arith) plain

  event-read :
      read_from false d [] (line_of event_field v ++ rest)
      ≡ read_from false (record d { name = v }) [] rest
  unfolding take_field same before_colon after_colon less_space
  event-read = line_of-read d 101 (118 ∷ 101 ∷ 110 ∷ 116 ∷ 58 ∷ 32 ∷ []) v rest (omega arith) plain

  id-read :
      has_null v ≡ false
      → read_from false d [] (line_of id_field v ++ rest)
        ≡ read_from false (record d { id = some v }) [] rest
  unfolding take_field read_from same before_colon has_null after_colon less_space
  id-read ok = line_of-read d 105 (100 ∷ 58 ∷ 32 ∷ []) v rest (omega arith) plain ∙ rw ok refl

data_lines-read :
    (d : Draft) (ls : List Bytes) (rest : Bytes)
    → All (All IsPlain) ls
    → read_from false d [] (data_lines ls ++ rest)
      ≡ read_from false (record d { lines = d.lines ++ ls }) [] rest
data_lines-read d [] rest h =
    ap (λ ls. read_from false (record d { lines = ls }) [] rest) (sym (append-nil d.lines))
data_lines-read d (l ∷ ls) rest h =
    ap (read_from false d []) (append_assoc (line_of data_field l) (data_lines ls) rest)
    ∙ data-read d l (data_lines ls ++ rest) h.0
    ∙ data_lines-read (record d { lines = d.lines ++ l ∷ [] }) ls rest h.1
    ∙ ap (λ x. read_from false (record d { lines = x }) [] rest) (append_assoc d.lines (l ∷ []) ls)

-- An empty line ends an event that has data.
blank-read :
    (d : Draft) (ls : List Bytes) (rest : Bytes)
    → (l : Bytes) × (more : List Bytes) × (ls ≡ l ∷ more)
    → read_from false (record d { lines = ls }) [] (newline ∷ rest)
      ≡ some (record { id = d.id; name = d.name; body = join ls }, rest)
unfolding read_from
blank-read d ls rest (l, more, e) =
    subst
      (λ x.
        read_from false (record d { lines = x }) [] (newline ∷ rest)
        ≡ some (record { id = d.id; name = d.name; body = join x }, rest))
      (sym e) refl

-- All behind the number.
body-read :
    (id : Option Bytes) (name b rest : Bytes)
    → All IsPlain name
    → All (λ c. c ≢ 13) b
    → read_from false
        (record { id = id; name = []; lines = [] })
        []
        ((line_of event_field name ++ (data_lines (split_from [] b) ++ newline ∷ [])) ++ rest)
      ≡ some (record { id = id; name = name; body = b }, rest)
body-read id name b rest plain no_cr =
    let d : Draft = record { id = id; name = []; lines = [] } in
    let named : Draft = record { id = id; name = name; lines = [] } in
    let ls = split_from [] b in
    ap (read_from false d [])
      (append_assoc (line_of event_field name) (data_lines ls ++ newline ∷ []) rest)
    ∙ event-read d name ((data_lines ls ++ newline ∷ []) ++ rest) plain
    ∙ ap (read_from false named []) (append_assoc (data_lines ls) (newline ∷ []) rest)
    ∙ data_lines-read named ls (newline ∷ rest) (split_from-IsPlain [] b tt no_cr)
    ∙ blank-read named ls rest (split_from-NonEmpty [] b)
    ∙ ap (λ x. some (record { id = id; name = name; body = x }, rest)) (join-split [] b)

digits-IsPlain : (b : Bytes) → All IsDigit b → All IsPlain b
digits-IsPlain [] h = tt
digits-IsPlain (c ∷ b) h =
    (((λ e. omega (arith, h.0, e)), (λ e. omega (arith, h.0, e))), digits-IsPlain b h.1)

digits-has_null : (b : Bytes) → All IsDigit b → has_null b ≡ false
unfolding has_null
digits-has_null [] h = refl
digits-has_null (c ∷ b) h = ground (arith, h.0, digits-has_null b h.1)

module _ (env : StreamEnv) where
  abbrev pub id_of : ℕ → Option Bytes
  id_of zero = none
  id_of (suc n) = some (env.decimal (suc n))

  -- Where the number is printed in digits, the name of the event holds no end of a line and its data no
  -- CR, an EventSource that reads the bytes gets the name, the number if it is not 0, and the data with
  -- every newline in place, and goes on behind the event, whatever follows.
  pub sse_write-read :
      (name : String) (id : ℕ) (b rest : Bytes)
      → All IsDigit (env.decimal id)
      → All IsPlain (env.bytes_of name)
      → All (λ c. c ≢ 13) b
      → read (sse_write env name id b ++ rest)
        ≡ some (record { id = id_of id; name = env.bytes_of name; body = b }, rest)
  unfolding sse_write split_lines
  sse_write-read name zero b rest digits plain no_cr =
      body-read none (env.bytes_of name) b rest plain no_cr
  sse_write-read name (suc n) b rest digits plain no_cr =
      let number = env.decimal (suc n) in
      ap (read_from false no_draft []) (append_assoc (line_of id_field number) _ rest)
      ∙ id-read no_draft number _ (digits-IsPlain number digits) (digits-has_null number digits)
      ∙ body-read (some number) (env.bytes_of name) b rest plain no_cr
