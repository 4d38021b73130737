-- ===== src/Agent/Queue/Rows.antt =====
-- The tables metrics_q and events_q of agent/internal/queue/queue.go, and their statements.
use sakura_assistant.Base.{
  ℕ, ◌+◌, min, max, String, Option, none, some, Bool, false, ◌||◌, List, [], ◌∷◌, ◌++◌, map, take,
  eqb, leb, if◌then◌else◌,
}

pub record Row : Type 0 where
  pub id : ℕ
  pub seq : ℕ
  pub payload : String
  pub created_at : ℕ

-- `next_id` is the next value of `INTEGER PRIMARY KEY AUTOINCREMENT`, which is never used again.
pub record Table : Type 0 where
  pub rows : List Row
  pub next_id : ℕ

abbrev pub empty : Table
empty = record { rows = []; next_id = 1 }

abbrev pub ids : List Row → List ℕ
ids = map (λ r. r.id)

-- `INSERT INTO t(seq, payload, created_at) VALUES(?, ?, ?)`
unfoldable pub insert_row : ℕ → String → ℕ → Table → Table
insert_row seq payload now t = record {
  rows = t.rows ++ record { id = t.next_id; seq = seq; payload = payload; created_at = now } ∷ [];
  next_id = t.next_id + 1;
}

unfoldable pub place : Row → List Row → List Row
place r [] = r ∷ []
place r (s ∷ rest) = if leb r.id s.id then r ∷ s ∷ rest else s ∷ place r rest

-- `ORDER BY id ASC`
unfoldable pub order_by_id : List Row → List Row
unfolding place
order_by_id [] = []
order_by_id (r ∷ rest) = place r (order_by_id rest)

-- `... ORDER BY id ASC LIMIT n`
unfoldable pub oldest : ℕ → Table → List Row
unfolding order_by_id
oldest n t = take n (order_by_id t.rows)

unfoldable pub is_in : ℕ → List ℕ → Bool
is_in k [] = false
is_in k (j ∷ js) = eqb k j || is_in k js

unfoldable pub without : List ℕ → List Row → List Row
unfolding is_in
without gone [] = []
without gone (r ∷ rest) = let kept = without gone rest in if is_in r.id gone then kept else r ∷ kept

-- `DELETE FROM t WHERE id IN (...)`, and the loop of `DELETE ... WHERE id = ?`
unfoldable pub delete_ids : List ℕ → Table → Table
unfolding without
delete_ids gone t = record t { rows = without gone t.rows }

-- `MIN(created_at)` and `MAX(created_at)`; `none` is NULL.
unfoldable pub min_created : List Row → Option ℕ
min_created [] = none
min_created (r ∷ rest) = elim (min_created rest) [
  | none ↦ some r.created_at
  | some m ↦ some (min r.created_at m)
]

unfoldable pub max_created : List Row → Option ℕ
max_created [] = none
max_created (r ∷ rest) = elim (max_created rest) [
  | none ↦ some r.created_at
  | some m ↦ some (max r.created_at m)
]
