-- ===== src/Agent/Queue.antt =====
-- agent/internal/queue/queue.go: the persistent queue of metrics batches and events.
-- A table is its rows, and a statement is a function on them. A statement that SQLite refuses
-- changes nothing, since every operation is one statement or one transaction: `attempt`. `TakeOverflow`
-- is two operations.
pub mod Rows
pub mod Fifo
pub mod Steps
pub mod Ledger
pub mod Taken
pub mod Delivery
use sakura_assistant.Base.{
  ℕ, zero, suc, ◌+◌, ◌-◌, min, max, String, Option, none, some, Bool, List, [], ◌∷◌, length, eqb,
  ltb, if◌then◌else◌,
}
use Rows.{Row, Table, ids, insert_row, oldest, delete_ids, min_created, max_created}

-- The two streams: `KindMetrics` with metrics_q, `KindEvents` with events_q.
pub data Kind : Type 0 where
  metrics events : Kind

-- A row of the overflow table; `Overflow` in the source.
pub record Overflow : Type 0 where
  pub dropped : ℕ
  pub first_at : ℕ
  pub last_at : ℕ

-- What is kept for one kind: its table, its counter in meta, its row in overflow.
pub record Stream : Type 0 where
  pub table : Table
  pub last_seq : Option ℕ
  pub overflow : Option Overflow

pub record Queue : Type 0 where
  pub metrics_q : Stream
  pub events_q : Stream
  pub max_batch : ℕ
  pub max_events : ℕ

abbrev pub stream : Kind → Queue → Stream
stream metrics q = q.metrics_q
stream events q = q.events_q

abbrev pub put_stream : Kind → Stream → Queue → Queue
put_stream metrics s q = record q { metrics_q = s }
put_stream events s q = record q { events_q = s }

abbrev pub limit : Kind → Queue → ℕ
limit metrics q = q.max_batch
limit events q = q.max_events

-- `INSERT ... ON CONFLICT(k) DO UPDATE SET v = v + 1 RETURNING v`
unfoldable pub next_seq : Stream → ℕ × Stream
next_seq s =
    let v : ℕ = elim s.last_seq [ none ↦ 1 | some n ↦ n + 1 ] in (v, record s { last_seq = some v })

unfoldable pub add_overflow : ℕ → ℕ → ℕ → Stream → Stream
add_overflow n first last s = record s {
  overflow = some (elim s.overflow [
    | none ↦ record { dropped = n; first_at = first; last_at = last }
    | some o ↦ record {
      dropped = o.dropped + n;
      first_at = min o.first_at first;
      last_at = max o.last_at last;
    }
  ]);
}

-- `none` is the error of scanning NULL, the aggregate of no rows, into an int64.
unfoldable pub cut : ℕ → Table → Option (ℕ × ℕ × Table)
cut n t =
    let gone = oldest n t in
    elim (min_created gone) [
      | none ↦ none
      | some first ↦ elim (max_created gone) [
        | none ↦ none
        | some last ↦ some (first, last, delete_ids (ids gone) t)
      ]
    ]

unfoldable pub enqueue : ℕ → ℕ → String → ℕ → Stream → Option (ℕ × Stream)
enqueue limit seq payload now s =
    let t = insert_row seq payload now s.table in
    let count = length t.rows in
    if ltb limit count
    then elim (cut (count - limit) t) [
      | none ↦ none
      | some (first, last, t') ↦
          some (count - limit, add_overflow (count - limit) first last (record s { table = t' }))
    ]
    else some (0, record s { table = t })

unfoldable pub enqueue_no_trim : ℕ → String → ℕ → Stream → Stream
enqueue_no_trim seq payload now s = record s { table = insert_row seq payload now s.table }

-- The two statements of `TakeOverflow`, which are no transaction: the SELECT, and the DELETE when the
-- SELECT found a row.
unfoldable pub read_overflow : Stream → Option Overflow × Stream
read_overflow s = (s.overflow, s)

unfoldable pub clear_overflow : Option Overflow → Stream → Stream
clear_overflow none s = s
clear_overflow (some o) s = record s { overflow = none }

unfoldable pub pending : Stream → ℕ
pending s = length s.table.rows

unfoldable pub peek : ℕ → Stream → List Row
peek n s = oldest n s.table

unfoldable pub delete : List ℕ → Stream → Stream
delete gone s = record s { table = delete_ids gone s.table }

-- An empty aggregate ends the call with nothing done; `RowsAffected` counts what the DELETE took.
unfoldable pub drop_oldest : ℕ → Stream → ℕ × Stream
drop_oldest n s = if eqb n 0 then (0, s) else elim (cut n s.table) [
  | none ↦ (0, s)
  | some (first, last, t') ↦
      let dropped = length s.table.rows - length t'.rows in
      if ltb 0 dropped
      then (dropped, add_overflow dropped first last (record s { table = t' }))
      else (dropped, record s { table = t' })
]
