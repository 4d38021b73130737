-- ===== src/Agent/Queue/Ledger.antt =====
-- The life of a stream: any sequence of the operations of agent/internal/queue/queue.go, with an
-- account of where each inserted row went.
use sakura_assistant.Base.{
  ℕ, ◌+◌, ◌-◌, ◌≤◌, ◌<◌, String, ◌≡◌, ap, Option, none, some, List, [], ◌∷◌, length, length-append,
  length-drop, arith, refl, if◌then◌else◌,
}
use native.Mathlib.Nat.{le_trans}
use sakura_assistant.Agent.Queue.Rows.{Row, insert_row, is_in, without, delete_ids}
use sakura_assistant.Agent.Queue.Fifo.{
  IsOrdered, drop-IsOrdered, insert_row-IsOrdered, delete_ids-IsOrdered,
}
use sakura_assistant.Agent.Queue.Steps.{
  lost, inserted, surplus, arrived, enqueue-Enqueued, drop_oldest-Dropped,
}
use sakura_assistant.Agent.Queue.{
  Overflow, Stream, next_seq, enqueue, enqueue_no_trim, read_overflow, clear_overflow, delete,
  drop_oldest,
}

pub data Op : Type 0 where
  enqueued : ℕ → String → ℕ → Op
  enqueued_no_trim : ℕ → String → ℕ → Op
  numbered : Op
  deleted : List ℕ → Op
  dropped_oldest : ℕ → Op
  overflow_read : Op
  overflow_cleared : Op

-- How many rows came in, were in the table when their ids were deleted by the caller, and were reported
-- by an overflow record that was read and then cleared; the record that was read and is not yet
-- cleared; and how many rows were cleared from the record without having been read.
pub record Account : Type 0 where
  pub stream : Stream
  pub received : ℕ
  pub delivered : ℕ
  pub read : Option Overflow
  pub reported : ℕ
  pub missed : ℕ

abbrev reported_by : Option Overflow → ℕ
reported_by none = 0
reported_by (some o) = o.dropped

-- The rows whose ids are listed.
unfoldable pub named : List ℕ → List Row → ℕ
named gone [] = 0
named gone (r ∷ rest) =
    let others = named gone rest in if is_in r.id gone then others + 1 else others

-- An error leaves the stream as it was.
abbrev kept : ℕ → Stream → Option (ℕ × Stream) → ℕ × Stream
kept n s none = (n, s)
kept n s (some (_, s')) = (n + 1, s')

unfoldable pub perform : ℕ → Op → Account → Account
perform limit (enqueued seq payload now) a =
    let (n, s') = kept a.received a.stream (enqueue limit seq payload now a.stream) in
    record a { stream = s'; received = n }
perform limit (enqueued_no_trim seq payload now) a = record a {
  stream = enqueue_no_trim seq payload now a.stream;
  received = a.received + 1;
}
perform limit numbered a = record a { stream = (next_seq a.stream).1 }
perform limit (deleted gone) a = record a {
  stream = delete gone a.stream;
  delivered = a.delivered + named gone a.stream.table.rows;
}
perform limit (dropped_oldest n) a = record a { stream = (drop_oldest n a.stream).1 }
perform limit overflow_read a =
    let (o, s') = read_overflow a.stream in record a { stream = s'; read = o }
perform limit overflow_cleared a =
    let s' = clear_overflow a.read a.stream in
    record a {
      stream = s';
      read = none;
      reported = a.reported + reported_by a.read;
      missed = a.missed + (lost a.stream - lost s' - reported_by a.read);
    }

unfoldable pub run : ℕ → List Op → Account → Account
run limit [] a = a
run limit (op ∷ ops) a = run limit ops (perform limit op a)

-- The rows are in order, received = pending + delivered + dropped and on record + reported + missed,
-- and what was read and not yet cleared is still on record.
pub record IsBalanced (a : Account) : Type 0 where
  pub in_order : IsOrdered a.stream.table
  pub balance :
      a.received ≡ length a.stream.table.rows + a.delivered + lost a.stream + a.reported + a.missed
  pub read_le : reported_by a.read ≤ lost a.stream

length-without :
    (gone : List ℕ) (rows : List Row) → length (without gone rows) + named gone rows ≡ length rows
unfolding without named
length-without gone [] = refl
length-without gone (r ∷ rest) = ground (arith, length-without gone rest)

enqueue-IsBalanced :
    (limit seq : ℕ) (payload : String) (now : ℕ) (a : Account)
    → IsBalanced a
    → IsBalanced (perform limit (enqueued seq payload now) a)
unfolding perform
enqueue-IsBalanced limit seq payload now a b =
    let e = enqueue-Enqueued limit seq payload now a.stream b.in_order in
    rw e.returns (record {
      in_order = e.in_order;
      balance = omega (
        arith,
        e.counted,
        b.balance,
        ap length e.newest_kept,
        length-drop (surplus limit a.stream) (arrived seq payload now a.stream),
        length-append a.stream.table.rows (inserted seq payload now a.stream ∷ []),
      );
      read_le = omega (arith, b.read_le, e.counted);
    })

delete-IsBalanced :
    (limit : ℕ) (gone : List ℕ) (a : Account)
    → IsBalanced a
    → IsBalanced (perform limit (deleted gone) a)
unfolding perform delete delete_ids
delete-IsBalanced limit gone a b = record {
  in_order = unfold delete_ids in delete_ids-IsOrdered gone a.stream.table b.in_order;
  balance = omega (arith, b.balance, length-without gone a.stream.table.rows);
  read_le = b.read_le;
}

no_trim-IsBalanced :
    (limit seq : ℕ) (payload : String) (now : ℕ) (a : Account)
    → IsBalanced a
    → IsBalanced (perform limit (enqueued_no_trim seq payload now) a)
unfolding perform enqueue_no_trim insert_row
no_trim-IsBalanced limit seq payload now a b = record {
  in_order = unfold insert_row in insert_row-IsOrdered seq payload now a.stream.table b.in_order;
  balance = omega (
    arith,
    b.balance,
    length-append a.stream.table.rows (inserted seq payload now a.stream ∷ []),
  );
  read_le = b.read_le;
}

numbered-IsBalanced :
    (limit : ℕ) (a : Account) → IsBalanced a → IsBalanced (perform limit numbered a)
unfolding perform next_seq
numbered-IsBalanced limit a b = record {
  in_order = b.in_order;
  balance = b.balance;
  read_le = b.read_le;
}

pub read-IsBalanced :
    (limit : ℕ) (a : Account) → IsBalanced a → IsBalanced (perform limit overflow_read a)
unfolding perform read_overflow
read-IsBalanced limit a b = record {
  in_order = b.in_order;
  balance = b.balance;
  read_le = ground arith;
}

lost-clear_overflow :
    (o : Option Overflow) (s : Stream)
    → reported_by o ≤ lost s
    → lost s
      ≡ lost (clear_overflow o s)
        + (reported_by o + (lost s - lost (clear_overflow o s) - reported_by o))
unfolding clear_overflow
lost-clear_overflow none s l = omega arith
lost-clear_overflow (some o) s l = omega (arith, l)

table-clear_overflow : (o : Option Overflow) (s : Stream) → (clear_overflow o s).table ≡ s.table
unfolding clear_overflow
table-clear_overflow none s = refl
table-clear_overflow (some o) s = refl

cleared-IsBalanced :
    (limit : ℕ) (a : Account) → IsBalanced a → IsBalanced (perform limit overflow_cleared a)
unfolding perform
cleared-IsBalanced limit a b = record {
  in_order = rw (table-clear_overflow a.read a.stream) b.in_order;
  balance = omega (
    arith,
    b.balance,
    ap (λ t. length t.rows) (table-clear_overflow a.read a.stream),
    lost-clear_overflow a.read a.stream b.read_le,
  );
  read_le = omega arith;
}

drop_oldest-IsBalanced :
    (limit n : ℕ) (a : Account) → IsBalanced a → IsBalanced (perform limit (dropped_oldest n) a)
unfolding perform
drop_oldest-IsBalanced limit n a b =
    let d = drop_oldest-Dropped n a.stream b.in_order in
    record {
      in_order = rw d.rest (drop-IsOrdered n a.stream.table b.in_order);
      balance = omega (
        arith,
        d.counted,
        b.balance,
        ap (λ t. length t.rows) d.rest,
        length-drop n a.stream.table.rows,
      );
      read_le = omega (arith, b.read_le, d.counted);
    }

perform-IsBalanced :
    (limit : ℕ) (op : Op) (a : Account) → IsBalanced a → IsBalanced (perform limit op a)
perform-IsBalanced limit (enqueued seq payload now) a b =
    enqueue-IsBalanced limit seq payload now a b
perform-IsBalanced limit (enqueued_no_trim seq payload now) a b =
    no_trim-IsBalanced limit seq payload now a b
perform-IsBalanced limit numbered a b = numbered-IsBalanced limit a b
perform-IsBalanced limit (deleted gone) a b = delete-IsBalanced limit gone a b
perform-IsBalanced limit (dropped_oldest n) a b = drop_oldest-IsBalanced limit n a b
perform-IsBalanced limit overflow_read a b = read-IsBalanced limit a b
perform-IsBalanced limit overflow_cleared a b = cleared-IsBalanced limit a b

-- After any sequence of operations on a balanced account, the two statements of TakeOverflow being
-- operations of their own, the rows of the stream are in order, and the rows received are the rows pending,
-- those whose ids were given to a delete, those dropped with the drop on record, those dropped with the
-- drop read and cleared, and those whose drop was cleared without having been read.
pub run-IsBalanced :
    (limit : ℕ) (ops : List Op) (a : Account) → IsBalanced a → IsBalanced (run limit ops a)
unfolding run
run-IsBalanced limit [] a b = b
run-IsBalanced limit (op ∷ ops) a b =
    run-IsBalanced limit ops (perform limit op a) (perform-IsBalanced limit op a b)

-- The last number handed out; 0 before the first.
abbrev pub number : Option ℕ → ℕ
number none = 0
number (some n) = n

abbrev pub last_number : Stream → ℕ
last_number s = number s.last_seq

numbered_lt :
    (s : Stream)
    → ((next_seq s).0 ≡ last_number s + 1) × (last_number (next_seq s).1 ≡ (next_seq s).0)
unfolding next_seq
numbered_lt s = ground arith

last_seq-clear_overflow :
    (o : Option Overflow) (s : Stream) → (clear_overflow o s).last_seq ≡ s.last_seq
unfolding clear_overflow
last_seq-clear_overflow none s = refl
last_seq-clear_overflow (some o) s = refl

perform-last_number :
    (limit : ℕ) (op : Op) (a : Account)
    → IsBalanced a
    → last_number a.stream ≤ last_number (perform limit op a).stream
perform-last_number limit (enqueued seq payload now) a b =
    let e = enqueue-Enqueued limit seq payload now a.stream b.in_order in
    unfold perform in rw e.returns (omega (arith, ap number e.same_seq))
perform-last_number limit (enqueued_no_trim seq payload now) a b =
    unfold perform enqueue_no_trim in omega arith
perform-last_number limit numbered a b = unfold perform in omega (arith, numbered_lt a.stream)
perform-last_number limit (deleted gone) a b = unfold perform delete in omega arith
perform-last_number limit (dropped_oldest n) a b =
    unfold perform in omega (arith, ap number (drop_oldest-Dropped n a.stream b.in_order).same_seq)
perform-last_number limit overflow_read a b = unfold perform read_overflow in omega arith
perform-last_number limit overflow_cleared a b =
    unfold perform in omega (arith, ap number (last_seq-clear_overflow a.read a.stream))

numbered_stream :
    (limit : ℕ) (a : Account)
    → last_number (perform limit numbered a).stream ≡ (next_seq a.stream).0
unfolding perform
numbered_stream limit a = (numbered_lt a.stream).1

run-last_number :
    (limit : ℕ) (ops : List Op) (a : Account)
    → IsBalanced a
    → last_number a.stream ≤ last_number (run limit ops a).stream
unfolding run
run-last_number limit [] a b = omega arith
run-last_number limit (op ∷ ops) a b =
    le_trans (perform-last_number limit op a b)
      (run-last_number limit ops (perform limit op a) (perform-IsBalanced limit op a b))

-- A number handed out after any further operations is greater than one handed out before them.
pub next_seq-lt :
    (limit : ℕ) (ops : List Op) (a : Account)
    → IsBalanced a
    → (next_seq a.stream).0 < (next_seq (run limit ops (perform limit numbered a)).stream).0
next_seq-lt limit ops a b =
    let first = perform limit numbered a in
    omega (
      arith,
      numbered_lt a.stream,
      numbered_lt (run limit ops first).stream,
      numbered_stream limit a,
      run-last_number limit ops first (numbered-IsBalanced limit a b),
    )
