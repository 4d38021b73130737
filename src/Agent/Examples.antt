-- ===== src/Agent/Examples.antt =====
-- Runs of the agent's queue and sender at concrete inputs.
use sakura_assistant.Base.{
  ◌+◌, ℕ, ◌*◌, ◌<◌, min, max, String, ◌≡◌, refl, none, some, true, false, List, [], ◌∷◌, drop,
  length, arith,
}
use sakura_assistant.Agent.Client.{
  Failure, replied, poison, MetricsAck, Posted, acked, post, second, classify, decode, send,
}
use sakura_assistant.Agent.Queue
use sakura_assistant.Agent.Queue.{Stream, next_seq, enqueue, drop_oldest, delete, peek}
use sakura_assistant.Agent.Queue.Rows.{
  Row, empty, ids, insert_row, oldest, order_by_id, place, is_in, without, delete_ids, min_created,
  max_created,
}
use sakura_assistant.Agent.Queue.Steps.{
  lost, Enqueued, enqueue-Enqueued, surplus, arrived, Dropped, drop_oldest-Dropped,
}
use sakura_assistant.Agent.Queue.Ledger.{
  Op, enqueued, numbered, deleted, overflow_read, overflow_cleared, Account, perform, run,
  IsBalanced, run-IsBalanced, next_seq-lt,
}
use sakura_assistant.Agent.Queue.Taken.{taken_at_once, taken_around, overflow_cleared-misses}
use sakura_assistant.Agent.Queue.Delivery.{delete-enqueue}
use sakura_assistant.Agent.Reporter.{Env, World, spinning}
use sakura_assistant.Agent.Reporter.Loop.{turns}
use sakura_assistant.Agent.Reporter.Latched.{Refusing, StaysLatched, turns-StaysLatched}
use sakura_assistant.Agent.Reporter.Drain.{drain_metrics, drain_events}
use sakura_assistant.Agent.Reporter.Drain.Livelock.{RefusesAll, drain_events-spinning}
use sakura_assistant.Agent.Reporter.Drain.Order.{
  answer, IsSteady, send_all, Ended, drain_metrics-send_all,
}

abbrev new_stream : Stream
new_stream = record { table = empty; last_seq = none; overflow = none }

abbrev row_of : ℕ → Row
row_of n = record { id = n; seq = n; payload = "p"; created_at = 10 * n }

abbrev two_rows : Stream
two_rows = record {
  table = record { rows = row_of 1 ∷ row_of 2 ∷ []; next_id = 3 };
  last_seq = some 2;
  overflow = none;
}

enqueue-Enqueued_example : Enqueued 2 3 "x" 30 two_rows (enqueue 2 3 "x" 30 two_rows)
enqueue-Enqueued_example = enqueue-Enqueued 2 3 "x" 30 two_rows (omega arith)

drop_oldest-Dropped_example : Dropped 1 two_rows (drop_oldest 1 two_rows)
drop_oldest-Dropped_example = drop_oldest-Dropped 1 two_rows (omega arith)

abbrev trimmed : Stream
trimmed = record {
  table = record {
    rows = row_of 2 ∷ record { id = 3; seq = 3; payload = "x"; created_at = 30 } ∷ [];
    next_id = 4;
  };
  last_seq = some 2;
  overflow = some (record { dropped = 1; first_at = 10; last_at = 10 });
}

enqueue_trims : enqueue 2 3 "x" 30 two_rows ≡ some (1, trimmed)
unfolding enqueue Queue.cut Queue.add_overflow insert_row oldest order_by_id place delete_ids
    without is_in min_created max_created
enqueue_trims = refl

delete-enqueue_example :
    (delete (ids (peek 1 two_rows)) trimmed).table.rows
    ≡ drop
        (max (min 1 (length two_rows.table.rows)) (surplus 2 two_rows))
        (arrived 3 "x" 30 two_rows)
delete-enqueue_example = delete-enqueue 1 two_rows (omega arith) 2 3 "x" 30 trimmed enqueue_trims

abbrev opening_account : Account
opening_account = record {
  stream = new_stream;
  received = 0;
  delivered = 0;
  read = none;
  reported = 0;
  missed = 0;
}

abbrev opening_balance : IsBalanced opening_account
opening_balance = record { in_order = omega arith; balance = omega arith; read_le = omega arith }

abbrev some_ops : List Op
some_ops =
    enqueued 1 "a" 10
    ∷ enqueued 2 "b" 20
    ∷ enqueued 3 "c" 30
    ∷ deleted (2 ∷ [])
    ∷ overflow_read
    ∷ enqueued 4 "d" 40
    ∷ overflow_cleared
    ∷ []

run-IsBalanced_example : IsBalanced (run 2 some_ops opening_account)
run-IsBalanced_example = run-IsBalanced 2 some_ops opening_account opening_balance

-- The stream is full, and one row was dropped before.
abbrev full_account : Account
full_account = record opening_account {
  stream = record two_rows { overflow = some (record { dropped = 1; first_at = 5; last_at = 5 }) };
  received = 3;
}

overflow_cleared-misses_example :
    ((taken_at_once 2 full_account).missed ≡ 0)
    × ((taken_at_once 2 full_account).reported ≡ 0 + 1)
    × ((taken_around 2 3 "x" 30 full_account).missed ≡ 0 + surplus 2 two_rows)
    × ((taken_around 2 3 "x" 30 full_account).reported ≡ 0 + 1)
    × (lost (taken_around 2 3 "x" 30 full_account).stream ≡ 0)
overflow_cleared-misses_example =
    overflow_cleared-misses 2 3 "x" 30 full_account
      (record { dropped = 1; first_at = 5; last_at = 5 })
      (record { in_order = omega arith; balance = omega arith; read_le = omega arith }) refl

next_seq-lt_example :
    (next_seq new_stream).0
    < (next_seq (run 2 some_ops (perform 2 numbered opening_account)).stream).0
next_seq-lt_example = next_seq-lt 2 some_ops opening_account opening_balance

-- A hub that refuses every body as too large.
abbrev refusing : Env
refusing = record {
  fails = λ n. false;
  now = λ n. n;
  metrics_answer = λ n p. replied 413 "big" none;
  events_answer = λ n p. replied 413 "big" none;
  marshal_notice = λ n s t. some "notice";
  build_events = λ ps t. some "batch";
  read_metrics_ack = λ b. none;
  read_events_ack = λ b. some tt;
  err_detail = λ b. b;
}

abbrev too_large : Failure
too_large = send (record { kind = poison; status = 413; retry_after = 0; detail = "big" })

refusing-RefusesAll : RefusesAll refusing
unfolding post classify
refusing-RefusesAll = record {
  database_up = λ n. refl;
  encodes_notice = λ n s t. ("notice", refl);
  encodes_batch = λ ps t. ("batch", refl);
  refuses = λ n p. (too_large, refl, refl);
}

abbrev loaded : World
loaded = record {
  queue = record { metrics_q = two_rows; events_q = two_rows; max_batch = 10; max_events = 10 };
  interval = 30 * second;
  tick = 0;
}

drain_events-spinning_example : (drain_events refusing 50 loaded).0 ≡ spinning
drain_events-spinning_example =
    drain_events-spinning refusing refusing-RefusesAll 50 loaded (omega arith)

-- A hub that acknowledges every batch and asks for reports each minute.
abbrev accepting : Env
accepting = record {
  fails = λ n. false;
  now = λ n. n;
  metrics_answer = λ n p. replied 202 "ok" none;
  events_answer = λ n p. replied 200 "ok" none;
  marshal_notice = λ n s t. some "notice";
  build_events = λ ps t. some "batch";
  read_metrics_ack =
      λ b. some (record { accepted = true; duplicate = false; report_interval_seconds = 60 });
  read_events_ack = λ b. some tt;
  err_detail = λ b. b;
}

abbrev acknowledged : String → Posted MetricsAck
acknowledged p = acked (record { accepted = true; duplicate = false; report_interval_seconds = 60 })

accepting-IsSteady : IsSteady accepting acknowledged
unfolding answer post decode
accepting-IsSteady = record { up = λ n. refl; answers = λ n p. refl; no_poison = λ p e h. cc }

drain_metrics-send_all_example :
    Ended (send_all acknowledged two_rows.table.rows) loaded (drain_metrics accepting 3 loaded)
drain_metrics-send_all_example =
    drain_metrics-send_all accepting acknowledged accepting-IsSteady 3 loaded (omega arith)
      (omega arith) (omega arith)

-- A hub that knows the key no more.
abbrev locked_out : Env
locked_out = record {
  fails = λ n. false;
  now = λ n. n;
  metrics_answer = λ n p. replied 401 p (some n);
  events_answer = λ n p. replied 401 p (some n);
  marshal_notice = λ n s t. some "notice";
  build_events = λ ps t. some "[]";
  read_metrics_ack = λ b. none;
  read_events_ack = λ b. some tt;
  err_detail = λ b. b;
}

locked_out-Refusing : Refusing locked_out
locked_out-Refusing = record {
  up = λ n. refl;
  metrics_401 = λ n p. (_, _, refl);
  events_401 = λ n p. (_, _, refl);
  builds = λ ps n. (_, refl);
}

turns-StaysLatched_example : StaysLatched loaded.queue (
    turns locked_out 300
      (λ n. n)
      4
      9
      (record { attempt = 0; unauthorized = true; next_try = 2 })
      loaded)
turns-StaysLatched_example =
    turns-StaysLatched locked_out 300 (λ n. n) locked_out-Refusing 4 9
      (record { attempt = 0; unauthorized = true; next_try = 2 }) loaded refl
