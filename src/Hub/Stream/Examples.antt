-- ===== src/Hub/Stream/Examples.antt =====
-- A client of the stream at concrete inputs.
use sakura_assistant.Base.{
  ℕ, zero, suc, Option, ◌==◌, if◌then◌else◌, ◌<◌, ◌≡◌, refl, none, some, false, List, [], ◌∷◌, ◌++◌,
  arith, length,
}
use sakura_assistant.Hub.Types.{ChangeEntry, tombstone}
use sakura_assistant.Hub.Stream.Frames.{Bytes, StreamEnv, sse_write}
use sakura_assistant.Hub.Auth.Decimal.{itoa, itoa_from}
use sakura_assistant.Hub.Stream.Client.{
  connected, following, World, Action, commit, publish_nth, subscribes, replays, receives, above,
  changes_since, min_change_seq, subscribe, replay, receive, pick, offer, publish, step, run,
  channel_size, order_by_seq, place_change,
}
use sakura_assistant.Hub.Stream.Lines.{sse_write-read}
use sakura_assistant.Hub.Stream.Reader.{read}
use sakura_assistant.Hub.Stream.Order.{IsOrdered, run-IsOrdered}
use sakura_assistant.Hub.Stream.Delivery.{Delivers, run-Delivers}
use sakura_assistant.Hub.Stream.Overflow.{IsFollowing, Lacks, publish-NeverWritten}

abbrev gone : ℕ → ChangeEntry
gone n = record {
  seq = n;
  ref_id = "flt_1";
  object = tombstone "fault" "flt_1";
  notify = none;
  created_at = "2026";
}

abbrev start : World
start = record {
  log = gone 1 ∷ gone 2 ∷ [];
  counter = 2;
  pending = gone 2 ∷ [];
  phase = connected;
  written = [];
}

-- A change is committed and published between the subscription and the replay, and one after it.
abbrev busy : List Action
busy =
    subscribes false
    ∷ commit (gone 0)
    ∷ publish_nth 0
    ∷ replays false
    ∷ publish_nth 0
    ∷ commit (gone 0)
    ∷ receives
    ∷ publish_nth 0
    ∷ receives
    ∷ receives
    ∷ []

run-IsOrdered_example : IsOrdered 1 (run 1 start busy)
run-IsOrdered_example =
    run-IsOrdered 1 start busy
      (record { log = (omega arith, (omega arith, omega arith)); written = refl })

run-Delivers_example : Delivers 1 (run 1 start busy) (run 1 start busy).phase
unfolding run step subscribe min_change_seq publish replay changes_since above order_by_seq
    place_change receive pick offer
run-Delivers_example =
    run-Delivers 1 start busy
      (record {
        log = (omega arith, (omega arith, omega arith));
        pending = (gone 1 ∷ [], refl);
        phase = refl;
        written = refl;
      })
      (
        tt,
        (
          tt,
          (
            (refl, omega arith),
            (tt, ((refl, omega arith), (tt, (tt, ((refl, omega arith), (tt, (tt, tt))))))),
          ),
        ),
      )

abbrev repeat : ℕ → ChangeEntry → List ChangeEntry
repeat zero e = []
repeat (suc n) e = e ∷ repeat n e

length-repeat : (n : ℕ) (e : ChangeEntry) → length (repeat n e) ≡ n
length-repeat zero e = refl
length-repeat (suc n) e = omega (arith, length-repeat n e)

repeat-Lacks : (n k : ℕ) (e : ChangeEntry) → e.seq < k → Lacks k (repeat n e)
repeat-Lacks zero k e l = tt
repeat-Lacks (suc n) k e l = ((λ at. omega (arith, at, l)), repeat-Lacks n k e l)

abbrev crowded : World
crowded = record {
  log = gone 1 ∷ gone 2 ∷ [];
  counter = 2;
  pending = gone 2 ∷ [];
  phase = following 0 (repeat channel_size (gone 1));
  written = [];
}

publish-NeverWritten_example :
    Lacks 2 (run 0 crowded (publish_nth 0 ∷ receives ∷ receives ∷ [])).written
    × IsFollowing (run 0 crowded (publish_nth 0 ∷ receives ∷ receives ∷ [])).phase
unfolding pick
publish-NeverWritten_example =
    publish-NeverWritten 0 0 0 crowded (repeat channel_size (gone 1)) [] (gone 2)
      (receives ∷ receives ∷ []) refl (omega (arith, length-repeat channel_size (gone 1))) refl
      (omega arith) tt (repeat-Lacks channel_size 2 (gone 1) (omega arith)) tt

abbrev printed : Option Bytes → Bytes
printed none = []
printed (some text) = text

abbrev plain_env : StreamEnv
plain_env = record {
  bytes_of = λ s. if s == "fault" then 102 ∷ 97 ∷ 117 ∷ 108 ∷ 116 ∷ [] else 109 ∷ 115 ∷ 103 ∷ [];
  decimal = λ n. printed (itoa n);
  parse_number = λ s. none;
  type_of = λ d. "message";
  data_of = λ d. [];
  with_notify = λ b n. none;
  cursor_expired = [];
  internal = [];
}

-- The data is "1", a newline and "2".
sse_write-read_example :
    read (sse_write plain_env "fault" 17 (49 ∷ 10 ∷ 50 ∷ []) ++ 100 ∷ [])
    ≡ some (
      record {
        id = some (plain_env.decimal 17);
        name = plain_env.bytes_of "fault";
        body = 49 ∷ 10 ∷ 50 ∷ [];
      },
      100 ∷ [],
    )
unfolding itoa itoa_from
sse_write-read_example =
    sse_write-read plain_env "fault" 17 (49 ∷ 10 ∷ 50 ∷ []) (100 ∷ []) (omega arith) (omega arith)
      (omega arith)
