-- ===== src/Hub/Stream/Client.antt =====
-- hub/sse.go, broker and handleStream: one client of the stream beside the writers. The log is the
-- table changes. A writer commits under the store's lock and publishes later, without it, so
-- `pending` has the entries that are committed and still to be published, and any of them may be
-- next. The broker offers an entry to each channel by itself; `Phase` has the client's.
use sakura_assistant.Base.{
  ℕ, zero, suc, ◌+◌, String, Option, none, some, Bool, ◌==◌, List, [], ◌∷◌, ◌++◌, ltb, leb, length,
  if◌then◌else◌,
}
use sakura_assistant.Hub.Types.{ChangeEntry}
use sakura_assistant.Hub.Stream.Frames.{StreamEnv, Bytes, sse_write, write_entry}

-- `SELECT ... WHERE seq > ?`
unfoldable pub above : ℕ → List ChangeEntry → List ChangeEntry
above n [] = []
above n (e ∷ rest) = let others = above n rest in if ltb n e.seq then e ∷ others else others

unfoldable pub place_change : ChangeEntry → List ChangeEntry → List ChangeEntry
place_change e [] = e ∷ []
place_change e (f ∷ rest) =
    let others = place_change e rest in if leb e.seq f.seq then e ∷ f ∷ rest else f ∷ others

unfoldable pub order_by_seq : List ChangeEntry → List ChangeEntry
order_by_seq [] = []
order_by_seq (e ∷ rest) = place_change e (order_by_seq rest)

unfoldable pub changes_since : ℕ → List ChangeEntry → List ChangeEntry
changes_since since log = order_by_seq (above since log)

unfoldable pub min_change_seq : List ChangeEntry → Option ℕ
min_change_seq [] = none
min_change_seq (e ∷ rest) = elim (min_change_seq rest) [
  | none ↦ some e.seq
  | some n ↦ some (if ltb e.seq n then e.seq else n)
]

-- What `handleStream` makes of the query and the header, each "" when it is not there.
unfoldable pub parse_since : StreamEnv → String → String → Option ℕ
parse_since env query header =
    if query == ""
    then (if header == ""
        then some 0
        else elim (env.parse_number header) [ none ↦ some 0 | some n ↦ some n ])
    else env.parse_number query

-- Why the client has to load everything again.
pub data Reason : Type 0 where
  cursor_expired internal : Reason

-- The client in `handleStream`: after `event: resync`, or before `Subscribe`, with a channel, and with `last` in the loop.
pub data Phase : Type 0 where
  connected : Phase
  subscribed : List ChangeEntry → Phase
  following : ℕ → List ChangeEntry → Phase
  closed : Reason → Phase

pub record World : Type 0 where
  pub log : List ChangeEntry
  pub counter : ℕ
  pub pending : List ChangeEntry
  pub phase : Phase
  pub written : List ChangeEntry

abbrev pub channel_size : ℕ
channel_size = 256

-- `select { case ch <- e: default: }`
unfoldable pub offer : ChangeEntry → List ChangeEntry → List ChangeEntry
offer e channel = if ltb (length channel) channel_size then channel ++ e ∷ [] else channel

unfoldable pub publish : ChangeEntry → Phase → Phase
publish e connected = connected
publish e (subscribed channel) = subscribed (offer e channel)
publish e (following last channel) = following last (offer e channel)
publish e (closed reason) = closed reason

-- The check of the window, when the query succeeds, and `Subscribe`.
unfoldable pub subscribe : Bool → ℕ → List ChangeEntry → Phase → Phase
subscribe fails since log connected = if fails then subscribed [] else elim (min_change_seq log) [
  | none ↦ subscribed []
  | some n ↦ if ltb (since + 1) n then closed cursor_expired else subscribed []
]
subscribe fails since log (subscribed channel) = subscribed channel
subscribe fails since log (following last channel) = following last channel
subscribe fails since log (closed reason) = closed reason

abbrev pub last_of : ℕ → List ChangeEntry → ℕ
last_of last [] = last
last_of last (e ∷ rest) = last_of e.seq rest

-- The changes since the cursor are written.
unfoldable pub replay : Bool → ℕ → Phase → World → World
replay fails since (subscribed channel) w =
    if fails
    then record w { phase = closed internal }
    else let replayed = changes_since since w.log in
      record w {
        phase = following (last_of since replayed) channel;
        written = w.written ++ replayed;
      }
replay fails since connected w = w
replay fails since (following last channel) w = w
replay fails since (closed reason) w = w

-- One round of the loop that reads the channel.
unfoldable pub receive : Phase → World → World
receive (following last (e ∷ channel)) w =
    if leb e.seq last
    then record w { phase = following last channel }
    else record w { phase = following e.seq channel; written = w.written ++ e ∷ [] }
receive (following last []) w = w
receive connected w = w
receive (subscribed channel) w = w
receive (closed reason) w = w

unfoldable pub pick : ℕ → List ChangeEntry → Option (ChangeEntry × List ChangeEntry)
pick n [] = none
pick zero (e ∷ rest) = some (e, rest)
pick (suc n) (e ∷ rest) = elim (pick n rest) [
  | none ↦ none
  | some (f, others) ↦ some (f, e ∷ others)
]

pub data Action : Type 0 where
  commit : ChangeEntry → Action
  publish_nth : ℕ → Action
  subscribes replays : Bool → Action
  receives : Action

abbrev pub published : Option (ChangeEntry × List ChangeEntry) → World → World
published none w = w
published (some (e, others)) w = record w { pending = others; phase = publish e w.phase }

unfoldable pub step : ℕ → World → Action → World
step since w (commit content) =
    let e : ChangeEntry = record content { seq = w.counter + 1 } in
    record w { log = w.log ++ e ∷ []; counter = w.counter + 1; pending = w.pending ++ e ∷ [] }
step since w (publish_nth n) = published (pick n w.pending) w
step since w (subscribes fails) = record w { phase = subscribe fails since w.log w.phase }
step since w (replays fails) = replay fails since w.phase w
step since w receives = receive w.phase w

unfoldable pub run : ℕ → World → List Action → World
run since w [] = w
run since w (a ∷ rest) = run since (step since w a) rest

unfoldable pub lines_of : StreamEnv → List ChangeEntry → Bytes
lines_of env [] = []
lines_of env (e ∷ rest) = write_entry env e ++ lines_of env rest

abbrev reason_data : StreamEnv → Reason → Bytes
reason_data env cursor_expired = env.cursor_expired
reason_data env internal = env.internal

unfoldable pub last_lines : StreamEnv → Phase → Bytes
last_lines env (closed reason) = sse_write env "resync" 0 (reason_data env reason)
last_lines env connected = []
last_lines env (subscribed channel) = []
last_lines env (following last channel) = []

-- What `handleStream` has written so far, without the pings.
unfoldable pub output : StreamEnv → World → Bytes
output env w = lines_of env w.written ++ last_lines env w.phase
