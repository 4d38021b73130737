-- ===== src/Agent/Queue/Taken.antt =====
-- agent/internal/queue/queue.go, TakeOverflow: an enqueue between its two statements.
use sakura_assistant.Base.{ℕ, ◌+◌, ◌-◌, String, ◌≡◌, refl, sym, ap, ◌∙◌, some, [], ◌∷◌, arith}
use mathlib.Core.Path.{subst}
use sakura_assistant.Agent.Queue.{Overflow, read_overflow, clear_overflow}
use sakura_assistant.Agent.Queue.Steps.{lost, surplus, enqueue-Enqueued}
use sakura_assistant.Agent.Queue.Ledger.{
  enqueued, overflow_read, overflow_cleared, Account, perform, run, IsBalanced, read-IsBalanced,
}

-- What an operation leaves of what was read, reported and missed, and what it adds to the record.
record Adds (n : ℕ) (a a' : Account) : Type 0 where
  read : a'.read ≡ a.read
  reported : a'.reported ≡ a.reported
  missed : a'.missed ≡ a.missed
  lost : lost a'.stream ≡ lost a.stream + n

enqueued_account :
    (limit seq : ℕ) (payload : String) (now : ℕ) (a : Account)
    → IsBalanced a
    → Adds (surplus limit a.stream) a (perform limit (enqueued seq payload now) a)
unfolding perform
enqueued_account limit seq payload now a b =
    let e = enqueue-Enqueued limit seq payload now a.stream b.in_order in
    rw e.returns (record { read = refl; reported = refl; missed = refl; lost = e.counted })

-- A record that was read and is then cleared.
record Clears (o : Overflow) (a a' : Account) : Type 0 where
  missed : a'.missed ≡ a.missed + (lost a.stream - o.dropped)
  reported : a'.reported ≡ a.reported + o.dropped
  lost : lost a'.stream ≡ 0

clears :
    (limit : ℕ) (a : Account) (o : Overflow)
    → Clears o a (perform limit overflow_cleared (record a { read = some o }))
unfolding perform clear_overflow
clears limit a o = record { missed = omega arith; reported = refl; lost = refl }

cleared_account :
    (limit : ℕ) (a : Account) (o : Overflow)
    → a.read ≡ some o
    → Clears o a (perform limit overflow_cleared a)
cleared_account limit a o e =
    subst (λ r. Clears o a (perform limit overflow_cleared (record a { read = r }))) (sym e)
      (clears limit a o)

read_account :
    (limit : ℕ) (a : Account)
    → perform limit overflow_read a ≡ record a { read = a.stream.overflow }
unfolding perform read_overflow
read_account limit a = refl

-- TakeOverflow on a stream with an overflow record, with nothing between its two statements, and with
-- an enqueue between them.
abbrev pub taken_at_once : ℕ → Account → Account
taken_at_once limit a = run limit (overflow_read ∷ overflow_cleared ∷ []) a

abbrev pub taken_around : ℕ → ℕ → String → ℕ → Account → Account
taken_around limit seq payload now a =
    run limit (overflow_read ∷ enqueued seq payload now ∷ overflow_cleared ∷ []) a

-- When an overflow record is there, TakeOverflow clears it and reports the drops that it read. With
-- nothing between its two statements it misses none; with an enqueue between them it misses as many as
-- that enqueue dropped: they are neither reported nor on record any more.
pub overflow_cleared-misses :
    (limit seq : ℕ) (payload : String) (now : ℕ) (a : Account) (o : Overflow)
    → IsBalanced a
    → a.stream.overflow ≡ some o
    → ((taken_at_once limit a).missed ≡ a.missed)
      × ((taken_at_once limit a).reported ≡ a.reported + o.dropped)
      × ((taken_around limit seq payload now a).missed ≡ a.missed + surplus limit a.stream)
      × ((taken_around limit seq payload now a).reported ≡ a.reported + o.dropped)
      × (lost (taken_around limit seq payload now a).stream ≡ 0)
unfolding run
overflow_cleared-misses limit seq payload now a o b there =
    let first = perform limit overflow_read a in
    let at_read = read_account limit a in
    let reads : first.read ≡ some o = ap (λ f. f.read) at_read ∙ there in
    let same_stream = ap (λ f. f.stream) at_read in
    let missed = ap (λ f. f.missed) at_read in
    let reported = ap (λ f. f.reported) at_read in
    let later = enqueued_account limit seq payload now first (read-IsBalanced limit a b) in
    let once = cleared_account limit first o reads in
    let around =
      cleared_account limit (perform limit (enqueued seq payload now) first) o
        (later.read ∙ reads) in
    let before : lost a.stream ≡ o.dropped = rw there refl in
    (
      omega (arith, once.missed, ap lost same_stream, missed, before),
      omega (arith, once.reported, reported),
      omega (
        arith,
        around.missed,
        later.lost,
        later.missed,
        ap lost same_stream,
        ap (surplus limit) same_stream,
        missed,
        before,
      ),
      omega (arith, around.reported, later.reported, reported),
      around.lost,
    )
