-- ===== src/Agent/Client.antt =====
-- agent/internal/report/client.go: what the hub's answer to a POST means to the sender.
-- The transport, the JSON decoder and the text of an error are parameters.
use sakura_assistant.Base.{
  ℕ, ◌*◌, String, Option, none, some, Bool, ◌&&◌, ◌||◌, eqb, leb, ltb, if◌then◌else◌,
}

pub data ErrKind : Type 0 where
  retryable unauthorized poison : ErrKind

-- `retry_after` is in nanoseconds; 0 when the answer names no delay, or one that is not positive.
pub record SendError : Type 0 where
  pub kind : ErrKind
  pub status : ℕ
  pub retry_after : ℕ
  pub detail : String

-- An error value of the sender: a `*SendError`, or any other.
pub data Failure : Type 0 where
  send : SendError → Failure
  local : String → Failure

-- What `http.Client.Do` brings: a transport error, or a status, a body, and the `Retry-After`
-- header where it holds a number of seconds.
pub data Response : Type 0 where
  unreachable : String → Response
  replied : ℕ → String → Option ℕ → Response

pub record MetricsAck : Type 0 where
  pub accepted : Bool
  pub duplicate : Bool
  pub report_interval_seconds : ℕ

pub data Posted {ℓ} (A : Type ℓ) : Type ℓ where
  acked : A → Posted A
  refused : Failure → Posted A

abbrev pub second : ℕ
second = 1000000000

retry_after_of : ℕ → Option ℕ → ℕ
retry_after_of status header =
    if eqb status 429 then elim header [ none ↦ 0 | some n ↦ n * second ] else 0

-- The `switch` of `post`.
unfoldable pub post : (String → String) → Response → Posted String
unfolding retry_after_of
post err_detail (unreachable e) =
    refused (send (record { kind = retryable; status = 0; retry_after = 0; detail = e }))
post err_detail (replied status body header) =
    if leb 200 status && ltb status 300
    then acked body
    else if eqb status 401
    then refused (
        send (record {
          kind = unauthorized;
          status = status;
          retry_after = 0;
          detail = err_detail body;
        }))
    else if eqb status 400 || eqb status 413
    then refused (
        send (record { kind = poison; status = status; retry_after = 0; detail = err_detail body }))
    else refused (
        send (record {
          kind = retryable;
          status = status;
          retry_after = retry_after_of status header;
          detail = err_detail body;
        }))

-- `PostMetrics` and `PostEvents`: an answer that does not decode counts as retryable.
unfoldable pub decode {ℓ} : {A : Type ℓ} → String → (String → Option A) → Posted String → Posted A
decode bad read (refused e) = refused e
decode bad read (acked body) = elim (read body) [
  | none ↦ refused (send (record { kind = retryable; status = 0; retry_after = 0; detail = bad }))
  | some ack ↦ acked ack
]

unfoldable pub classify : Failure → ErrKind
classify (send e) = e.kind
classify (local _) = retryable
