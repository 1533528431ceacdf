-- ===== src/Api.antt =====
-- frontend/src/services/api.ts: the `request` function under every call of the gateway. The replies
-- of `fetch` and what a body parses to are given, one for each attempt; `T` is the type of a result.
pub mod Loop
pub mod Verdict
pub mod Decided
pub mod Backoff
pub mod Repeats
pub mod Client
pub mod Public
pub mod Endpoints
pub mod Inside
pub mod Scope
mod Tests
use cont_ained.Base.{
  ℕ, zero, suc, ◌+◌, ◌*◌, ◌^◌, String, Bool, true, false, ◌&&◌, ◌||◌, not, Option, none, some, List,
  [], ◌∷◌, ◌++◌, ◌==◌, leb, eqb, get_or, if◌then◌else◌,
}

-- The code, the hub and the target hub of a `HubApiError`, with its message and status.
pub record HubApiError : Type 0 where
  pub message : String
  pub code : String
  pub status : ℕ
  pub hub_id : Option String
  pub target_hub_id : Option String

-- `errJson.error`.
pub record ErrorDetail : Type 0 where
  pub message : Option String
  pub code : Option String
  pub hub_id : Option String
  pub target_hub_id : Option String

-- What the body of a failed response parses to: `detail` is its text, a structured one already as
-- `JSON.stringify` writes it. A missing field and an empty text read the same.
pub record ErrorBody : Type 0 where
  pub error : Option ErrorDetail
  pub message : Option String
  pub detail : Option String

-- A response; `error_body` is `none` when the body does not parse to an object, and `value` when it
-- does not parse at all, with the message of that exception.
pub record Response (T : Type 0) : Type 0 where
  pub status : ℕ
  pub error_text : String
  pub error_body : Option ErrorBody
  pub value : Option T
  pub parse_message : String

-- What one `fetch` comes to: an exception with its message, the abort of the timer, or a response.
pub data Reply (T : Type 0) : Type 0 where
  unreachable : String → Reply T
  aborted : Reply T
  responds : Response T → Reply T

-- What the caller sees: the fetches, the notifications with title and message, and the pauses.
pub data Event : Type 0 where
  fetches : Event
  notifies : String → String → Event
  waits : ℕ → Event

-- How a call ends.
pub data Outcome (T : Type 0) : Type 0 where
  returned : T → Outcome T
  -- `{}`, for a response with no content.
  no_content : Outcome T
  hub_error : HubApiError → Outcome T
  failed : String → Outcome T

-- How one attempt ends before the loop decides: with a result, with the hub's error, with the
-- `continue` for a server error, or with an exception that the `catch` handles, after the
-- notifications that it made. `true` marks the abort.
pub data Attempt (T : Type 0) : Type 0 where
  ends : Outcome T → Attempt T
  server_error : Attempt T
  raises : List Event → Bool → String → Attempt T

-- `a || b` on texts.
abbrev pub or_else : Option String → String → String
or_else none d = d
or_else (some s) d = if s == "" then d else s

-- `errorMsg` and, when the body has a code, the error to throw.
abbrev pub error_message : String → Option ErrorBody → String
error_message text none = text
error_message text (some b) = elim b.error [
  | some e ↦ or_else e.message text
  | none ↦ or_else b.message (or_else b.detail text)
]

abbrev pub code_of : Option ErrorBody → Option ErrorDetail
code_of none = none
code_of (some b) = elim b.error [
  | none ↦ none
  | some e ↦ if or_else e.code "" == "" then none else some e
]

abbrev pub is_ok : ℕ → Bool
is_ok status = leb 200 status && leb status 299

-- The texts of the messages: `HTTP Error ...`, `API Request Failed (...)`, the time-out.
pub record Wording : Type 0 where
  pub failed_title : ℕ → String
  pub timed_out : String

module _ {T : Type 0} where
  -- The body of the `try`, for a response that is not `ok`; `last` says that no attempt is left.
  unfoldable pub try_failed : Wording → Bool → Response T → Attempt T
  try_failed words last r =
      let message : String = error_message r.error_text r.error_body in
      elim (code_of r.error_body) [
        | some e ↦ ends (
            hub_error (record {
              message = message;
              code = or_else e.code "";
              status = r.status;
              hub_id = e.hub_id;
              target_hub_id = e.target_hub_id;
            }))
        | none ↦
            if leb 500 r.status && not last
            then server_error
            else raises (notifies (words.failed_title r.status) message ∷ []) false message
      ]

  -- One pass through the `try`.
  unfoldable pub attempt_once : Wording → Bool → Reply T → Attempt T
  unfolding try_failed
  attempt_once words last (unreachable message) =
      raises [] false (or_else (some message) "Network request failed")
  attempt_once words last aborted = raises [] true words.timed_out
  attempt_once words last (responds r) =
      if not (is_ok r.status)
      then try_failed words last r
      else if eqb r.status 240 || eqb r.status 204
      then ends no_content
      else elim r.value [
        | some v ↦ ends (returned v)
        | none ↦ raises [] false (or_else (some r.parse_message) "Network request failed")
      ]

  -- The `for` loop: `left` attempts are left, and this is attempt number `attempt`.
  unfoldable pub request_loop :
      Wording → (ℕ → Reply T) → ℕ → ℕ → Option String → List Event × Outcome T
  unfolding attempt_once
  request_loop words replies zero attempt last_error =
      ([], failed (get_or last_error "Request failed after retries"))
  request_loop words replies (suc left) attempt last_error =
      let backoff : ℕ = 2 ^ attempt * 1000 in
      elim (attempt_once words (eqb left 0) (replies attempt)) [
        | ends o ↦ (fetches ∷ [], o)
        | server_error ↦
            let rest : List Event × Outcome T =
              request_loop words replies left (attempt + 1) last_error in
            (fetches ∷ waits backoff ∷ rest.0, rest.1)
        | raises events is_abort message ↦
            let rest : List Event × Outcome T =
              request_loop words replies left (attempt + 1) (some message) in
            if not (eqb left 0) && not is_abort
            then (fetches ∷ events ++ waits backoff ∷ rest.0, rest.1)
            else (fetches ∷ events ++ notifies "API Error" message ∷ [], failed message)
      ]

  -- `request` with its number of attempts, 3 by default.
  unfoldable pub request : Wording → (ℕ → Reply T) → ℕ → List Event × Outcome T
  unfolding request_loop
  request words replies retries = request_loop words replies retries 0 none
