-- ===== src/Telemetry.antt =====
-- frontend/src/services/telemetry.ts: the connection of TelemetryService, as a handler for each thing
-- that can happen to it. The browser's part is in the events: whether a constructor throws, and
-- whether an event comes from the socket that the service holds now.
pub mod Alive
pub mod Delay
mod Tests
use cont_ained.Base.{
  ℕ, ◌+◌, ◌-◌, ◌*◌, ◌^◌, Bool, true, false, ◌||◌, Option, none, some, List, [], ◌∷◌, min, eqb,
  if◌then◌else◌,
}
use cont_ained.Store.Metrics.{
  MetricsSlice, PartialMetrics, set_telemetry, set_connection_status, increment_reconnect_attempts,
}

-- `readyState`; `opened` is `OPEN`.
pub data ReadyState : Type 0 where
  connecting opened closing closed : ReadyState

-- `reconnectTimer`: `null`, a timer that runs for so many milliseconds, or the handle of a timer that
-- was cleared and that the field still holds.
pub data Timer : Type 0 where
  no_timer : Timer
  running : ℕ → Timer
  cleared : Timer

-- The fields of `TelemetryService` and the slice of the store that it writes.
pub record Service (N : Type 0) : Type 0 where
  pub socket : Option ReadyState
  pub sse : Bool
  pub reconnect_timer : Timer
  pub metrics : MetricsSlice N

-- What happens to the service.
pub data ServiceEvent (N : Type 0) : Type 0 where
  -- A call of `connect`; the flags say whether `new WebSocket` and `new EventSource` throw.
  connects : Bool → Bool → ServiceEvent N
  -- The socket's `onopen`, at this time.
  socket_opens : ℕ → ServiceEvent N
  -- A message of the socket or the stream; `none` when it does not parse.
  message_arrives : Option (PartialMetrics N) → ServiceEvent N
  -- `onerror`; the flag says whether `new EventSource` throws.
  socket_errs : Bool → ServiceEvent N
  -- `onclose`; the flag says whether it is the socket that the service holds.
  socket_closes : Bool → ServiceEvent N
  sse_opens : ℕ → ServiceEvent N
  sse_errs : ServiceEvent N
  -- The timer's callback, with the flags of the `connect` in it.
  timer_fires : Bool → Bool → ServiceEvent N
  disconnects : ServiceEvent N

-- `Math.min(30000, 1000 * Math.pow(2, attempts - 1))`.
unfoldable pub backoff_ms : ℕ → ℕ
backoff_ms attempts = min 30000 (1000 * 2 ^ (attempts - 1))

-- `socket.readyState === OPEN || socket.readyState === CONNECTING`.
abbrev pub is_live : Option ReadyState → Bool
is_live (some connecting) = true
is_live (some opened) = true
is_live _ = false

-- `this.socket?.close()`.
abbrev pub close_socket : Option ReadyState → Option ReadyState
close_socket none = none
close_socket (some closed) = some closed
close_socket (some _) = some closing

abbrev pub as_closed : Bool → Option ReadyState → Option ReadyState
as_closed true (some r) = some closed
as_closed _ socket = socket

abbrev pub clear_timer : Timer → Timer
clear_timer no_timer = no_timer
clear_timer _ = cleared

module _ {N : Type 0} where
  -- `setConnectionStatus(false)`.
  abbrev pub mark_offline : Service N → Service N
  mark_offline s = record s { metrics = set_connection_status 0 false s.metrics }

  -- `scheduleReconnect` when there is no timer.
  abbrev start_timer : Service N → Service N
  start_timer s =
      let metrics : MetricsSlice N = increment_reconnect_attempts s.metrics in
      let attempts : ℕ =
        if eqb metrics.reconnect_attempts 0 then 1 else metrics.reconnect_attempts in
      record s { metrics = metrics; reconnect_timer = running (backoff_ms attempts) }

  -- `scheduleReconnect`.
  unfoldable pub schedule_reconnect : Service N → Service N
  unfolding backoff_ms increment_reconnect_attempts
  schedule_reconnect s = elim s.reconnect_timer [
    | no_timer ↦ start_timer s
    | running ms ↦ s
    | cleared ↦ s
  ]

  -- `connectSSE`.
  unfoldable pub connect_sse : Bool → Service N → Service N
  unfolding schedule_reconnect
  connect_sse throws s =
      if s.sse then s else if throws then schedule_reconnect s else record s { sse = true }

  -- `connect`.
  unfoldable pub connect : Bool → Bool → Service N → Service N
  unfolding connect_sse
  connect throws sse_throws s =
      if is_live s.socket
      then s
      else if throws
      then connect_sse sse_throws s
      else record s { socket = some connecting }

  -- `onopen` of a socket that was connecting.
  unfoldable pub on_open : ℕ → Service N → Service N
  on_open now s = elim s.socket [
    | some connecting ↦ record s {
      socket = some opened;
      metrics = set_connection_status now true s.metrics;
      reconnect_timer = no_timer;
    }
    | _ ↦ s
  ]

  -- `onerror` of the socket.
  unfoldable pub on_error : Bool → Service N → Service N
  unfolding connect_sse
  on_error sse_throws s = connect_sse sse_throws (record s { socket = close_socket s.socket })

  -- `onclose` of a socket.
  unfoldable pub on_close : Bool → Service N → Service N
  unfolding schedule_reconnect
  on_close current s =
      schedule_reconnect (mark_offline (record s { socket = as_closed current s.socket }))

  -- `onerror` of the stream.
  unfoldable pub on_sse_error : Service N → Service N
  unfolding schedule_reconnect
  on_sse_error s = schedule_reconnect (record (mark_offline s) { sse = false })

  -- `disconnect`; it clears the timer and leaves its handle in the field.
  unfoldable pub disconnect : Service N → Service N
  disconnect s =
      mark_offline
        (record s { reconnect_timer = clear_timer s.reconnect_timer; socket = none; sse = false })

  unfoldable pub on_timer : Bool → Bool → Service N → Service N
  unfolding connect
  on_timer throws sse_throws s = elim s.reconnect_timer [
    | running ms ↦ connect throws sse_throws (record s { reconnect_timer = no_timer })
    | _ ↦ s
  ]

  -- `onmessage` of the socket and of the stream.
  unfoldable pub on_message : Option (PartialMetrics N) → Service N → Service N
  on_message none s = s
  on_message (some data_) s = record s { metrics = set_telemetry data_ s.metrics }

  unfoldable pub handle : ServiceEvent N → Service N → Service N
  handle (connects throws sse_throws) s = connect throws sse_throws s
  handle (socket_opens now) s = on_open now s
  handle (message_arrives data_) s = on_message data_ s
  handle (socket_errs sse_throws) s = on_error sse_throws s
  handle (socket_closes current) s = on_close current s
  handle (sse_opens now) s = record s { metrics = set_connection_status now true s.metrics }
  handle sse_errs s = on_sse_error s
  handle (timer_fires throws sse_throws) s = on_timer throws sse_throws s
  handle disconnects s = disconnect s

  unfoldable pub handle_all : List (ServiceEvent N) → Service N → Service N
  handle_all [] s = s
  handle_all (e ∷ es) s = handle_all es (handle e s)
