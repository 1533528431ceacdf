-- ===== src/Telemetry/Alive.antt =====
-- The ways that TelemetryService has back to the gateway.
use cont_ained.Base.{
  ℕ, Bool, true, false, Option, none, some, List, [], ◌∷◌, ◌≡◌, ◌⊎◌, inl, inr, refl, if◌then◌else◌,
  arith, Bool-cases, All,
}
use cont_ained.Telemetry.{
  ReadyState, Timer, no_timer, running, cleared, Service, ServiceEvent, connects, socket_opens,
  message_arrives, socket_errs, socket_closes, sse_opens, sse_errs, timer_fires, disconnects,
  is_live, close_socket, connecting, opened, closing, closed, schedule_reconnect, connect_sse,
  connect, on_open, on_error, on_close, on_sse_error, disconnect, on_timer, on_message, handle,
  handle_all,
}

abbrev pub is_running : Timer → Bool
is_running (running ms) = true
is_running _ = false

abbrev pub is_cleared : Timer → Bool
is_cleared cleared = true
is_cleared _ = false

module _ {N : Type 0} where
  -- The socket is open or being opened, the stream is there, or a timer runs that will connect
  -- again.
  abbrev pub Alive : Service N → Type 0
  Alive s = (is_live s.socket ≡ true) ⊎ ((s.sse ≡ true) ⊎ (is_running s.reconnect_timer ≡ true))

  -- Alive, and the timer's field holds no handle of a cleared timer.
  pub record IsAlive (s : Service N) : Type 0 where
    pub way : Alive s
    pub fresh : is_cleared s.reconnect_timer ≡ false

  -- After `scheduleReconnect` a timer runs.
  schedule_reconnect-IsAlive :
      (s : Service N) → is_cleared s.reconnect_timer ≡ false → IsAlive (schedule_reconnect s)
  unfolding schedule_reconnect
  schedule_reconnect-IsAlive s f = by_timer s.reconnect_timer refl
    where
      by_timer : (t : Timer) → s.reconnect_timer ≡ t → IsAlive (schedule_reconnect s)
      by_timer no_timer e =
          rw (schedule_reconnect, e) (record { way = inr (inr refl); fresh = refl })
      by_timer (running ms) e =
          rw (schedule_reconnect, e) (record { way = inr (inr (rw e refl)); fresh = f })
      by_timer cleared e = cc (rw e at f)

  connect_sse-IsAlive :
      (throws : Bool) (s : Service N)
      → is_cleared s.reconnect_timer ≡ false
      → IsAlive (connect_sse throws s)
  unfolding connect_sse
  connect_sse-IsAlive throws s f = by_sse s.sse refl
    where
      by_sse :
          (b : Bool)
          → s.sse ≡ b
          → IsAlive
              (if b then s else if throws then schedule_reconnect s else record s { sse = true })
      by_sse true e = record { way = inr (inl e); fresh = f }
      by_sse false e = by_throw throws
        where
          by_throw :
              (c : Bool) → IsAlive (if c then schedule_reconnect s else record s { sse = true })
          by_throw true = schedule_reconnect-IsAlive s f
          by_throw false = record { way = inr (inl refl); fresh = f }

  connect-IsAlive :
      (throws sse_throws : Bool) (s : Service N)
      → is_cleared s.reconnect_timer ≡ false
      → IsAlive (connect throws sse_throws s)
  unfolding connect
  connect-IsAlive throws sse_throws s f = elim (Bool-cases (is_live s.socket)) [
    | inl live ↦ rw (connect, live) (record { way = inl live; fresh = f })
    | inr dead ↦ rw (connect, dead) (by_throw throws)
  ]
    where
      by_throw :
          (b : Bool)
          → IsAlive (if b then connect_sse sse_throws s else record s { socket = some connecting })
      by_throw true = connect_sse-IsAlive sse_throws s f
      by_throw false = record { way = inl refl; fresh = f }

  on_open-IsAlive : (now : ℕ) (s : Service N) → IsAlive s → IsAlive (on_open now s)
  unfolding on_open
  on_open-IsAlive now s a = by_socket s.socket refl
    where
      by_socket : (r : Option ReadyState) → s.socket ≡ r → IsAlive (on_open now s)
      by_socket (some connecting) e = rw (on_open, e) (record { way = inl refl; fresh = refl })
      by_socket none e = rw (on_open, e) a
      by_socket (some opened) e = rw (on_open, e) a
      by_socket (some closing) e = rw (on_open, e) a
      by_socket (some closed) e = rw (on_open, e) a

  on_timer-IsAlive :
      (throws sse_throws : Bool) (s : Service N)
      → IsAlive s
      → IsAlive (on_timer throws sse_throws s)
  unfolding on_timer
  on_timer-IsAlive throws sse_throws s a = by_timer s.reconnect_timer refl
    where
      by_timer : (t : Timer) → s.reconnect_timer ≡ t → IsAlive (on_timer throws sse_throws s)
      by_timer no_timer e = rw (on_timer, e) a
      by_timer cleared e = rw (on_timer, e) a
      by_timer (running ms) e =
          rw (on_timer, e)
            (connect-IsAlive throws sse_throws (record s { reconnect_timer = no_timer }) refl)

  -- Every event but a call of `disconnect`.
  abbrev pub Undisturbed : ServiceEvent N → Type 0
  Undisturbed disconnects = ⊥
  Undisturbed _ = Unit

  handle-IsAlive :
      (e : ServiceEvent N) (s : Service N) → Undisturbed e → IsAlive s → IsAlive (handle e s)
  unfolding handle on_error on_close on_sse_error on_message
  handle-IsAlive (connects throws sse_throws) s u a = connect-IsAlive throws sse_throws s a.fresh
  handle-IsAlive (socket_opens now) s u a = on_open-IsAlive now s a
  handle-IsAlive (message_arrives none) s u a = a
  handle-IsAlive (message_arrives (some data_)) s u a = record { way = a.way; fresh = a.fresh }
  handle-IsAlive (socket_errs sse_throws) s u a =
      connect_sse-IsAlive sse_throws (record s { socket = close_socket s.socket }) a.fresh
  handle-IsAlive (socket_closes current) s u a = schedule_reconnect-IsAlive _ a.fresh
  handle-IsAlive (sse_opens now) s u a = record { way = a.way; fresh = a.fresh }
  handle-IsAlive sse_errs s u a = schedule_reconnect-IsAlive _ a.fresh
  handle-IsAlive (timer_fires throws sse_throws) s u a = on_timer-IsAlive throws sse_throws s a
  handle-IsAlive disconnects s u a = absurd u

  handle_all-kept :
      (es : List (ServiceEvent N)) (s : Service N)
      → All Undisturbed es
      → IsAlive s
      → IsAlive (handle_all es s)
  unfolding handle_all
  handle_all-kept [] s u a = a
  handle_all-kept (e ∷ es) s (u, us) a = handle_all-kept es (handle e s) us (handle-IsAlive e s u a)

  -- After a call of `connect`, when the timer's field holds no cleared handle, and after any further
  -- events but a call of `disconnect`, the service has a way to the gateway: a socket that is open
  -- or being opened, the stream, or a running timer that connects again.
  pub handle_all-IsAlive :
      (throws sse_throws : Bool) (es : List (ServiceEvent N)) (s : Service N)
      → is_cleared s.reconnect_timer ≡ false
      → All Undisturbed es
      → IsAlive (handle_all (connects throws sse_throws ∷ es) s)
  unfolding handle_all handle
  handle_all-IsAlive throws sse_throws es s f u =
      handle_all-kept es (connect throws sse_throws s) u (connect-IsAlive throws sse_throws s f)

  -- When a timer ran as `disconnect` was called, its handle stays in the field: after the next
  -- `connect`, the close of that socket starts no timer and leaves no way to the gateway.
  pub disconnect_blocks :
      (ms : ℕ) (s : Service N)
      → s.reconnect_timer ≡ running ms
      → ¬ Alive (handle_all (disconnects ∷ connects false false ∷ socket_closes true ∷ []) s)
  unfolding handle_all handle disconnect connect on_close schedule_reconnect
  disconnect_blocks ms s e = rw (on_close, schedule_reconnect, e) (λ a. ground (arith, a))

  -- When no timer ran as `disconnect` was called, the close that it causes starts one: the service
  -- connects again by itself.
  pub disconnect_reconnects :
      (s : Service N)
      → s.reconnect_timer ≡ no_timer
      → is_running (handle_all (disconnects ∷ socket_closes false ∷ []) s).reconnect_timer ≡ true
  unfolding handle_all handle disconnect on_close schedule_reconnect
  disconnect_reconnects s e = rw (on_close, schedule_reconnect, e) refl
