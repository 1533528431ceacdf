-- ===== src/Telemetry/Delay.antt =====
-- The delays of scheduleReconnect over a row of failed attempts.
use cont_ained.Base.{
  ℕ, zero, suc, ◌+◌, ◌-◌, ◌*◌, ◌^◌, min, Bool, true, false, some, List, [], ◌∷◌, ◌++◌, ◌≡◌, refl,
  ap, ◌∙◌, arith, eqb, if◌then◌else◌,
}
use cont_ained.Store.Metrics.{MetricsSlice, set_connection_status}
use cont_ained.Telemetry.{
  no_timer, running, Service, ServiceEvent, socket_closes, timer_fires, socket_opens, on_open,
  ReadyState, connecting, opened, backoff_ms, schedule_reconnect, connect, on_close, on_timer,
  handle, handle_all,
}

counts_on : (a : ℕ) → (if eqb (a + 1) 0 then 1 else a + 1) ≡ a + 1
counts_on a = ground arith

-- The delay of attempt `k + 1`.
backoff_ms-suc : (k : ℕ) → backoff_ms (0 + suc k) ≡ min 30000 (1000 * 2 ^ k)
unfolding backoff_ms
backoff_ms-suc k =
    let same : 0 + suc k - 1 ≡ k = omega arith in ap (λ i. min 30000 (1000 * 2 ^ i)) same

module _ {N : Type 0} where
  -- `k` attempts that fail: the socket closes, the timer fires, and the next socket is opened.
  abbrev pub failures : ℕ → List (ServiceEvent N)
  failures zero = []
  failures (suc k) = socket_closes true ∷ timer_fires false false ∷ failures k

  -- A service with a socket and no timer.
  abbrev at_socket : ReadyState → Bool → MetricsSlice N → Service N
  at_socket r sse metrics = record {
    socket = some r;
    sse = sse;
    reconnect_timer = no_timer;
    metrics = metrics;
  }

  abbrev after_close : MetricsSlice N → MetricsSlice N
  after_close m = record m { is_connected = false; reconnect_attempts = m.reconnect_attempts + 1 }

  on_close-timer :
      (r : ReadyState) (sse : Bool) (m : MetricsSlice N)
      → (on_close true (at_socket r sse m)).reconnect_timer
        ≡ running (backoff_ms (m.reconnect_attempts + 1))
  unfolding on_close schedule_reconnect set_connection_status
  on_close-timer r sse m = ap (λ n. running (backoff_ms n)) (counts_on m.reconnect_attempts)

  on_timer-on_close :
      (r : ReadyState) (sse : Bool) (m : MetricsSlice N)
      → on_timer false false (on_close true (at_socket r sse m))
        ≡ at_socket connecting sse (after_close m)
  unfolding on_close schedule_reconnect on_timer connect set_connection_status
  on_timer-on_close r sse m = refl

  failures_lem :
      (k : ℕ) (r : ReadyState) (sse : Bool) (m : MetricsSlice N)
      → (handle_all (failures k ++ socket_closes true ∷ []) (at_socket r sse m)).reconnect_timer
        ≡ running (backoff_ms (m.reconnect_attempts + suc k))
  unfolding handle_all handle
  failures_lem zero r sse m = on_close-timer r sse m
  failures_lem (suc k) r sse m =
      let shift_ : m.reconnect_attempts + 1 + suc k ≡ m.reconnect_attempts + suc (suc k) =
        omega arith in
      ap (λ s. (handle_all (failures k ++ socket_closes true ∷ []) s).reconnect_timer)
        (on_timer-on_close r sse m)
      ∙ failures_lem k connecting sse (after_close m)
      ∙ ap (λ n. running (backoff_ms n)) shift_

  on_open-at_socket :
      (now : ℕ) (s : Service N)
      → s.socket ≡ some connecting
      → on_open now s
        ≡ at_socket opened s.sse (record s.metrics {
          is_connected = true;
          last_connected_at = some now;
          reconnect_attempts = 0;
        })
  unfolding on_open set_connection_status
  on_open-at_socket now s e = rw (on_open, e) refl

  -- After a connection that opened, `k` failed attempts, and the close after them, the service waits
  -- 1000 * 2 ^ k milliseconds, and never more than 30 seconds.
  pub handle_all-backoff_ms :
      (k now : ℕ) (s : Service N)
      → s.socket ≡ some connecting
      → (handle_all (socket_opens now ∷ failures k ++ socket_closes true ∷ []) s).reconnect_timer
        ≡ running (min 30000 (1000 * 2 ^ k))
  unfolding handle_all handle
  handle_all-backoff_ms k now s e =
      ap (λ t. (handle_all (failures k ++ socket_closes true ∷ []) t).reconnect_timer)
        (on_open-at_socket now s e)
      ∙ failures_lem k opened s.sse (record s.metrics {
        is_connected = true;
        last_connected_at = some now;
        reconnect_attempts = 0;
      })
      ∙ ap running (backoff_ms-suc k)
