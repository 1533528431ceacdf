-- ===== src/Telemetry/Tests.antt =====
-- The telemetry connection on short rows of events.
use cont_ained.Base.{ℕ, ◌*◌, ◌^◌, min, false, true, none, some, [], ◌∷◌, ◌++◌, ◌≡◌, refl}
use cont_ained.Store.Metrics.{MetricsSlice}
use cont_ained.Telemetry.{
  Service, no_timer, running, connecting, connects, socket_opens, socket_errs, socket_closes,
  disconnects, backoff_ms, handle_all,
}
use cont_ained.Telemetry.Alive.{
  Alive, IsAlive, is_running, handle_all-IsAlive, disconnect_blocks, disconnect_reconnects,
}
use cont_ained.Telemetry.Delay.{failures, handle_all-backoff_ms}

abbrev metrics : MetricsSlice ℕ
metrics = record {
  telemetry = record {
    cpu_usage_percent = 0;
    memory_usage_percent = 0;
    vram_usage_mb = 0;
    vram_total_mb = 16384;
    active_agents = 0;
    status = "connecting";
    timestamp = 0;
  };
  telemetry_history = [];
  is_connected = false;
  reconnect_attempts = 0;
  last_connected_at = none;
}

abbrev fresh_service : Service ℕ
fresh_service = record { socket = none; sse = false; reconnect_timer = no_timer; metrics = metrics }

abbrev dialing : Service ℕ
dialing = record fresh_service { socket = some connecting }

abbrev waiting : Service ℕ
waiting = record fresh_service { reconnect_timer = running 4000 }

backoff_ms_test : (backoff_ms 1 ≡ 1000) × (backoff_ms 5 ≡ 16000) × (backoff_ms 6 ≡ 30000)
unfolding backoff_ms
backoff_ms_test = (refl, refl, refl)

handle_all-IsAlive_example :
    IsAlive (
      handle_all (connects false false ∷ socket_errs false ∷ socket_closes true ∷ []) fresh_service)
handle_all-IsAlive_example =
    handle_all-IsAlive false false (socket_errs false ∷ socket_closes true ∷ []) fresh_service refl
      (tt, (tt, tt))

handle_all-backoff_ms_test :
    (handle_all (socket_opens 9 ∷ failures 3 ++ socket_closes true ∷ []) dialing).reconnect_timer
    ≡ running (min 30000 (1000 * 2 ^ 3))
handle_all-backoff_ms_test = handle_all-backoff_ms 3 9 dialing refl

disconnect_blocks_test :
    ¬ Alive (handle_all (disconnects ∷ connects false false ∷ socket_closes true ∷ []) waiting)
disconnect_blocks_test = disconnect_blocks 4000 waiting refl

disconnect_reconnects_test :
    is_running (handle_all (disconnects ∷ socket_closes false ∷ []) dialing).reconnect_timer ≡ true
disconnect_reconnects_test = disconnect_reconnects dialing refl
