-- ===== src/Store/Metrics.antt =====
-- frontend/src/store/metricsSlice.ts. The measured numbers are JavaScript's floating-point ones,
-- which the slice only stores: `N` stands for their type.
pub mod Recent
use cont_ained.Base.{
  ℕ, ◌+◌, ◌-◌, String, Bool, true, false, Option, none, some, List, [], ◌∷◌, ◌++◌, length, drop,
  get_or, if◌then◌else◌,
}

-- `TelemetryMetrics`.
pub record TelemetryMetrics (N : Type 0) : Type 0 where
  pub cpu_usage_percent : N
  pub memory_usage_percent : N
  pub vram_usage_mb : N
  pub vram_total_mb : N
  pub active_agents : N
  pub status : String
  pub timestamp : N

-- `Partial<TelemetryMetrics>`.
pub record PartialMetrics (N : Type 0) : Type 0 where
  pub cpu_usage_percent : Option N
  pub memory_usage_percent : Option N
  pub vram_usage_mb : Option N
  pub vram_total_mb : Option N
  pub active_agents : Option N
  pub status : Option String
  pub timestamp : Option N

-- The fields of `MetricsSlice` that hold state.
pub record MetricsSlice (N : Type 0) : Type 0 where
  pub telemetry : TelemetryMetrics N
  pub telemetry_history : List (TelemetryMetrics N)
  pub is_connected : Bool
  pub reconnect_attempts : ℕ
  pub last_connected_at : Option ℕ

-- `xs.slice(-n)` for `n > 0`.
unfoldable pub slice_last {ℓ} : {A : Type ℓ} → ℕ → List A → List A
slice_last n xs = drop (length xs - n) xs

module _ {N : Type 0} where
  -- `{ ...telemetry, ...metrics }`.
  abbrev pub merge_metrics : TelemetryMetrics N → PartialMetrics N → TelemetryMetrics N
  merge_metrics t m = record {
    cpu_usage_percent = get_or m.cpu_usage_percent t.cpu_usage_percent;
    memory_usage_percent = get_or m.memory_usage_percent t.memory_usage_percent;
    vram_usage_mb = get_or m.vram_usage_mb t.vram_usage_mb;
    vram_total_mb = get_or m.vram_total_mb t.vram_total_mb;
    active_agents = get_or m.active_agents t.active_agents;
    status = get_or m.status t.status;
    timestamp = get_or m.timestamp t.timestamp;
  }

  -- `setTelemetry`.
  unfoldable pub set_telemetry : PartialMetrics N → MetricsSlice N → MetricsSlice N
  unfolding slice_last
  set_telemetry metrics s =
      let updated : TelemetryMetrics N = merge_metrics s.telemetry metrics in
      record s {
        telemetry = updated;
        telemetry_history = slice_last 60 (s.telemetry_history ++ updated ∷ []);
      }

  -- `setConnectionStatus`; `now` is `Date.now()`.
  unfoldable pub set_connection_status : ℕ → Bool → MetricsSlice N → MetricsSlice N
  set_connection_status now status s = record s {
    is_connected = status;
    last_connected_at = if status then some now else s.last_connected_at;
    reconnect_attempts = if status then 0 else s.reconnect_attempts;
  }

  -- `incrementReconnectAttempts` and `resetReconnectAttempts`.
  unfoldable pub increment_reconnect_attempts : MetricsSlice N → MetricsSlice N
  increment_reconnect_attempts s = record s { reconnect_attempts = s.reconnect_attempts + 1 }

  unfoldable pub reset_reconnect_attempts : MetricsSlice N → MetricsSlice N
  reset_reconnect_attempts s = record s { reconnect_attempts = 0 }

  -- The messages of a stream, one after the other.
  unfoldable pub receive : List (PartialMetrics N) → MetricsSlice N → MetricsSlice N
  receive [] s = s
  receive (m ∷ ms) s = receive ms (set_telemetry m s)

  -- All the values that the stream gives the telemetry, with no window on them.
  unfoldable pub readings : List (PartialMetrics N) → TelemetryMetrics N → List (TelemetryMetrics N)
  readings [] t = []
  readings (m ∷ ms) t = merge_metrics t m ∷ readings ms (merge_metrics t m)
