-- ===== src/Store/Metrics/Recent.antt =====
-- The history of metricsSlice.ts against the whole stream of readings.
use mathlib.Core.List.{append-nil, append_assoc}
use cont_ained.Base.{
  ℕ, zero, suc, ◌+◌, ◌-◌, ◌≤◌, List, [], ◌∷◌, ◌++◌, ◌≡◌, refl, sym, ◌∙◌, ap, length, drop,
  length-append, length-drop, drop-drop, arith,
}
use cont_ained.Store.Metrics.{
  TelemetryMetrics, PartialMetrics, MetricsSlice, slice_last, merge_metrics, set_telemetry, receive,
  readings,
}

module _ {ℓ} {A : Type ℓ} where
  drop-append : (n : ℕ) (xs ys : List A) → n ≤ length xs → drop n xs ++ ys ≡ drop n (xs ++ ys)
  drop-append zero xs ys h = refl
  drop-append (suc n) [] ys h = absurd (omega (arith, h))
  drop-append (suc n) (x ∷ xs) ys h = drop-append n xs ys (omega (arith, h))

  -- Cutting before more is appended changes nothing of what is cut after.
  slice_last-append :
      (n : ℕ) (xs ys : List A) → slice_last n (slice_last n xs ++ ys) ≡ slice_last n (xs ++ ys)
  unfolding slice_last
  slice_last-append n xs ys =
      rw
        (
          drop-append (length xs - n) xs ys (omega arith),
          length-drop (length xs - n) (xs ++ ys),
          length-append xs ys,
        )
        (drop-drop (length xs + length ys - (length xs - n) - n) (length xs - n)
          (length xs + length ys - n) (xs ++ ys) (omega arith))

  pub length-slice_last-le : (n : ℕ) (xs : List A) → length (slice_last n xs) ≤ n
  unfolding slice_last
  length-slice_last-le n xs = omega (arith, length-drop (length xs - n) xs)

  slice_last-short : (n : ℕ) (xs : List A) → length xs ≤ n → slice_last n xs ≡ xs
  unfolding slice_last
  slice_last-short n xs h =
      let none_cut : length xs - n ≡ 0 = omega (arith, h) in ap (λ i. drop i xs) none_cut

module _ {N : Type 0} where
  -- However many messages arrive, the history is the last sixty of the history before them and all
  -- the readings of the stream, when it held at most sixty before.
  pub receive-telemetry_history :
      (ms : List (PartialMetrics N)) (s : MetricsSlice N)
      → length s.telemetry_history ≤ 60
      → (receive ms s).telemetry_history
        ≡ slice_last 60 (s.telemetry_history ++ readings ms s.telemetry)
  unfolding receive set_telemetry readings
  receive-telemetry_history [] s h = sym (rw append-nil (slice_last-short 60 s.telemetry_history h))
  receive-telemetry_history (m ∷ ms) s h =
      let u : TelemetryMetrics N = merge_metrics s.telemetry m in
      receive-telemetry_history ms (set_telemetry m s)
        (length-slice_last-le 60 (s.telemetry_history ++ u ∷ []))
      ∙ slice_last-append 60 (s.telemetry_history ++ u ∷ []) (readings ms u)
      ∙ ap (slice_last 60) (append_assoc s.telemetry_history (u ∷ []) (readings ms u))
