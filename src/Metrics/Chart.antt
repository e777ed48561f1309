-- ===== src/Metrics/Chart.antt =====
-- The series of a chart and its scale, `toChartSeries` and the scales of frontend/src/MonitoringCharts.tsx.
pub mod Laws
use openvpn_control_server.Shared.{
  ℕ, suc, ◌+◌, ◌-◌, ◌*◌, ◌/◌, max, Bool, true, false, List, [], ◌∷◌, ◌++◌, map, Option, none, some,
  String, leb, filter, sort,
}
use openvpn_control_server.Metrics.Time.{parse_utc_ms, monitoring_x_range}

-- The rows of a chart, each with its time; the axis; and a series for each getter.
pub record ChartSeries (A : Type 0) : Type 0 where
  pub rows : List (ℕ × A)
  pub x : List ℕ
  pub ys : List (List ℕ)

-- `a.ts - b.ts <= 0`
abbrev pub by_time : {A : Type 0} → ℕ × A → ℕ × A → Bool
by_time a b = leb a.0 b.0

module _ {A : Type 0} (date_parse : String → Option ℕ) (created_at : A → Option String) where
  abbrev pub with_time : Option ℕ → A → List (ℕ × A) → List (ℕ × A)
  with_time none s rest = rest
  with_time (some ts) s rest = (ts, s) ∷ rest

  -- The samples whose time is finite, with it.
  unfoldable pub timed : List A → List (ℕ × A)
  unfolding parse_utc_ms
  timed [] = []
  timed (s ∷ ss) = with_time (parse_utc_ms date_parse (created_at s)) s (timed ss)

  unfoldable pub to_chart_series : ℕ → List A → List (A → ℕ) → Option ℕ → ChartSeries A
  unfolding timed monitoring_x_range sort
  to_chart_series now samples series_getters history_minutes =
      let x_min = (monitoring_x_range now history_minutes).0 in
      let rows = sort by_time (filter (λ r. leb x_min r.0) (timed samples)) in
      record {
        rows = rows;
        x = map (λ (r : ℕ × A). r.0) rows;
        ys = map (λ (g : A → ℕ). map (λ (r : ℕ × A). g r.1) rows) series_getters;
      }

-- `Math.max(...values, least)`
abbrev pub greatest : ℕ → List ℕ → ℕ
greatest least [] = least
greatest least (v ∷ vs) = max v (greatest least vs)

-- `Math.ceil(n / unit) * unit`, for a unit that is not 0.
abbrev pub round_up : ℕ → ℕ → ℕ
round_up unit n = (n + (unit - 1)) / unit * unit

-- `diskScale` and `bwScale`, of the values of the two series and of the current two.
unfoldable pub disk_scale : List ℕ → List ℕ → ℕ → ℕ → ℕ
disk_scale read_vals write_vals read write =
    max (400 * 1000 * 1000)
      (round_up (100 * 1000 * 1000) (greatest 1 (read_vals ++ write_vals ++ read ∷ write ∷ [])))

unfoldable pub bw_scale : List ℕ → List ℕ → ℕ → ℕ → ℕ
bw_scale in_vals out_vals in' out' =
    max (40 * 1000 * 1000)
      (round_up (10 * 1000 * 1000) (greatest 1 (in_vals ++ out_vals ++ in' ∷ out' ∷ [])))
