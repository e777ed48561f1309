-- ===== src/Metrics/Chart/Laws.antt =====
-- A chart shows the samples of its window in their order, and no value lies above its scale.
use openvpn_control_server.Shared.{
  ◌≡◌, ap, sym, ◌↔◌, ℕ, ◌*◌, ◌%◌, ◌≤◌, List, [], ◌∷◌, ◌++◌, map, Option, none, some, String, leb,
  filter, sort, IsPreorder, IsBelow, IsSorted, sort-IsSorted, in-sort_iff, in-filter_iff, ◌∈◌,
  arith, ◌⊎◌, inl, inr,
}
use openvpn_control_server.Metrics.Time.{parse_utc_ms, monitoring_x_range}
use openvpn_control_server.Metrics.Chart.{
  by_time, with_time, timed, to_chart_series, greatest, round_up, disk_scale,
}

module _ {A : Type 0} where
  by_time-IsPreorder : IsPreorder (by_time {A = A})
  by_time-IsPreorder = record { total = λ a b h. ground arith; trans = λ a b c h k. ground arith }

  IsBelow-times :
      (r : ℕ × A) (rs : List (ℕ × A))
      → IsBelow by_time r rs
      → IsBelow leb r.0 (map (λ (s : ℕ × A). s.0) rs)
  IsBelow-times r [] h = tt
  IsBelow-times r (s ∷ rs) h = (h.0, IsBelow-times r rs h.1)

  IsSorted-times :
      (rs : List (ℕ × A)) → IsSorted by_time rs → IsSorted leb (map (λ (s : ℕ × A). s.0) rs)
  IsSorted-times [] s = tt
  IsSorted-times (r ∷ rs) s = (IsBelow-times r rs s.0, IsSorted-times rs s.1)

  module _ (date_parse : String → Option ℕ) (created_at : A → Option String) where
    in-with_time_iff :
        (o : Option ℕ) (ts : ℕ) (s x : A) (rest : List (ℕ × A))
        → ((ts, s) ∈ with_time date_parse created_at o x rest)
          ↔ (((s ≡ x) × (o ≡ some ts)) ⊎ ((ts, s) ∈ rest))
    in-with_time_iff none ts s x rest = ground arith
    in-with_time_iff (some t) ts s x rest = (
      elim [
        | inl k ↦ inl (ap (λ (r : ℕ × A). r.1) k, ap (λ (r : ℕ × A). some r.0) (sym k))
        | inr k ↦ inr k
      ],
      elim [ inl k ↦ inl (rw k.0 (ap (λ n. (n, x)) (ground (arith, k.1)))) | inr k ↦ inr k ],
    )

    in-timed_iff :
        (ts : ℕ) (s : A) (samples : List A)
        → ((ts, s) ∈ timed date_parse created_at samples)
          ↔ ((s ∈ samples) × (parse_utc_ms date_parse (created_at s) ≡ some ts))
    unfolding timed
    in-timed_iff ts s [] = (λ h. absurd h, λ h. absurd h.0)
    in-timed_iff ts s (x ∷ xs) =
        let here =
          in-with_time_iff (parse_utc_ms date_parse (created_at x)) ts s x
            (timed date_parse created_at xs) in
        let later = in-timed_iff ts s xs in
        (
          λ h. elim (here.0 h) [
            | inl k ↦ (inl k.0, rw k.0 k.1)
            | inr k ↦ (inr (later.0 k).0, (later.0 k).1)
          ],
          λ h. elim h.0 [
            | inl k ↦ here.1 (inl (k, rw (← k) h.1))
            | inr k ↦ here.1 (inr (later.1 (k, h.1)))
          ],
        )

    -- The rows of a chart are the samples whose time can be read and is not before the window,
    -- each with its time, and no other, and the axis is in ascending order.
    pub to_chart_series-rows :
        (now : ℕ) (samples : List A) (series_getters : List (A → ℕ)) (history_minutes : Option ℕ)
        (ts : ℕ) (s : A)
        → (((ts, s)
              ∈ (to_chart_series date_parse created_at now samples series_getters
                  history_minutes).rows)
            ↔ ((s ∈ samples)
                × (parse_utc_ms date_parse (created_at s) ≡ some ts)
                × ((monitoring_x_range now history_minutes).0 ≤ ts)))
          × IsSorted leb
              (to_chart_series date_parse created_at now samples series_getters history_minutes).x
    unfolding to_chart_series
    to_chart_series-rows now samples series_getters history_minutes ts s =
        let x_min : ℕ = (monitoring_x_range now history_minutes).0 in
        let all : List (ℕ × A) = timed date_parse created_at samples in
        let kept : List (ℕ × A) = filter (λ r. leb x_min r.0) all in
        (
          ground (
            arith,
            in-sort_iff by_time (ts, s) kept,
            in-filter_iff (λ (r : ℕ × A). leb x_min r.0) (ts, s) all,
            in-timed_iff ts s samples,
          ),
          IsSorted-times (sort by_time kept) (sort-IsSorted by_time by_time-IsPreorder kept),
        )

greatest-in : (least v : ℕ) (vs : List ℕ) → v ∈ vs → v ≤ greatest least vs
greatest-in least v [] h = absurd h
greatest-in least v (x ∷ xs) h = ground (arith, greatest-in least v xs)

round_up_least : (n : ℕ) → n ≤ round_up (100 * 1000 * 1000) n
round_up_least n = omega arith

round_up_least_bw : (n : ℕ) → n ≤ round_up (10 * 1000 * 1000) n
round_up_least_bw n = omega arith

-- No value lies above the scale of its chart, which is a whole number of hundreds of megabytes.
pub disk_scale_bound :
    (read_vals write_vals : List ℕ) (read write v : ℕ)
    → v ∈ (read_vals ++ write_vals ++ read ∷ write ∷ [])
    → (v ≤ disk_scale read_vals write_vals read write)
      × (disk_scale read_vals write_vals read write % (100 * 1000 * 1000) ≡ 0)
unfolding disk_scale
disk_scale_bound read_vals write_vals read write v h =
    let n : ℕ = greatest 1 (read_vals ++ write_vals ++ read ∷ write ∷ []) in
    (
      omega (
        arith,
        round_up_least n,
        greatest-in 1 v (read_vals ++ write_vals ++ read ∷ write ∷ []) h,
      ),
      omega arith,
    )
