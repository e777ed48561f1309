-- ===== src/Metrics/Live.antt =====
-- `mergeLiveMetricSamples` of frontend/src/App.tsx, for samples whose times can be read.
pub mod Laws
use openvpn_control_server.Shared.{
  ℕ, ◌+◌, Bool, ◌&&◌, List, [], ◌∷◌, ◌++◌, leb, ltb, sort, if◌then◌else◌,
}

pub record Metrics : Type 0 where
  pub cpu_percent : ℕ
  pub memory_percent : ℕ
  pub disk_percent : ℕ
  pub disk_read_bps : ℕ
  pub disk_write_bps : ℕ
  pub network_in_bps : ℕ
  pub network_out_bps : ℕ

-- A sample with the time that `parseUtcMs` gives for its `createdAt`.
pub record Sample : Type 0 where
  pub created_at : ℕ
  pub metrics : Metrics

abbrev pub by_created : Sample → Sample → Bool
by_created a b = leb a.created_at b.created_at

-- `Math.abs(a - b) < 800`
abbrev pub is_near : ℕ → ℕ → Bool
is_near a b = ltb a (b + 800) && ltb b (a + 800)

-- The live sample takes the place of the last one where the two are near, and else follows it.
unfoldable pub put_live : Sample → List Sample → List Sample
put_live live [] = live ∷ []
put_live live (s ∷ []) = if is_near s.created_at live.created_at then live ∷ [] else s ∷ live ∷ []
put_live live (s ∷ t ∷ ts) = s ∷ put_live live (t ∷ ts)

unfoldable pub merge_live_metric_samples : ℕ → List Sample → Metrics → List Sample
unfolding sort put_live
merge_live_metric_samples now recent_metrics live =
    put_live (record { created_at = now; metrics = live }) (sort by_created recent_metrics)
