-- ===== src/Metrics/Live/Laws.antt =====
-- The live sample is the last one.
use openvpn_control_server.Shared.{
  ◌≡◌, refl, ℕ, ◌≤◌, true, false, List, [], ◌∷◌, Option, none, some, sort, IsPreorder, IsBelow,
  IsSorted, sort-IsSorted, in-sort_iff, ◌∈◌, arith, Bool-cases, inl, inr,
}
use openvpn_control_server.Metrics.Live.{
  Metrics, Sample, by_created, is_near, put_live, merge_live_metric_samples,
}

by_created-IsPreorder : IsPreorder by_created
by_created-IsPreorder = record { total = λ a b h. ground arith; trans = λ a b c h k. ground arith }

-- The sample that stands last.
unfoldable pub last : List Sample → Option Sample
last [] = none
last (s ∷ []) = some s
last (s ∷ t ∷ ts) = last (t ∷ ts)

last_cons : (s t : Sample) (xs : List Sample) → last xs ≡ some t → last (s ∷ xs) ≡ some t
unfolding last
last_cons s t [] h = ground arith
last_cons s t (x ∷ xs) h = h

last-put_live : (live : Sample) (xs : List Sample) → last (put_live live xs) ≡ some live
unfolding last put_live
last-put_live live [] = refl
last-put_live live (s ∷ []) = elim (Bool-cases (is_near s.created_at live.created_at)) [
  | inl e ↦ rw e refl
  | inr e ↦ rw e refl
]
last-put_live live (s ∷ t ∷ ts) =
    last_cons s live (put_live live (t ∷ ts)) (last-put_live live (t ∷ ts))

IsBelow-put_live :
    (s live : Sample) (xs : List Sample)
    → by_created s live ≡ true
    → IsBelow by_created s xs
    → IsBelow by_created s (put_live live xs)
unfolding put_live
IsBelow-put_live s live [] h b = (h, tt)
IsBelow-put_live s live (x ∷ []) h b = elim (Bool-cases (is_near x.created_at live.created_at)) [
  | inl e ↦ rw e (h, tt)
  | inr e ↦ rw e (b.0, (h, tt))
]
IsBelow-put_live s live (x ∷ y ∷ ys) h b = (b.0, IsBelow-put_live s live (y ∷ ys) h b.1)

IsSorted-put_live :
    (live : Sample) (xs : List Sample)
    → ((s : Sample) → s ∈ xs → by_created s live ≡ true)
    → IsSorted by_created xs
    → IsSorted by_created (put_live live xs)
unfolding put_live
IsSorted-put_live live [] h s = (tt, tt)
IsSorted-put_live live (x ∷ []) h s = elim (Bool-cases (is_near x.created_at live.created_at)) [
  | inl e ↦ rw e (tt, tt)
  | inr e ↦ rw e ((h x (inl refl), tt), (tt, tt))
]
IsSorted-put_live live (x ∷ y ∷ ys) h s = (
  IsBelow-put_live x live (y ∷ ys) (h x (inl refl)) s.0,
  IsSorted-put_live live (y ∷ ys) (λ t k. h t (inr k)) s.1,
)

-- Where no recent sample is later than the present, the samples that are shown are in the order
-- of time, and the live one, at the present, is the last.
pub merge_live_metric_samples-IsSorted :
    (now : ℕ) (recent_metrics : List Sample) (live : Metrics)
    → ((s : Sample) → s ∈ recent_metrics → s.created_at ≤ now)
    → IsSorted by_created (merge_live_metric_samples now recent_metrics live)
      × (last (merge_live_metric_samples now recent_metrics live)
          ≡ some (record { created_at = now; metrics = live }))
unfolding merge_live_metric_samples
merge_live_metric_samples-IsSorted now recent_metrics live h =
    let newest : Sample = record { created_at = now; metrics = live } in
    let sorted : List Sample = sort by_created recent_metrics in
    (
      IsSorted-put_live newest sorted
          (λ s k. ground (arith, h s ((in-sort_iff by_created s recent_metrics).0 k)))
          (sort-IsSorted by_created by_created-IsPreorder recent_metrics),
      last-put_live newest sorted,
    )

in-put_live :
    (s live : Sample) (xs : List Sample)
    → s ∈ xs
    → is_near s.created_at live.created_at ≡ false
    → s ∈ put_live live xs
unfolding put_live
in-put_live s live [] k n = absurd k
in-put_live s live (x ∷ []) k n = ground arith
in-put_live s live (x ∷ y ∷ ys) (inl k) n = inl k
in-put_live s live (x ∷ y ∷ ys) (inr k) n = inr (in-put_live s live (y ∷ ys) k n)

-- A sample that is not near the live one is shown as well.
pub in-merge_live_metric_samples :
    (now : ℕ) (recent_metrics : List Sample) (live : Metrics) (s : Sample)
    → s ∈ recent_metrics
    → is_near s.created_at now ≡ false
    → s ∈ merge_live_metric_samples now recent_metrics live
unfolding merge_live_metric_samples
in-merge_live_metric_samples now recent_metrics live s k n =
    in-put_live s (record { created_at = now; metrics = live }) (sort by_created recent_metrics)
      ((in-sort_iff by_created s recent_metrics).1 k) n
