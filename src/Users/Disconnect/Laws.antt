-- ===== src/Users/Disconnect/Laws.antt =====
-- The keys of sessions that are being ended, after any sequence of events.
use openvpn_control_server.Shared.{
  ◌≡◌, refl, ◌↔◌, false, ◌||◌, not, List, [], ◌∷◌, String, ◌==◌, eq_iff, is_empty, filter,
  in-filter_iff, IsDistinct-append, IsDistinct-filter, IsDistinct, ◌∈◌, arith, Bool-cases, inl, inr,
  sym,
}
use openvpn_control_server.Users.Profiles.{has}
use openvpn_control_server.Users.Profiles.Laws.{has_iff}
use openvpn_control_server.Users.Disconnect.{
  Disconnecting, with_key, has_changed, session_key, open_disconnect, begin_disconnect,
  settle_disconnect, keep_active, done, failed, Event, opened, submitted, answered, shown_sessions,
  step, run,
}

-- The storage holds the keys, none of them twice.
pub record IsKept (s : Disconnecting) : Type 0 where
  pub is_stored : s.stored ≡ s.keys
  pub is_distinct : IsDistinct s.keys

with_key-IsDistinct : (k : String) (ks : List String) → IsDistinct ks → IsDistinct (with_key k ks)
with_key-IsDistinct k ks d = elim (Bool-cases (has k ks)) [
  | inl e ↦ rw e d
  | inr e ↦ rw e (IsDistinct-append k ks d (λ h. ground (arith, (has_iff k ks).1 h)))
]

step-IsKept : (e : Event) (s : Disconnecting) → IsKept s → IsKept (step e s)
unfolding step open_disconnect begin_disconnect settle_disconnect keep_active
step-IsKept (opened node node_name session session_number profile) s h = record {
  is_stored = h.is_stored;
  is_distinct = h.is_distinct;
}
step-IsKept (submitted token) s h =
    elim (Bool-cases (is_empty s.target_node || is_empty s.target_session || is_empty token)) [
      | inl e ↦ rw (step, begin_disconnect, e) h
      | inr e ↦
          rw (step, begin_disconnect, e)
            (record {
              is_stored = refl;
              is_distinct =
                  with_key-IsDistinct (session_key s.target_node s.target_session) s.keys
                    h.is_distinct;
            })
    ]
step-IsKept (answered sent done) s h = record {
  is_stored = h.is_stored;
  is_distinct = h.is_distinct;
}
step-IsKept (answered sent (failed message)) s h = record {
  is_stored = refl;
  is_distinct = IsDistinct-filter (λ x. not (x == session_key sent.0 sent.1)) s.keys h.is_distinct;
}
step-IsKept (shown_sessions active) s h =
    elim (Bool-cases (has_changed (filter (λ k. has k active) s.keys) s.keys)) [
      | inl e ↦ rw e (record {
        is_stored = refl;
        is_distinct = IsDistinct-filter (λ k. has k active) s.keys h.is_distinct;
      })
      | inr e ↦ rw e h
    ]

run-IsKept : (es : List Event) (s : Disconnecting) → IsKept s → IsKept (run es s)
unfolding run
run-IsKept [] s h = h
run-IsKept (e ∷ es) s h = run-IsKept es (step e s) (step-IsKept e s h)

has_changed-same : (xs ys : List String) → has_changed xs ys ≡ false → xs ≡ ys
has_changed-same [] [] h = refl
has_changed-same [] (y ∷ ys) h = absurd (ground arith)
has_changed-same (x ∷ xs) [] h = absurd (ground arith)
has_changed-same (x ∷ xs) (y ∷ ys) h = ground (arith, has_changed-same xs ys, eq_iff x y)

-- Once the sessions are shown, the keys are those of sessions that are active and were being ended.
keys-shown :
    (active : List String) (s : Disconnecting)
    → (step (shown_sessions active) s).keys ≡ filter (λ k. has k active) s.keys
unfolding step keep_active
keys-shown active s = elim (Bool-cases (has_changed (filter (λ k. has k active) s.keys) s.keys)) [
  | inl e ↦ rw e refl
  | inr e ↦ rw e (sym (has_changed-same (filter (λ k. has k active) s.keys) s.keys e))
]

-- From a state in which the storage holds the keys of the sessions that are being ended and none
-- of them twice, every sequence of events leads to such a state; and once the active sessions are
-- shown, the keys are those that are left of active sessions, and no other.
pub run-shown :
    (es : List Event) (active : List String) (s : Disconnecting) (k : String)
    → IsKept s
    → IsKept (step (shown_sessions active) (run es s))
      × ((k ∈ (step (shown_sessions active) (run es s)).keys)
          ↔ ((k ∈ (run es s).keys) × (k ∈ active)))
run-shown es active s k h = (
  step-IsKept (shown_sessions active) (run es s) (run-IsKept es s h),
  rw (keys-shown active (run es s))
      (ground (arith, in-filter_iff (λ j. has j active) k (run es s).keys, has_iff k active)),
)
