-- ===== src/Labels/Duration/Laws.antt =====
-- What the two units of a duration say of its length.
use openvpn_control_server.Shared.{ℕ, ◌+◌, ◌*◌, ◌≤◌, ◌<◌, arith}
use openvpn_control_server.Labels.Duration.{Duration, duration_of, in_seconds}

-- The time that a duration's two numbers stand for.
abbrev pub amount : Duration → ℕ
amount d = d.whole * in_seconds d.unit + d.part * in_seconds d.part_unit

-- The two numbers that the panel shows for a number of seconds are that time rounded down to the
-- smaller unit: they stand for no more than it, and for less than one such unit less.
pub duration_of_bounds :
    (sec : ℕ)
    → (amount (duration_of sec) ≤ sec)
      × (sec < amount (duration_of sec) + in_seconds (duration_of sec).part_unit)
unfolding duration_of
duration_of_bounds sec = ground arith

-- Of a time of at least a second the number of the larger unit is not 0, and what the number of
-- the smaller unit stands for is under one larger unit.
pub duration_of_part :
    (sec : ℕ)
    → 0 < sec
    → (0 < (duration_of sec).whole)
      × ((duration_of sec).part * in_seconds (duration_of sec).part_unit
          < in_seconds (duration_of sec).unit)
unfolding duration_of
duration_of_part sec h = ground arith
