-- ===== src/Tests/Backoff.antt =====
-- The delays from 5 to at most 20, as the test of the program has them.
use jmapsyncd.Base.{◌≤◌, ◌≡◌, refl, max}
use jmapsyncd.Daemon.Backoff.{new, take_delay, after, raw_delay, saturating_mul}
use jmapsyncd.Daemon.Backoff.Laws.{raw_delay-bounds}

third_delay : (take_delay (after 2 (new 5 20))).0 ≡ 20
unfolding take_delay after new saturating_mul
third_delay = refl

raw_delay-bounds_example :
    (1 ≤ raw_delay 3 5 300)
    × (raw_delay 3 5 300 ≤ max 300 1)
    × (raw_delay 3 5 300 ≤ raw_delay 4 5 300)
raw_delay-bounds_example = raw_delay-bounds 3 5 300
