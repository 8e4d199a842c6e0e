-- ===== src/Metrics/Laws.antt =====
-- What the mean waiting time of `Statistics` is, and when the cast of its divisor shows.
use compio_pool.Prelude.{ℕ, ◌*◌, ◌≡◌, arith, u32_mod}
use compio_pool.Metrics.{Statistics, average_wait_time}

-- When the number of waits is a multiple of 2^32, the average is reported as zero, whatever the
-- total is.
pub average_wait_time_truncated :
    (s : Statistics) (k : ℕ) → s.get_waited ≡ k * u32_mod → average_wait_time s ≡ 0
unfolding average_wait_time
average_wait_time_truncated s k h = ground arith
