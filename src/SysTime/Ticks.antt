-- ===== src/SysTime/Ticks.antt =====
-- How the tick counts relate to each other and to the time.
use c_wrapper.Prelude.{◌+◌, ◌-◌, ◌*◌, ◌/◌, ◌^◌, ◌≤◌, ◌<◌, ◌≡◌, arith, mod-eq_of_lt}
use c_wrapper.SysTime.{Timespec, tick_count_ms, tick_count_us}

-- A time that the clock may show, before the count of microseconds overflows.
pub record IsNormal (t : Timespec) : Type 0 where
  pub fraction : t.nsec < 1000000000
  pub early : t.sec * 1000000 + 1000000 ≤ 2 ^ 64

in_ms : (t : Timespec) → IsNormal t → tick_count_ms t ≡ t.sec * 1000 + t.nsec / 1000000
unfolding tick_count_ms
in_ms t n =
    mod-eq_of_lt {n = t.sec * 1000 + t.nsec / 1000000} {m = 2 ^ 64}
      (omega (arith, n.fraction, n.early))

in_us : (t : Timespec) → IsNormal t → tick_count_us t ≡ t.sec * 1000000 + t.nsec / 1000
unfolding tick_count_us
in_us t n =
    mod-eq_of_lt {n = t.sec * 1000000 + t.nsec / 1000} {m = 2 ^ 64}
      (omega (arith, n.fraction, n.early))

-- Of a time before the count of microseconds overflows, the count of milliseconds is that of
-- microseconds in thousands, rounded down.
pub tick_count_us-ms : (t : Timespec) → IsNormal t → tick_count_us t / 1000 ≡ tick_count_ms t
tick_count_us-ms t n = rw (in_us t n, in_ms t n) (omega (arith, n.fraction))

-- Of two times before the count of microseconds overflows, the later one does not have the smaller
-- count of milliseconds, and the counts differ by less than a millisecond from the time between
-- them.
pub tick_count_ms_mono :
    (t u : Timespec)
    → IsNormal t
    → IsNormal u
    → t.sec * 1000000000 + t.nsec ≤ u.sec * 1000000000 + u.nsec
    → (tick_count_ms t ≤ tick_count_ms u)
      × (u.sec * 1000000000 + u.nsec
          < t.sec * 1000000000
            + t.nsec
            + (tick_count_ms u + 1) * 1000000
            - tick_count_ms t * 1000000)
tick_count_ms_mono t u n m h =
    rw (in_ms t n, in_ms u m) (omega (arith, n.fraction), omega (arith, m.fraction))
