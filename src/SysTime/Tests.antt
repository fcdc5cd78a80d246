-- ===== src/SysTime/Tests.antt =====
-- Two times.
use c_wrapper.Prelude.{◌≡◌, ◌+◌, ◌-◌, ◌*◌, ◌/◌, ◌≤◌, ◌<◌, arith}
use c_wrapper.SysTime.{Timespec, tick_count_ms, tick_count_us}
use c_wrapper.SysTime.Ticks.{IsNormal, tick_count_us-ms, tick_count_ms_mono}

abbrev soon : Timespec
soon = record { sec = 5; nsec = 999999999 }

abbrev later : Timespec
later = record { sec = 6; nsec = 1500000 }

soon-IsNormal : IsNormal soon
soon-IsNormal = record { fraction = omega arith; early = omega arith }

later-IsNormal : IsNormal later
later-IsNormal = record { fraction = omega arith; early = omega arith }

tick_count_us-ms_test : tick_count_us soon / 1000 ≡ tick_count_ms soon
tick_count_us-ms_test = tick_count_us-ms soon soon-IsNormal

tick_count_ms_mono_test :
    (tick_count_ms soon ≤ tick_count_ms later)
    × (6 * 1000000000 + 1500000
        < 5 * 1000000000
          + 999999999
          + (tick_count_ms later + 1) * 1000000
          - tick_count_ms soon * 1000000)
tick_count_ms_mono_test = tick_count_ms_mono soon later soon-IsNormal later-IsNormal (omega arith)
