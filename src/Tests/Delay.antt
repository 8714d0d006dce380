-- ===== src/Tests/Delay.antt =====
-- A delay at concrete times.
use zenoh_perf.Base.{◌-◌, ◌^◌, ◌≡◌, arith, done}
use zenoh_perf.Proto.{list_io}
use zenoh_perf.Latency.Delay.{received, delay_skewed}

delay_skewed_example :
    received list_io 24 7 1500 1000 ≡ done (record { bytes = 24; seq = 7; time = 2 ^ 64 - 500 })
delay_skewed_example =
    delay_skewed list_io 24 7 1500 1000 (omega arith) (omega arith) (omega arith) (omega arith)
      (omega arith) (omega arith)
