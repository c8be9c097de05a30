-- ===== src/Tests/Histories.antt =====
-- Two threads and their errors.
use gdal_warp_bindings.Base.{◌≡◌, [], ◌∷◌, List, none, pos, arith}
use gdal_warp_bindings.Errno.{Errno, Report, returns, errno_init}
use gdal_warp_bindings.Errno.Strings.{ce_failure}
use gdal_warp_bindings.Errno.History.{
  Event, reports, reads, asks_time, run_events, expected, run_events-expected,
}
use gdal_warp_bindings.Tests.Mock.{failed_to_open}
use gdal_warp_bindings.Tests.Data.{environment}

abbrev late_report : Report
late_report = record { err_class = ce_failure; err_no = pos 1; msg = "late"; now = 20 }

abbrev events : List Event
events =
    reports 1 failed_to_open
    ∷ reports 2 late_report
    ∷ reports 1 late_report
    ∷ asks_time 1
    ∷ reads 1
    ∷ reads 1
    ∷ reads 2
    ∷ []

abbrev before : Errno
before = record { cache = none; reported = 0; lines = [] }

run_events-expected_example :
    (e' : Errno) × (run_events environment events (errno_init before)
      ≡ returns (expected events (λ tid. none), e'))
run_events-expected_example =
    run_events-expected environment events before ((λ z. cc), ((λ z. cc), ((λ z. cc), tt)))
      (omega arith)
