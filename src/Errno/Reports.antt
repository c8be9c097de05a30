-- ===== src/Errno/Reports.antt =====
-- How many reports errorcodes.cpp prints.
use gdal_warp_bindings.Base.{
  ℕ, ◌+◌, ◌≤◌, ◌≡◌, refl, ◌≢◌, List, [], ◌∷◌, some, pos, length, arith, min,
}
use gdal_warp_bindings.Errno.Strings.{ce_fatal}
use gdal_warp_bindings.Errno.Map.{ErrnoMap, put}
use gdal_warp_bindings.Errno.{
  Errno, Environment, Report, Outcome, returns, ◌>>=◌, print_report, put_last_errno,
  max_reported_errors,
}
use gdal_warp_bindings.Errno.LastError.{put_last_errno_stores}

-- A history of reports, each with its thread.
pub put_all : Environment → List (ℕ × Report) → Errno → Outcome Errno
put_all env [] e = returns e
put_all env ((tid, r) ∷ rs) e = put_last_errno env tid r e >>= put_all env rs

abbrev pub AllSoft : List (ℕ × Report) → Type 0
AllSoft [] = Unit {0}
AllSoft ((tid, r) ∷ rs) = (r.err_class ≢ ce_fatal) × AllSoft rs

print_report_count :
    (env : Environment) (r : Report) (e : Errno) (limit : ℕ)
    → max_reported_errors env ≡ pos limit
    → e.reported ≤ limit
    → ((print_report env r e).reported ≡ min limit (e.reported + 1))
      × (length (print_report env r e).lines + e.reported
          ≡ length e.lines + (print_report env r e).reported)
unfolding print_report
print_report_count env r e limit h small = ground arith

-- With a live map, and a limit that is not negative and was not passed, a history with no CE_Fatal
-- runs to its end. It prints a line for each report until the limit is reached, and nothing after
-- that.
pub put_all_lines :
    (env : Environment) (rs : List (ℕ × Report)) (e : Errno) (m : ErrnoMap) (limit : ℕ)
    → e.cache ≡ some m
    → AllSoft rs
    → max_reported_errors env ≡ pos limit
    → e.reported ≤ limit
    → (e' : Errno) × (put_all env rs e ≡ returns e')
      × (e'.reported ≡ min limit (e.reported + length rs))
      × (length e'.lines + e.reported ≡ length e.lines + e'.reported)
unfolding put_all
put_all_lines env [] e m limit live soft h small = (e, refl, omega arith, refl)
put_all_lines env ((tid, r) ∷ rs) e m limit live soft h small =
    let m1 = put tid (r.err_no, r.now) m in
    let e1 = record (print_report env r e) { cache = some m1 } in
    let (count, printed) = print_report_count env r e limit h small in
    let (e2, ran, total, lines) =
      put_all_lines env rs e1 m1 limit refl soft.1 h (omega (arith, count)) in
    (
      e2,
      rw (put_last_errno_stores env tid r e live soft.0) ran,
      omega (arith, count, total),
      omega (arith, printed, lines),
    )
