-- ===== src/Errno/LastError.antt =====
-- What a thread learns of its errors from errorcodes.cpp.
use gdal_warp_bindings.Base.{◌<◌, ◌⊎◌, ℕ, ◌≤◌, ◌≡◌, ◌≢◌, none, some, ℤ, length, arith}
use gdal_warp_bindings.Errno.Strings.{ce_fatal}
use gdal_warp_bindings.Errno.Map.{
  ErrnoMap, Entry, find, put, erase, Distinct, find-put, find-erase, find-erase_ne, put-Distinct,
  length-erase-le,
}
use gdal_warp_bindings.Errno.{
  Errno, Environment, Report, Outcome, returns, ◌>>=◌, cple_none, print_report, store_errno,
  put_last_errno, clear_if_full, take_errno, get_last_errno, get_last_errno_timestamp,
  max_errno_entries,
}

pub print_report-cache :
    (env : Environment) (r : Report) (e : Errno) → (print_report env r e).cache ≡ e.cache
unfolding print_report
print_report-cache env r e = ground arith

-- A report of another class than CE_Fatal is stored in the map.
pub put_last_errno_stores :
    (env : Environment) (tid : ℕ) (r : Report) (e : Errno) {m : ErrnoMap}
    → e.cache ≡ some m
    → r.err_class ≢ ce_fatal
    → put_last_errno env tid r e
      ≡ returns (record (print_report env r e) { cache = some (put tid (r.err_no, r.now) m) })
unfolding put_last_errno store_errno
put_last_errno_stores env tid r e live soft = ground (arith, print_report-cache env r e)

clear_if_full-find :
    (tid : ℕ) (m : ErrnoMap) → find tid m ≡ none → find tid (clear_if_full m) ≡ none
unfolding clear_if_full find
clear_if_full-find tid m h = ground arith

-- The error is gone from the map after it was taken.
pub find-take_errno : (tid : ℕ) (m : ErrnoMap) → Distinct m → find tid (take_errno tid m).1 ≡ none
unfolding take_errno
find-take_errno tid m d =
    ground
      (arith, clear_if_full-find tid m, clear_if_full-find tid (erase tid m), find-erase tid m d)

pub take_errno-find :
    (tid : ℕ) (m : ErrnoMap) {n : ℤ} {time : ℕ}
    → find tid m ≡ some (n, time)
    → (take_errno tid m).0 ≡ n
unfolding take_errno
take_errno-find tid m h = ground arith

take_errno-missing : (tid : ℕ) (m : ErrnoMap) → find tid m ≡ none → (take_errno tid m).0 ≡ cple_none
unfolding take_errno
take_errno-missing tid m h = ground arith

-- Two calls of `get_last_errno` in a row.
abbrev pub errno_twice : ℕ → Errno → Outcome (ℤ × ℤ)
errno_twice tid e = do
  (n, e2) ← get_last_errno tid e
  (z, e3) ← get_last_errno tid e2
  returns (n, z)

-- With a live map of one entry for each thread, the number of a report that is no CE_Fatal is what
-- `get_last_errno` returns next in the same thread; a second call returns CPLE_None.
pub get_last_errno-put :
    (env : Environment) (tid : ℕ) (r : Report) (e : Errno) (m : ErrnoMap)
    → e.cache ≡ some m
    → Distinct m
    → r.err_class ≢ ce_fatal
    → (put_last_errno env tid r e >>= errno_twice tid) ≡ returns (r.err_no, cple_none)
unfolding get_last_errno
get_last_errno-put env tid r e m live d soft =
    let m1 = put tid (r.err_no, r.now) m in
    rw (put_last_errno_stores env tid r e live soft) (
      ground (
        arith,
        take_errno-find tid m1,
        find-put tid tid (r.err_no, r.now) m,
        take_errno-missing tid (take_errno tid m1).1,
        find-take_errno tid m1 (put-Distinct tid (r.err_no, r.now) m d),
      ))

abbrev pub errno_of : Outcome (ℤ × Errno) → Outcome ℤ
errno_of o = o >>= λ (n, e). returns n

take_errno_same :
    (tid : ℕ) (m n : ErrnoMap)
    → find tid m ≡ find tid n
    → (take_errno tid m).0 ≡ (take_errno tid n).0
unfolding take_errno
take_errno_same tid m n h = ground arith

-- With a live map, a report in one thread that is no CE_Fatal changes neither the error nor the
-- time stamp that another thread reads.
pub put_last_errno_isolated :
    (env : Environment) (tid other : ℕ) (r : Report) (e : Errno) (m : ErrnoMap)
    → e.cache ≡ some m
    → r.err_class ≢ ce_fatal
    → other ≢ tid
    → ((put_last_errno env tid r e >>= λ e1. errno_of (get_last_errno other e1))
        ≡ errno_of (get_last_errno other e))
      × ((put_last_errno env tid r e >>= get_last_errno_timestamp other)
          ≡ get_last_errno_timestamp other e)
unfolding get_last_errno get_last_errno_timestamp
put_last_errno_isolated env tid other r e m live soft ne =
    let v : Entry = (r.err_no, r.now) in
    let same : find other (put tid v m) ≡ find other m = ground (arith, find-put other tid v m) in
    rw (put_last_errno_stores env tid r e live soft)
      (ground (arith, take_errno_same other (put tid v m) m same), ground (arith, same))

-- With a live map `get_last_errno` returns. The map then holds at most 2 ** 20 entries, and another
-- thread has lost its error only if it held more before.
pub get_last_errno_bound :
    (tid other : ℕ) (e : Errno) (m : ErrnoMap)
    → e.cache ≡ some m
    → other ≢ tid
    → (n : ℤ) × (m' : ErrnoMap) × (get_last_errno tid e ≡ returns (n, record e { cache = some m' }))
      × (length m' ≤ max_errno_entries)
      × ((find other m' ≡ find other m) ⊎ (max_errno_entries < length m))
unfolding get_last_errno take_errno clear_if_full
get_last_errno_bound tid other e m live ne = (
  (take_errno tid m).0,
  (take_errno tid m).1,
  ground arith,
  ground (arith, length-erase-le tid m),
  ground (arith, find-erase_ne other tid m ne, length-erase-le tid m),
)
