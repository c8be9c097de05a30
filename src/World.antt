-- ===== src/World.antt =====
-- What a thread that calls the library works on: GDAL's state and the live error map of
-- src/errorcodes.cpp, between `errno_init` and `errno_deinit`.
use gdal_warp_bindings.Base.{ℕ, ◌≡◌, refl, ◌≢◌, List, [], ◌∷◌, some, ℤ, arith}
use gdal_warp_bindings.Errno.Strings.{ce_fatal}
use gdal_warp_bindings.Errno.Map.{put}
use gdal_warp_bindings.Errno.{
  Errno, ErrnoMap, Environment, Line, Report, returns, print_report, put_last_errno, take_errno,
  get_last_errno,
}
use gdal_warp_bindings.Errno.LastError.{put_last_errno_stores}
use gdal_warp_bindings.Gdal.{Call}

pub record World (G : Type 0) : Type 0 where
  pub tid : ℕ
  pub environment : Environment
  pub gdal : G
  pub errors : ErrnoMap
  pub reported : ℕ
  pub lines : List Line

-- A state monad over the world.
abbrev pub M : Type 0 → Type 0 → Type 0
M G A = World G → A × World G

module _ {G : Type 0} where
  abbrev pub errno_state : World G → Errno
  errno_state w = record { cache = some w.errors; reported = w.reported; lines = w.lines }

  -- The handler `put_last_errno` on the live map.
  unfoldable pub report : Report → World G → World G
  report r w = record w {
    errors = put w.tid (r.err_no, r.now) w.errors;
    reported = (print_report w.environment r (errno_state w)).reported;
    lines = (print_report w.environment r (errno_state w)).lines;
  }

  -- A report of another class than CE_Fatal does to the state of the errors, with its map live, what
  -- `report` does to the world.
  pub put_last_errno-report :
      (r : Report) (w : World G)
      → r.err_class ≢ ce_fatal
      → put_last_errno w.environment w.tid r (errno_state w) ≡ returns (errno_state (report r w))
  unfolding report
  put_last_errno-report r w soft =
      put_last_errno_stores w.environment w.tid r (errno_state w) refl soft

  unfoldable pub report_all : List Report → World G → World G
  unfolding report
  report_all [] w = w
  report_all (r ∷ rs) w = report_all rs (report r w)

  infixl 5 ◌>>=◌ ◌>>◌
  abbrev pub ◌>>=◌ : {A B : Type 0} → M G A → (A → M G B) → M G B
  ◌>>=◌ m f w = let r = m w in f r.0 r.1

  abbrev pub ◌>>◌ : {A B : Type 0} → M G A → M G B → M G B
  ◌>>◌ m k w = k (m w).1

  abbrev pub pure : {A : Type 0} → A → M G A
  pure a w = (a, w)

  unfoldable pub run : {A : Type 0} → Call G A → M G A
  unfolding report_all
  run call w = let r = call w.gdal in (r.0, report_all r.1 (record w { gdal = r.2 }))

  -- `get_last_errno` on the live map.
  unfoldable pub last_errno : M G ℤ
  last_errno w = let taken = take_errno w.tid w.errors in (taken.0, record w { errors = taken.1 })

  pub get_last_errno-last_errno :
      (w : World G)
      → get_last_errno w.tid (errno_state w)
        ≡ returns ((last_errno w).0, errno_state (last_errno w).1)
  unfolding last_errno get_last_errno
  get_last_errno-last_errno w = ground arith

  -- What calls leave alone: the thread and its environment.
  pub report_all-tid : (rs : List Report) (w : World G) → (report_all rs w).tid ≡ w.tid
  unfolding report_all
  report_all-tid [] w = refl
  report_all-tid (r ∷ rs) w = report_all-tid rs (report r w)

  pub report_all-gdal : (rs : List Report) (w : World G) → (report_all rs w).gdal ≡ w.gdal
  unfolding report_all
  report_all-gdal [] w = refl
  report_all-gdal (r ∷ rs) w = report_all-gdal rs (report r w)

  pub run-tid : {A : Type 0} (call : Call G A) (w : World G) → (run call w).1.tid ≡ w.tid
  unfolding run
  run-tid call w = report_all-tid (call w.gdal).1 (record w { gdal = (call w.gdal).2 })

  pub run-gdal :
      {A : Type 0} (call : Call G A) (w : World G) → (run call w).1.gdal ≡ (call w.gdal).2
  unfolding run
  run-gdal call w = report_all-gdal (call w.gdal).1 (record w { gdal = (call w.gdal).2 })

  pub run-result : {A : Type 0} (call : Call G A) (w : World G) → (run call w).0 ≡ (call w.gdal).0
  unfolding run
  run-result call w = refl

  pub last_errno-tid : (w : World G) → (last_errno w).1.tid ≡ w.tid
  unfolding last_errno
  last_errno-tid w = refl
