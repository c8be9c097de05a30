-- ===== src/Errno.antt =====
-- src/errorcodes.cpp: the last error of each thread, as GDAL's error handler records it.
-- The lock around the map is taken and given back by each function on every path, so a call is one
-- step and the lock is not part of the state.
pub mod Strings
pub mod LastError
pub mod Reports
pub mod History
pub mod Map
use Strings.{CplErr, ce_fatal, severity_string, severity_string_nonansi, error_string}
use Map.{ErrnoMap, find, put, erase}
use gdal_warp_bindings.Base.{
  ℕ, zero, suc, ◌^◌, ◌+◌, String, List, [], ◌∷◌, Option, none, some, Bool, true, false, ℤ, pos,
  negsuc, ltb, ltb_ℤ, length, if◌then◌else◌,
}
pub use Map.{ErrnoMap}

-- How a call ends: it returns, it calls `exit`, or it follows a null pointer.
pub data Outcome {ℓ} (A : Type ℓ) : Type ℓ where
  returns : A → Outcome A
  exits : Outcome A
  faults : Outcome A

infixl 5 ◌>>=◌
abbrev pub ◌>>=◌ {ℓ κ} : {A : Type ℓ} {B : Type κ} → Outcome A → (A → Outcome B) → Outcome B
returns a >>= f = f a
exits >>= f = exits
faults >>= f = faults

-- One line on `stderr`: the two numbers, the severity, the error and the message.
pub record Line : Type 0 where
  pub index : ℕ
  pub max_reported : ℤ
  pub severity : String
  pub error : String
  pub text : String

-- `cache` is the pointer `errno_cache` with the map behind it; `reported` is `reported_errors`;
-- `lines` is what was printed, the newest first.
pub record Errno : Type 0 where
  pub cache : Option ErrnoMap
  pub reported : ℕ
  pub lines : List Line

-- What the handler reads of the environment: the number that `sscanf` takes from
-- CPL_MAX_ERROR_REPORTS, if there is one, and whether GDALWARP_NONANSI_MESSAGES is set.
pub record Environment : Type 0 where
  pub max_error_reports : Option ℤ
  pub nonansi_messages : Bool

-- One call of the handler, with the system clock (in milliseconds) at that time.
pub record Report : Type 0 where
  pub err_class : CplErr
  pub err_no : ℤ
  pub msg : String
  pub now : ℕ

abbrev pub cple_none : ℤ
cple_none = pos 0

unfoldable pub max_reported_errors : Environment → ℤ
max_reported_errors env = elim env.max_error_reports [ none ↦ pos 1000 | some n ↦ n ]

-- The first half of `put_last_errno`.
unfoldable pub print_report : Environment → Report → Errno → Errno
unfolding max_reported_errors
print_report env r e =
    if ltb_ℤ (pos e.reported) (max_reported_errors env)
    then record e { reported = e.reported + 1; lines = line ∷ e.lines }
    else e
  where
    line : Line
    line = record {
      index = e.reported + 1;
      max_reported = max_reported_errors env;
      severity =
          if env.nonansi_messages
          then severity_string_nonansi r.err_class
          else severity_string r.err_class;
      error = error_string r.err_no;
      text = r.msg;
    }

-- The second half, for a class other than CE_Fatal.
unfoldable pub store_errno : ℕ → Report → Errno → Outcome Errno
store_errno tid r e = elim e.cache [
  | none ↦ faults
  | some m ↦ returns (record e { cache = some (put tid (r.err_no, r.now) m) })
]

unfoldable pub put_last_errno : Environment → ℕ → Report → Errno → Outcome Errno
unfolding print_report store_errno
put_last_errno env tid r e = elim r.err_class [
  | ce_fatal ↦ exits
  | _ ↦ store_errno tid r (print_report env r e)
]

-- XXX of the source: errors from 2 ** 20 threads before the map is emptied.
abbrev pub max_errno_entries : ℕ
max_errno_entries = 2 ^ 20

unfoldable pub clear_if_full : ErrnoMap → ErrnoMap
clear_if_full m = if ltb max_errno_entries (length m) then [] else m

unfoldable pub take_errno : ℕ → ErrnoMap → ℤ × ErrnoMap
unfolding clear_if_full
take_errno tid m = elim (find tid m) [
  | none ↦ (cple_none, clear_if_full m)
  | some (retval, _) ↦ (retval, clear_if_full (erase tid m))
]

unfoldable pub get_last_errno : ℕ → Errno → Outcome (ℤ × Errno)
unfolding take_errno
get_last_errno tid e = elim e.cache [
  | none ↦ faults
  | some m ↦ let (retval, m') = take_errno tid m in returns (retval, record e { cache = some m' })
]

unfoldable pub get_last_errno_timestamp : ℕ → Errno → Outcome ℕ
get_last_errno_timestamp tid e = elim e.cache [
  | none ↦ faults
  | some m ↦ elim (find tid m) [ none ↦ returns 0 | some (_, timestamp) ↦ returns timestamp ]
]

-- `new errno_cache_t()`, over whatever the pointer held.
unfoldable pub errno_init : Errno → Errno
errno_init e = record e { cache = some [] }

unfoldable pub errno_deinit : Errno → Errno
errno_deinit e = record e { cache = none }
