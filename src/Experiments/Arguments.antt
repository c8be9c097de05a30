-- ===== src/Experiments/Arguments.antt =====
-- The arguments of the programs in src/experiments/thread/, as `sscanf` reads them: `none` where one
-- is not there or is not a number, which leaves the variable as it was.
use gdal_warp_bindings.Base.{
  ℕ, zero, suc, ◌^◌, ◌≤◌, ◌≡◌, Option, none, some, ℤ, pos, negsuc, neg, ltb, ltb_ℤ, ◌||◌,
  Bool-cases, inl, inr, if◌then◌else◌, arith,
}
use gdal_warp_bindings.Errno.{Outcome, returns, faults}

abbrev pub int_or : ℤ → Option ℤ → ℤ
int_or d none = d
int_or d (some n) = n

abbrev nat_or : ℕ → Option ℕ → ℕ
nat_or d none = d
nat_or d (some n) = n

-- `1 << lg_steps`, in an `int` of 32 bits.
unfoldable pub steps : ℤ → Outcome ℕ
steps (pos n) = if ltb n 31 then returns (2 ^ n) else faults
steps (negsuc n) = faults

-- `n` of pattern.cpp and oversubscribe.cpp, where `limit` is N.
unfoldable pub thread_count : ℕ → Option ℤ → ℤ
thread_count limit argument =
    let n = int_or (pos limit) argument in
    if ltb_ℤ (pos limit) n || ltb_ℤ n (pos 0) then pos limit else n

-- `n` of wrapthread.cpp. A negative number asks for that many threads that leak a dataset.
unfoldable pub reader_count : ℕ → Option ℤ → ℤ
reader_count limit argument =
    let n = int_or (pos limit) argument in
    if ltb_ℤ (pos limit) n then pos limit else (if ltb_ℤ n (neg limit) then neg limit else n)

-- `cache_size` of pattern.cpp: `1 << 8` for a negative number.
unfoldable pub pattern_cache_size : Option ℤ → ℤ
pattern_cache_size argument =
    let n = int_or (pos 256) argument in if ltb_ℤ n (pos 0) then pos 256 else n

-- `datasets` of oversubscribe.cpp, a `size_t`: the test for a negative one is never true.
unfoldable pub datasets : Option ℕ → ℕ
datasets argument = let n = nat_or 4 argument in if ltb n 0 then 4 else n

-- The length of `threads` covers the loops that start and join that many threads.
pub thread_count_bound :
    (limit : ℕ) (argument : Option ℤ)
    → (n : ℕ) × (thread_count limit argument ≡ pos n) × (n ≤ limit)
unfolding thread_count
thread_count_bound limit none = (limit, ground arith, omega arith)
thread_count_bound limit (some (pos n)) = elim (Bool-cases (ltb limit n)) [
  | inl over ↦ (limit, ground arith, omega arith)
  | inr fits ↦ (n, ground arith, ground arith)
]
thread_count_bound limit (some (negsuc n)) = (limit, ground arith, omega arith)

abbrev pub magnitude : ℤ → ℕ
magnitude (pos n) = n
magnitude (negsuc n) = suc n

pub reader_count_bound :
    (limit : ℕ) (argument : Option ℤ) → magnitude (reader_count limit argument) ≤ limit
unfolding reader_count
reader_count_bound limit none = ground arith
reader_count_bound limit (some (pos n)) = ground arith
reader_count_bound zero (some (negsuc n)) = ground arith
reader_count_bound (suc limit) (some (negsuc n)) = ground arith
