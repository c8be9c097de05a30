-- ===== src/Mutex.antt =====
-- A POSIX mutex of the type PTHREAD_MUTEX_ERRORCHECK, which the library uses on Linux. Threads are
-- numbers, and the state is the thread that holds the mutex.
use gdal_warp_bindings.Base.{ℕ, Bool, true, false, Option, none, some, ◌==◌, if◌then◌else◌}

abbrev pub Mutex : Type 0
Mutex = Option ℕ

-- PTHREAD_ERRORCHECK_MUTEX_INITIALIZER_NP
abbrev pub initial : Mutex
initial = none

-- `pthread_mutex_trylock`: whether it returned 0, and the mutex after it. A held mutex gives EBUSY,
-- also to its holder.
abbrev pub trylock : ℕ → Mutex → Bool × Mutex
trylock tid none = (true, some tid)
trylock tid (some holder) = (false, some holder)

-- `pthread_mutex_lock`: EDEADLK for the holder; for any other thread the state on its return.
abbrev pub lock : ℕ → Mutex → Bool × Mutex
lock tid none = (true, some tid)
lock tid (some holder) = if holder == tid then (false, some holder) else (true, some tid)

-- `pthread_mutex_unlock`: EPERM, and no change, for a thread that does not hold the mutex.
abbrev pub unlock : ℕ → Mutex → Mutex
unlock tid none = none
unlock tid (some holder) = if holder == tid then none else some holder
