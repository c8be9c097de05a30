-- ===== src/Errno/History.antt =====
-- Histories of calls of errorcodes.cpp by several threads, against one variable for each thread.
use gdal_warp_bindings.Base.{
  ℕ, ◌+◌, ◌≤◌, ◌≡◌, ◌≢◌, refl, sym, ap, ◌∙◌, List, [], ◌∷◌, Option, none, some, false, ℤ, ◌==◌, ltb,
  length, arith, if◌then◌else◌, Option-cases, Bool-cases, inl, inr,
}
use gdal_warp_bindings.Errno.Strings.{ce_fatal}
use gdal_warp_bindings.Errno.Map.{
  ErrnoMap, Entry, find, put, erase, Distinct, find-put, find-erase, find-erase_ne, put-Distinct,
  erase-Distinct, length-put-le, length-erase-le,
}
use gdal_warp_bindings.Errno.{
  Errno, Environment, Report, Outcome, returns, ◌>>=◌, cple_none, print_report, put_last_errno,
  clear_if_full, take_errno, get_last_errno, get_last_errno_timestamp, max_errno_entries,
  errno_init,
}
use gdal_warp_bindings.Errno.LastError.{put_last_errno_stores}

-- A call by a thread.
pub data Event : Type 0 where
  reports : ℕ → Report → Event
  reads : ℕ → Event
  asks_time : ℕ → Event

pub data Answer : Type 0 where
  error_number : ℤ → Answer
  time_stamp : ℕ → Answer

-- The calls of the source, one after the other, with what the readers are told.
unfoldable pub run_events : Environment → List Event → Errno → Outcome (List Answer × Errno)
run_events env [] e = returns ([], e)
run_events env (reports tid r ∷ events) e = put_last_errno env tid r e >>= run_events env events
run_events env (reads tid ∷ events) e = get_last_errno tid e >>= λ (n, e1).
    run_events env events e1 >>= λ (answers, e2). returns (error_number n ∷ answers, e2)
run_events env (asks_time tid ∷ events) e = get_last_errno_timestamp tid e >>= λ time.
    run_events env events e >>= λ (answers, e2). returns (time_stamp time ∷ answers, e2)

-- One variable for each thread: the last error that the thread has not read.
abbrev pub Variables : Type 0
Variables = ℕ → Option Entry

abbrev pub assign : Variables → ℕ → Option Entry → Variables
assign w tid x t = if t == tid then x else w t

abbrev pub number_of : Option Entry → ℤ
number_of none = cple_none
number_of (some (n, time)) = n

abbrev pub time_of : Option Entry → ℕ
time_of none = 0
time_of (some (n, time)) = time

-- What the readers should be told.
unfoldable pub expected : List Event → Variables → List Answer
expected [] w = []
expected (reports tid r ∷ events) w = expected events (assign w tid (some (r.err_no, r.now)))
expected (reads tid ∷ events) w =
    error_number (number_of (w tid)) ∷ expected events (assign w tid none)
expected (asks_time tid ∷ events) w = time_stamp (time_of (w tid)) ∷ expected events w

-- No report is of the class CE_Fatal, after which GDAL aborts.
abbrev pub Soft : List Event → Type 0
Soft [] = Unit {0}
Soft (reports tid r ∷ events) = (r.err_class ≢ ce_fatal) × Soft events
Soft (_ ∷ events) = Soft events

-- The map stands for the variables.
record Stands (m : ErrnoMap) (w : Variables) : Type 0 where
  distinct : Distinct m
  agrees : (t : ℕ) → find t m ≡ w t

put-Stands :
    (m : ErrnoMap) (w : Variables) (tid : ℕ) (v : Entry)
    → Stands m w
    → Stands (put tid v m) (assign w tid (some v))
put-Stands m w tid v st = record {
  distinct = put-Distinct tid v m st.distinct;
  agrees = λ t. ground (arith, find-put t tid v m, st.agrees t);
}

assign_same : (w : Variables) (tid t : ℕ) (x : Option Entry) → t ≡ tid → assign w tid x t ≡ x
assign_same w tid t x e = ground arith

assign_ne : (w : Variables) (tid t : ℕ) (x : Option Entry) → t ≢ tid → assign w tid x t ≡ w t
assign_ne w tid t x ne = ground arith

erase-agrees :
    (m : ErrnoMap) (w : Variables) (tid t : ℕ)
    → Stands m w
    → find t (erase tid m) ≡ assign w tid none t
erase-agrees m w tid t st = elim (Bool-cases (t == tid)) [
  | inl z ↦
      let same : t ≡ tid = ground arith in
      ap (λ u. find u (erase tid m)) same
      ∙ find-erase tid m st.distinct
      ∙ sym (assign_same w tid t none same)
  | inr z ↦
      let ne : t ≢ tid = ground arith in
      find-erase_ne t tid m ne ∙ st.agrees t ∙ sym (assign_ne w tid t none ne)
]

-- A thread without an entry.
missing-agrees :
    (m : ErrnoMap) (w : Variables) (tid t : ℕ)
    → Stands m w
    → find tid m ≡ none
    → find t m ≡ assign w tid none t
missing-agrees m w tid t st e = elim (Bool-cases (t == tid)) [
  | inl z ↦
      let same : t ≡ tid = ground arith in
      ap (λ u. find u m) same ∙ e ∙ sym (assign_same w tid t none same)
  | inr z ↦ let ne : t ≢ tid = ground arith in st.agrees t ∙ sym (assign_ne w tid t none ne)
]

take_errno-none :
    (m : ErrnoMap) (tid : ℕ)
    → length m ≤ max_errno_entries
    → find tid m ≡ none
    → take_errno tid m ≡ (cple_none, m)
unfolding take_errno clear_if_full
take_errno-none m tid room e =
    let small : ltb max_errno_entries (length m) ≡ false = ground arith in
    rw (take_errno, e, clear_if_full, small) refl

take_errno-some :
    (m : ErrnoMap) (tid : ℕ) (n : ℤ) (time : ℕ)
    → length m ≤ max_errno_entries
    → find tid m ≡ some (n, time)
    → take_errno tid m ≡ (n, erase tid m)
unfolding take_errno clear_if_full
take_errno-some m tid n time room e =
    let small : ltb max_errno_entries (length (erase tid m)) ≡ false =
      ground (arith, length-erase-le tid m) in
    rw (take_errno, e, clear_if_full, small) refl

-- To read an error from the map is to read the variable and to clear it.
record Taken (m : ErrnoMap) (w : Variables) (tid : ℕ) : Type 0 where
  after : ErrnoMap
  took : take_errno tid m ≡ (number_of (w tid), after)
  stands : Stands after (assign w tid none)
  shorter : length after ≤ length m

take_errno-Taken :
    (m : ErrnoMap) (w : Variables) (tid : ℕ)
    → Stands m w
    → length m ≤ max_errno_entries
    → Taken m w tid
take_errno-Taken m w tid st room = elim (Option-cases (find tid m)) [
  | inl e ↦ record {
    after = m;
    took = take_errno-none m tid room e ∙ ap (λ x. (number_of x, m)) (sym e ∙ st.agrees tid);
    stands = record { distinct = st.distinct; agrees = λ t. missing-agrees m w tid t st e };
    shorter = omega arith;
  }
  | inr ((n, time), e) ↦ record {
    after = erase tid m;
    took =
        take_errno-some m tid n time room e
        ∙ ap (λ x. (number_of x, erase tid m)) (sym e ∙ st.agrees tid);
    stands = record {
      distinct = erase-Distinct tid m st.distinct;
      agrees = λ t. erase-agrees m w tid t st;
    };
    shorter = length-erase-le tid m;
  }
]

get_last_errno_timestamp-Stands :
    (e : Errno) (m : ErrnoMap) (w : Variables) (tid : ℕ)
    → e.cache ≡ some m
    → Stands m w
    → get_last_errno_timestamp tid e ≡ returns (time_of (w tid))
unfolding get_last_errno_timestamp
get_last_errno_timestamp-Stands e m w tid live st = elim (Option-cases (find tid m)) [
  | inl z ↦
      rw (get_last_errno_timestamp, live, z) (ap (λ x. returns (time_of x)) (sym z ∙ st.agrees tid))
  | inr ((n, time), z) ↦
      rw (get_last_errno_timestamp, live, z) (ap (λ x. returns (time_of x)) (sym z ∙ st.agrees tid))
]

-- The calls refine the variables, as long as the map cannot become full.
run_events-Stands :
    (env : Environment) (events : List Event) (e : Errno) (m : ErrnoMap) (w : Variables)
    → e.cache ≡ some m
    → Stands m w
    → Soft events
    → length m + length events ≤ max_errno_entries
    → (e' : Errno) × (run_events env events e ≡ returns (expected events w, e'))
unfolding run_events expected get_last_errno get_last_errno_timestamp
run_events-Stands env [] e m w live st soft room = (e, refl)
run_events-Stands env (reports tid r ∷ events) e m w live st soft room =
    let v : Entry = (r.err_no, r.now) in
    let e1 = record (print_report env r e) { cache = some (put tid v m) } in
    let (e', done) =
      run_events-Stands env events e1 (put tid v m) (assign w tid (some v)) refl
        (put-Stands m w tid v st) soft.1 (omega (arith, length-put-le tid v m)) in
    (e', rw (put_last_errno_stores env tid r e live soft.0) done)
run_events-Stands env (reads tid ∷ events) e m w live st soft room =
    let taken = take_errno-Taken m w tid st (omega arith) in
    let e1 = record e { cache = some taken.after } in
    let (e', done) =
      run_events-Stands env events e1 taken.after (assign w tid none) refl taken.stands soft
        (omega (arith, taken.shorter)) in
    (e', rw (live, taken.took, ◌>>=◌, done) refl)
run_events-Stands env (asks_time tid ∷ events) e m w live st soft room =
    let (e', done) = run_events-Stands env events e m w live st soft (omega arith) in
    (e', rw (run_events, get_last_errno_timestamp-Stands e m w tid live st, ◌>>=◌, done) refl)

-- After `errno_init`, and as long as there are at most 2 ** 20 calls and no report of CE_Fatal, whatever
-- order the threads call in, every call returns, and each thread is told exactly its own last error that it
-- has not read yet and its time stamp.
pub run_events-expected :
    (env : Environment) (events : List Event) (e : Errno)
    → Soft events
    → length events ≤ max_errno_entries
    → (e' : Errno) × (run_events env events (errno_init e)
        ≡ returns (expected events (λ tid. none), e'))
unfolding errno_init find
run_events-expected env events e soft room =
    run_events-Stands env events (errno_init e) [] (λ tid. none) refl
      (record { distinct = tt; agrees = λ t. refl }) soft (omega arith)
