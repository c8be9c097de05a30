-- ===== src/Experiments/Wrapped/Leakers/Ended.antt =====
-- The leakers of wrapthread.cpp end once `keep_going` is cleared, and leave their datasets open.
use gdal_warp_bindings.Base.{
  ℕ, zero, suc, ◌+◌, ◌-◌, ◌<◌, ◌≤◌, ◌≡◌, refl, ap, ◌∙◌, String, List, [], ◌∷◌, none, some, Bool,
  true, false, map, update, get_elem?, length, replicate, length-replicate, arith, get_elem?_of_lt,
}
use gdal_warp_bindings.Gdal.{Gdal, Handle, Call}
use gdal_warp_bindings.Dataset.Lifecycle.{HandleLaws, count_handle}
use gdal_warp_bindings.Bindings.Threads.Counts.{occurrences}
use gdal_warp_bindings.Experiments.Tiles.Turns.{minus_one, turn_at, turns_sum}
use gdal_warp_bindings.Experiments.Wrapped.Leakers.{
  Leaker, starting, opened, sleeping, ended, warp_source, leaker_step, leaker_turn, leaker_turns,
  leak,
}

-- How many steps a leaker is from its end.
abbrev pub stage : Leaker → ℕ
stage starting = 3
stage (opened source) = 2
stage (sleeping source dataset) = 1
stage (ended source dataset) = 0

abbrev pub stages : List Leaker → List ℕ
stages ls = map stage ls

-- The handles that a leaker has got.
abbrev pub handles_of : Leaker → ℕ
handles_of starting = 0
handles_of (opened source) = count_handle source
handles_of (sleeping source dataset) = count_handle source + count_handle dataset
handles_of (ended source dataset) = count_handle source + count_handle dataset

abbrev pub handles_held : List Leaker → ℕ
handles_held [] = 0
handles_held (l ∷ ls) = handles_of l + handles_held ls

-- No leaker has ended.
abbrev pub Awake : List Leaker → Type 0
Awake [] = Unit {0}
Awake (l ∷ ls) = (0 < stage l) × Awake ls

starting-Awake : (n : ℕ) → Awake (replicate n starting)
starting-Awake zero = tt
starting-Awake (suc n) = (omega arith, starting-Awake n)

starting_handles : (n : ℕ) → handles_held (replicate n starting) ≡ 0
starting_handles zero = refl
starting_handles (suc n) = omega (arith, starting_handles n)

stage_le : (l : Leaker) → stage l ≤ 3
stage_le starting = omega arith
stage_le (opened source) = omega arith
stage_le (sleeping source dataset) = omega arith
stage_le (ended source dataset) = omega arith

get_elem?-stages :
    (ls : List Leaker) (t : ℕ) (l : Leaker)
    → get_elem? ls t ≡ some l
    → get_elem? (stages ls) t ≡ some (stage l)
get_elem?-stages [] t l there = cc
get_elem?-stages (l' ∷ ls) zero l there = ground arith
get_elem?-stages (l' ∷ ls) (suc t) l there = get_elem?-stages ls t l there

ended-stage :
    (ls : List Leaker) (t : ℕ)
    → get_elem? (stages ls) t ≡ some 0
    → (source dataset : Handle) × (get_elem? ls t ≡ some (ended source dataset))
ended-stage [] t there = absurd (cc)
ended-stage (ended source dataset ∷ ls) zero there = (source, dataset, refl)
ended-stage (starting ∷ ls) zero there = absurd (ground arith)
ended-stage (opened source ∷ ls) zero there = absurd (ground arith)
ended-stage (sleeping source dataset ∷ ls) zero there = absurd (ground arith)
ended-stage (l ∷ ls) (suc t) there = ended-stage ls t there

module _ (gdal : Gdal) (warp_null : ℕ → Call gdal.G Handle) (argv1 : String) (app_options : ℕ) where
  open gdal use {G}

  -- A step with `keep_going` ends no leaker, and one without brings it nearer to its end.
  leaker_step-Awake :
      (l : Leaker) (g : G)
      → 0 < stage l
      → 0 < stage (leaker_step gdal warp_null argv1 app_options true l g).0
  unfolding leaker_step warp_source
  leaker_step-Awake starting g h = omega arith
  leaker_step-Awake (opened none) g h = omega arith
  leaker_step-Awake (opened (some s)) g h = omega arith
  leaker_step-Awake (sleeping source dataset) g h = h
  leaker_step-Awake (ended source dataset) g h = h

  stage-leaker_step :
      (l : Leaker) (g : G)
      → stage (leaker_step gdal warp_null argv1 app_options false l g).0 ≡ minus_one (stage l)
  unfolding leaker_step warp_source
  stage-leaker_step starting g = refl
  stage-leaker_step (opened none) g = refl
  stage-leaker_step (opened (some s)) g = refl
  stage-leaker_step (sleeping source dataset) g = refl
  stage-leaker_step (ended source dataset) g = refl

  leaker_turn-Awake :
      (t : ℕ) (ls : List Leaker) (g : G)
      → Awake ls
      → Awake (leaker_turn gdal warp_null argv1 app_options true t (ls, g)).0
  unfolding leaker_turn
  leaker_turn-Awake t [] g h = tt
  leaker_turn-Awake zero (l ∷ ls) g h = (leaker_step-Awake l g h.0, h.1)
  leaker_turn-Awake (suc t) (l ∷ ls) g h = (h.0, leaker_turn-Awake t ls g h.1)

  stages-leaker_turn :
      (t : ℕ) (ls : List Leaker) (g : G)
      → stages (leaker_turn gdal warp_null argv1 app_options false t (ls, g)).0
        ≡ update minus_one t (stages ls)
  unfolding leaker_turn
  stages-leaker_turn t [] g = refl
  stages-leaker_turn zero (l ∷ ls) g = ap (λ n. n ∷ stages ls) (stage-leaker_step l g)
  stages-leaker_turn (suc t) (l ∷ ls) g = ap (◌∷◌ (stage l)) (stages-leaker_turn t ls g)

  leaker_turns-Awake :
      (schedule : List ℕ) (st : List Leaker × G)
      → Awake st.0
      → Awake (leaker_turns gdal warp_null argv1 app_options true schedule st).0
  unfolding leaker_turns
  leaker_turns-Awake [] st h = h
  leaker_turns-Awake (t ∷ schedule) st h =
      leaker_turns-Awake schedule (leaker_turn gdal warp_null argv1 app_options true t st)
        (leaker_turn-Awake t st.0 st.1 h)

  stages-leaker_turns :
      (schedule : List ℕ) (st : List Leaker × G) (u n : ℕ)
      → get_elem? (stages st.0) u ≡ some n
      → get_elem? (stages (leaker_turns gdal warp_null argv1 app_options false schedule st).0) u
        ≡ some (n - occurrences u schedule)
  unfolding leaker_turns occurrences
  stages-leaker_turns [] st u n there = there ∙ ap some (omega arith)
  stages-leaker_turns (t ∷ schedule) st u n there =
      stages-leaker_turns schedule (leaker_turn gdal warp_null argv1 app_options false t st) u _ (
        ap (λ l. get_elem? l u) (stages-leaker_turn t st.0 st.1)
        ∙ turn_at t u n (stages st.0) there)
      ∙ ap some (turns_sum t u n schedule)

  length-leaker_turn :
      (keep_going : Bool) (t : ℕ) (ls : List Leaker) (g : G)
      → length (leaker_turn gdal warp_null argv1 app_options keep_going t (ls, g)).0 ≡ length ls
  unfolding leaker_turn
  length-leaker_turn keep_going t [] g = refl
  length-leaker_turn keep_going zero (l ∷ ls) g = refl
  length-leaker_turn keep_going (suc t) (l ∷ ls) g = ap suc (length-leaker_turn keep_going t ls g)

  length-leaker_turns :
      (keep_going : Bool) (schedule : List ℕ) (st : List Leaker × G)
      → length (leaker_turns gdal warp_null argv1 app_options keep_going schedule st).0
        ≡ length st.0
  unfolding leaker_turns
  length-leaker_turns keep_going [] st = refl
  length-leaker_turns keep_going (t ∷ schedule) st =
      length-leaker_turns keep_going schedule
        (leaker_turn gdal warp_null argv1 app_options keep_going t st)
      ∙ length-leaker_turn keep_going t st.0 st.1

  module _ (laws : HandleLaws gdal)
      (null_warped : (o : ℕ) (g : G)
        → laws.handles (warp_null o g).2 ≡ laws.handles g + count_handle (warp_null o g).0) where
    open laws use {handles}

    leaker_step_handles :
        (keep_going : Bool) (l : Leaker) (g : G)
        → let r = leaker_step gdal warp_null argv1 app_options keep_going l g in
          handles r.1 + handles_of l ≡ handles g + handles_of r.0
    unfolding leaker_step warp_source
    leaker_step_handles keep_going starting g = omega (arith, laws.opened argv1 g)
    leaker_step_handles keep_going (opened none) g = omega (arith, null_warped app_options g)
    leaker_step_handles keep_going (opened (some s)) g = omega (arith, laws.warped s app_options g)
    leaker_step_handles true (sleeping source dataset) g = refl
    leaker_step_handles false (sleeping source dataset) g = refl
    leaker_step_handles keep_going (ended source dataset) g = refl

    leaker_turn_handles :
        (keep_going : Bool) (t : ℕ) (ls : List Leaker) (g : G)
        → let r = leaker_turn gdal warp_null argv1 app_options keep_going t (ls, g) in
          handles r.1 + handles_held ls ≡ handles g + handles_held r.0
    unfolding leaker_turn
    leaker_turn_handles keep_going t [] g = refl
    leaker_turn_handles keep_going zero (l ∷ ls) g =
        omega (arith, leaker_step_handles keep_going l g)
    leaker_turn_handles keep_going (suc t) (l ∷ ls) g =
        omega (arith, leaker_turn_handles keep_going t ls g)

    leaker_turns_handles :
        (keep_going : Bool) (schedule : List ℕ) (st : List Leaker × G)
        → let r = leaker_turns gdal warp_null argv1 app_options keep_going schedule st in
          handles r.1 + handles_held st.0 ≡ handles st.1 + handles_held r.0
    unfolding leaker_turns
    leaker_turns_handles keep_going [] st = refl
    leaker_turns_handles keep_going (t ∷ schedule) st = omega (
      arith,
      leaker_turn_handles keep_going t st.0 st.1,
      leaker_turns_handles keep_going schedule
          (leaker_turn gdal warp_null argv1 app_options keep_going t st),
    )

    -- For a GDAL that counts its handles, also where the source of GDALWarp is null: as long as
    -- `keep_going` stands no leaker ends, whatever the order of their steps. If each leaker makes
    -- three more steps at least after it is cleared, then all have ended, and the handles of all the
    -- sources and datasets that they got are still open.
    pub leak_ends :
        (during joining : List ℕ) (n : ℕ) (g : G)
        → ((t : ℕ) → t < n → 3 ≤ occurrences t joining)
        → let r = leak gdal warp_null argv1 app_options during joining n g in
          Awake
            (leaker_turns gdal warp_null argv1 app_options true during (replicate n starting, g)).0
          × ((t : ℕ)
              → t < n
              → (source dataset : Handle) × (get_elem? r.0 t ≡ some (ended source dataset)))
          × (handles r.1 ≡ handles g + handles_held r.0)
    unfolding leak
    leak_ends during joining n g enough =
        let st =
          leaker_turns gdal warp_null argv1 app_options true during (replicate n starting, g) in
        (
          leaker_turns-Awake during (replicate n starting, g) (starting-Awake n),
          λ t h.
              let (l, there) = get_elem?_of_lt st.0 t (
                omega (
                  arith,
                  length-leaker_turns true during (replicate n starting, g),
                  length-replicate n starting,
                  h,
                )) in
              ended-stage _ t (
                stages-leaker_turns joining st t (stage l) (get_elem?-stages st.0 t l there)
                ∙ ap some (omega (arith, stage_le l, enough t h))),
          omega (
            arith,
            leaker_turns_handles true during (replicate n starting, g),
            leaker_turns_handles false joining st,
            starting_handles n,
          ),
        )
