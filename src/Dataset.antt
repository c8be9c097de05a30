-- ===== src/Dataset.antt =====
-- src/locked_dataset.hpp, class `locked_dataset`: a pair of GDAL datasets behind a mutex, with a use
-- count. The queries under the mutex are in `Dataset.Queries` and below it.
pub mod Lifecycle
pub mod Queries
pub mod Deletion
pub mod Moves
pub mod WarpOptions
pub mod OptionsArray
use gdal_warp_bindings.Base.{
  ℕ, ◌+◌, ◌-◌, ◌%◌, ◌^◌, String, List, [], ◌∷◌, ◌++◌, Option, none, some, Bool, true, false, ◌&&◌,
  ◌||◌, not, ◌==◌, if◌then◌else◌,
}
use gdal_warp_bindings.Types.{Options, UriOptions, uri_options_eq, uri_options_hash}
use gdal_warp_bindings.Mutex.{Mutex, initial, trylock, lock, unlock}
use gdal_warp_bindings.Gdal.{Gdal, Handle}
use gdal_warp_bindings.World.{World, M, run, ◌>>=◌, ◌>>◌, pure}
use text.Mathlib.Text.{◌==◌ as str_eq}

-- `m_use_count` is an atomic `int`, here by its bit pattern.
pub record LockedDataset : Type 0 where
  pub source : Handle
  pub warped : Handle
  pub uri_options : UriOptions
  pub mutex : Mutex
  pub use_count : ℕ

abbrev pub int_mod : ℕ
int_mod = 2 ^ 32

-- The default constructor.
abbrev pub empty_dataset : LockedDataset
empty_dataset = record {
  source = none;
  warped = none;
  uri_options = ("", []);
  mutex = initial;
  use_count = 0;
}

-- The move constructor, and the object that was moved from.
unfoldable pub move_construct : LockedDataset → LockedDataset × LockedDataset
move_construct rhs = (
  record empty_dataset { source = rhs.source; warped = rhs.warped; uri_options = rhs.uri_options },
  record rhs { source = none; warped = none; uri_options = ("", []) },
)

-- `hash<locked_dataset>`
unfoldable pub locked_dataset_hash : (String → ℕ) → LockedDataset → ℕ
locked_dataset_hash string_hash ds = uri_options_hash string_hash ds.uri_options

unfoldable pub matches : LockedDataset → UriOptions → Bool
matches ds key = uri_options_eq ds.uri_options key

abbrev is_null : Handle → Bool
is_null none = true
is_null (some h) = false

unfoldable pub valid : LockedDataset → Bool
valid ds = not (is_null ds.source) && not (is_null ds.warped)

unfoldable pub inc : LockedDataset → LockedDataset
inc ds = record ds { use_count = (ds.use_count + 1) % int_mod }

unfoldable pub dec : LockedDataset → LockedDataset
dec ds = record ds { use_count = (ds.use_count + int_mod - 1) % int_mod }

-- The first argument is the calling thread.
unfoldable pub lock_for_deletion : ℕ → LockedDataset → Bool × LockedDataset
lock_for_deletion tid ds =
    let locked = trylock tid ds.mutex in
    if locked.0
    then (if ds.use_count == 0
        then (true, record ds { mutex = locked.1 })
        else (false, record ds { mutex = unlock tid locked.1 }))
    else (false, ds)

unfoldable pub unlock_for_nondeletion : ℕ → LockedDataset → LockedDataset
unlock_for_nondeletion tid ds = record ds { mutex = unlock tid ds.mutex }

-- Whether one of the options is "-of".
unfoldable pub output_format_configured : Options → Bool
output_format_configured [] = false
output_format_configured (s ∷ ss) = str_eq s "-of" || output_format_configured ss

-- What `open` writes to `options_array`, up to the null pointer at its end.
unfoldable pub warp_options : Options → Options
unfolding output_format_configured
warp_options ss = if output_format_configured ss then ss else ss ++ ("-of" ∷ "VRT" ∷ [])

module _ (gdal : Gdal) where
  open gdal use {G, warp_app_options_new, warp_app_options_free, open_read_only}

  -- `close`: nothing unless both handles are there.
  unfoldable pub close : LockedDataset → M G LockedDataset
  unfolding valid
  close ds = elim ds.warped [
    | none ↦ pure ds
    | some warped ↦ elim ds.source [
      | none ↦ pure ds
      | some source ↦ do
        run (gdal.close warped)
        run (gdal.close source)
        pure (record ds { source = none; warped = none })
    ]
  ]

  -- The body of `open` with the mutex held and the options at `app_options`. GDALWarp does not write
  -- to the array of its sources, so the test of `m_datasets[SOURCE]` after it never holds.
  unfoldable pub open_with_options : LockedDataset → ℕ → M G LockedDataset
  open_with_options ds app_options w =
      let opened = run (open_read_only ds.uri_options.0) w in
      elim opened.0 [
        | none ↦
            (do
              run (warp_app_options_free app_options)
              pure (record ds { source = none; warped = none }))
              opened.1
        | some source ↦
            (do
              warped ← run (gdal.warp source app_options)
              run (warp_app_options_free app_options)
              pure (record ds {
                source = some source;
                warped = warped;
                mutex = unlock w.tid ds.mutex;
              }))
              opened.1
      ]

  -- The branch of `open` that has to open.
  unfoldable pub open_missing : LockedDataset → M G LockedDataset
  unfolding open_with_options warp_options
  open_missing ds w =
      let made = run (warp_app_options_new (warp_options ds.uri_options.1)) w in
      elim made.0 [
        | none ↦ (record ds { source = none; warped = none }, made.1)
        | some app_options ↦ open_with_options ds app_options made.1
      ]

  unfoldable pub open_dataset : LockedDataset → M G LockedDataset
  unfolding open_missing
  open_dataset ds w =
      let locked = lock w.tid ds.mutex in
      let held = record ds { mutex = locked.1 } in
      if locked.0
      then (if is_null ds.source || is_null ds.warped
          then open_missing held w
          else (record ds { mutex = unlock w.tid locked.1 }, w))
      else (record ds { source = none; warped = none }, w)

  -- The constructor from a URI and options.
  unfoldable pub construct : UriOptions → M G LockedDataset
  unfolding open_dataset
  construct key = open_dataset (record empty_dataset { uri_options = key })

  -- The destructor: the object is gone after it.
  unfoldable pub destroy : LockedDataset → M G (Unit {0})
  unfolding close
  destroy ds = do close ds; pure tt

  -- The move assignment, and the object that was moved from.
  unfoldable pub move_assign : LockedDataset → LockedDataset → M G (LockedDataset × LockedDataset)
  unfolding close
  move_assign lhs rhs w =
      (do
        closed ← close lhs
        pure (
          record closed {
            source = rhs.source;
            warped = rhs.warped;
            uri_options = rhs.uri_options;
            mutex = unlock w.tid closed.mutex;
          },
          record rhs { source = none; warped = none; uri_options = ("", []) },
        ))
        w

  -- The assertions at the head of the move assignment.
  unfoldable pub move_assign_asserts : LockedDataset → LockedDataset → Bool
  move_assign_asserts lhs rhs = lhs.use_count == 0 && rhs.use_count == 0
