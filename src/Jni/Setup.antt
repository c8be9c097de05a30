-- ===== src/Jni/Setup.antt =====
-- src/com_azavea_gdal_GDALWarp.c: setup, version, configuration and tokens, with the reading of the
-- options in get_token of src/tokens.cpp.
pub mod ReadBack
pub mod Version
use gdal_warp_bindings.Base.{
  ℕ, zero, suc, ◌+◌, String, List, [], ◌∷◌, Option, none, some, Bool, true, false, ℤ, pos, length,
  set, ltb, replicate, if◌then◌else◌,
}
use gdal_warp_bindings.Errno.{Environment, Outcome, returns, exits, faults}
use gdal_warp_bindings.Gdal.{Gdal, Bytes}
use gdal_warp_bindings.World.{World, M, run}
use gdal_warp_bindings.Dataset.Queries.Whole.{strncpy}
use gdal_warp_bindings.Types.{Options}
use gdal_warp_bindings.Tokens.{LruCache, Tokens}
use gdal_warp_bindings.Tokens
use gdal_warp_bindings.Bindings.Entries.{Library}
use gdal_warp_bindings.Bindings.Process.{Process, Drivers, Settings}
use gdal_warp_bindings.Bindings.Process
use gdal_warp_bindings.Pointers.{Pointer, unset, null, chars, read_options, write}
use gdal_warp_bindings.Jni.{
  Native, N, ◌>>=◌, ◌>>◌, pure, fault, get_string_chars, release_string_chars, get_objects,
  get_byte_elements, release_byte_elements,
}

-- const int MAX_OPTIONS = 1 << 10;
abbrev pub max_options : ℕ
max_options = 1024

module _ {G C Double : Type 0} where
  -- A write past the array faults.
  unfoldable pub in_bounds : Option (List Pointer) → N (Native G C Double) (List Pointer)
  in_bounds none = fault
  in_bounds (some array) = pure array

  -- The loop that obtains the characters, from index `i` on.
  unfoldable pub obtain_options : ℕ → List ℕ → List Pointer → N (Native G C Double) (List Pointer)
  obtain_options i [] options = pure options
  obtain_options i (option ∷ refs) options = elim (ltb i max_options) [
    | false ↦ pure options
    | true ↦
        get_string_chars option >>= λ text. obtain_options (i + 1) refs (set options i (chars text))
  ]

  -- The loop that releases them.
  unfoldable pub release_options : ℕ → List ℕ → N (Native G C Double) (Unit {0})
  release_options i [] = pure tt
  release_options i (option ∷ refs) = elim (ltb i max_options) [
    | false ↦ pure tt
    | true ↦ release_string_chars >> release_options (i + 1) refs
  ]

  -- A call that the thread makes of GDAL.
  unfoldable pub in_world : {A : Type 0} → M G A → N (Native G C Double) A
  in_world m s =
      let (a, world) = m s.lib.world in pure a (record s { lib = record s.lib { world = world } })

module _ (gdal : Gdal) (lru : LruCache) (draws : ℕ → ℕ) where
  open gdal use {G, Double}
  open lru use {C}

  -- get_token of tokens.cpp on the array of pointers.
  unfoldable pub ask_token : ℕ → String → List Pointer → N (Native G C Double) ℕ
  ask_token fuel uri options s = elim (read_options options) [
    | none ↦ fault s
    | some texts ↦
        elim (Tokens.get_token lru draws fuel s.lib.world.tid (uri, texts) s.lib.tokens) [
          | none ↦ none
          | some exits ↦ some exits
          | some faults ↦ some faults
          | some (returns (token, tokens)) ↦
              pure token (record s { lib = record s.lib { tokens = tokens } })
        ]
  ]

  -- `fuel` is that of the search for a token. NULL is written behind the options first, untested.
  unfoldable pub get_token : ℕ → ℕ → ℕ → N (Native G C Double) ℕ
  get_token fuel _uri _options = do
    uri ← get_string_chars _uri
    refs ← get_objects _options
    options ← in_bounds (write (replicate max_options unset) (length refs) null)
    options' ← obtain_options 0 refs options
    token ← ask_token fuel uri options'
    release_options 0 refs
    release_string_chars
    pure token

  unfoldable pub get_version_info : ℕ → ℕ → N (Native G C Double) ℤ
  get_version_info _key _value = do
    key ← get_string_chars _key
    value ← get_byte_elements _value
    info ← in_world (run (gdal.version_info key))
    release_string_chars
    release_byte_elements _value (strncpy value info (length value))
    pure (pos (length info))

  unfoldable pub set_config_option : ℕ → ℕ → N (Native G C Double) (Unit {0})
  set_config_option _key _value = do
    key ← get_string_chars _key
    value ← get_string_chars _value
    in_world (run (gdal.set_config_option key value))
    release_string_chars
    release_string_chars

-- The process beside the file's own variable. `gdalwarp_gc_lock` says whether the environment has the
-- variable GDALWARP_GC_LOCK.
module _ (gdal : Gdal) (drivers : Drivers gdal.G) (lru : LruCache) (draws : ℕ → ℕ) where
  open gdal use {G}
  open lru use {C}

  unfoldable pub init :
      Bool → Environment → Settings → ℕ → ℕ → Bool × Process G C → Bool × Outcome (Process G C)
  init gdalwarp_gc_lock environment settings tid size (gc_lock, p) =
      (gdalwarp_gc_lock, Process.init gdal drivers lru draws environment settings tid size p)

  unfoldable pub deinit : Environment → ℕ → Bool × Process G C → Bool × Outcome (Process G C)
  deinit environment tid (gc_lock, p) =
      (gc_lock, Process.deinit gdal drivers lru draws environment tid p)
