-- ===== src/Jni/Start.antt =====
-- `_init` of com_azavea_gdal_GDALWarp.c leaves a library that the calls from Java can begin with.
use gdal_warp_bindings.Base.{ℕ, ◌≡◌, ap, String, some, Bool, false, ◌&&◌}
use gdal_warp_bindings.Errno.{Environment, returns}
use gdal_warp_bindings.Gdal.{Gdal}
use gdal_warp_bindings.Tokens.{LruCache}
use gdal_warp_bindings.Cache.{Cache, new_cache}
use gdal_warp_bindings.Cache.Empty.{uses-new_cache, new_cache-IsSized}
use gdal_warp_bindings.Bindings.Process.{Process, Drivers, Settings, value_or, max_tokens}
use gdal_warp_bindings.Bindings.Process.Ready.{IsFresh, init_first}
use gdal_warp_bindings.Bindings.Session.{session}
use gdal_warp_bindings.Jni.Returns.{IsLive}
use gdal_warp_bindings.Jni.Setup.{init}

module _ (gdal : Gdal) (drivers : Drivers gdal.G) (lru : LruCache) (draws : ℕ → ℕ)
    (string_hash : String → ℕ) where
  open gdal use {G}
  open lru use {C}

  -- On a process that has not called it yet, `_init` returns, unless it has to install the SIGTERM handler
  -- and `sigaction` fails. It notes whether GDALWARP_GC_LOCK is set, and the library is live.
  pub init-IsLive :
      (gdalwarp_gc_lock gc_lock : Bool) (environment : Environment) (settings : Settings)
      (tid size : ℕ) (p : Process G C)
      → IsFresh gdal drivers lru draws p
      → (settings.sigterm_dump && settings.sigaction_fails) ≡ false
      → (p' : Process G C) × (cache : Cache) × (init gdal drivers lru draws gdalwarp_gc_lock
            environment settings tid size
            (gc_lock, p)
          ≡ (gdalwarp_gc_lock, returns p'))
        × (p'.cache ≡ some cache)
        × IsLive gdal lru draws string_hash (session environment tid cache p'.tokens p')
  unfolding init
  init-IsLive gdalwarp_gc_lock gc_lock environment settings tid size p fresh works =
      let (p', e, ready) =
        init_first gdal drivers lru draws environment settings tid size p fresh works in
      (
        p',
        new_cache (value_or size settings.num_datasets),
        ap (λ o. (gdalwarp_gc_lock, o)) e,
        ready.cached,
        record {
          content = lru.create max_tokens;
          live = ready.tokens;
          unlocked = ready.unlocked;
          bounded = uses-new_cache (value_or size settings.num_datasets);
          sized = new_cache-IsSized (value_or size settings.num_datasets);
        },
      )
