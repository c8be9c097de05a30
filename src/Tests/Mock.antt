-- ===== src/Tests/Mock.antt =====
-- A small GDAL, and a cache of tokens with the behaviour of Boost's.
use text.Mathlib.Text.{◌==◌ as str_eq}
use gdal_warp_bindings.Base.{
  ℕ, ◌+◌, ◌-◌, ◌≡◌, refl, String, ◌==◌, List, [], ◌∷◌, none, some, Bool, true, false, Bool-cases,
  inl, inr, ◌||◌, pos, take, if◌then◌else◌, arith,
}
use gdal_warp_bindings.Types.{Options}
use gdal_warp_bindings.Errno.{Report}
use gdal_warp_bindings.Errno.Strings.{ce_failure, ce_none}
use gdal_warp_bindings.Gdal.{Gdal}
use gdal_warp_bindings.Dataset.Lifecycle.{HandleLaws, count_handle}
use gdal_warp_bindings.Tokens.{LruCache, LruLaws, Entries, lookup, touch, is_some}

-- CPLE_OpenFailed
abbrev pub failed_to_open : Report
failed_to_open = record { err_class = ce_failure; err_no = pos 4; msg = "cannot open"; now = 10 }

abbrev has_bad : Options → Bool
has_bad [] = false
has_bad (s ∷ ss) = str_eq s "-bad" || has_bad ss

abbrev quiet {ℓ} : {A : Type ℓ} → A → ℕ → A × List Report × ℕ
quiet a g = (a, [], g)

-- Its state is the number of open datasets. It cannot open "missing.tif", and it cannot warp with the
-- option "-bad".
abbrev pub mock : Gdal
mock = record {
  G = ℕ;
  Double = ℕ;
  warp_app_options_new = λ os. quiet (some (if has_bad os then 1 else 2));
  warp_app_options_free = λ o. quiet tt;
  open_read_only = λ uri g.
      if str_eq uri "missing.tif" then (none, failed_to_open ∷ [], g) else (some g, [], g + 1);
  warp = λ s o g. if o == 1 then (none, failed_to_open ∷ [], g) else (some g, [], g + 1);
  close = λ h g. (tt, [], g - 1);
  get_raster_band = λ h n. quiet h;
  get_raster_count = λ h. quiet (pos 3);
  get_geo_transform = λ h. quiet (1 ∷ 2 ∷ []);
  get_raster_x_size = λ h. quiet (pos 512);
  get_raster_y_size = λ h. quiet (pos 800);
  get_projection_ref = λ h. quiet (71 ∷ 69 ∷ []);
  export_to_proj4 = λ wkt. quiet wkt;
  get_block_size = λ h. quiet (pos 64, pos 32);
  get_raster_histogram_ex = λ h lower upper n out approx. quiet (ce_none, 1 ∷ []);
  get_raster_offset = λ h. quiet (0, true);
  get_raster_scale = λ h. quiet (1, true);
  get_raster_color_interpretation = λ h. quiet (pos 1);
  get_overview_count = λ h. quiet 0;
  get_overview = λ h n. quiet h;
  get_raster_band_x_size = λ h. quiet (pos 512);
  get_raster_band_y_size = λ h. quiet (pos 256);
  get_raster_no_data_value = λ h. quiet (0, false);
  get_raster_data_type = λ h. quiet (pos 1);
  compute_raster_min_max = λ h. quiet (0, 9);
  get_raster_minimum = λ h. quiet (0, true);
  get_raster_maximum = λ h. quiet (9, true);
  raster_io = λ h src dst type. quiet (ce_none, 7 ∷ []);
  get_metadata_domain_list = λ h. quiet none;
  get_metadata = λ h domain. quiet none;
  get_metadata_item = λ h key domain. quiet none;
  version_info = λ key. quiet (51 ∷ 46 ∷ 57 ∷ []);
  set_config_option = λ key value. quiet tt;
}

pub opened_mock :
    (u : String) (g : ℕ)
    → (mock.open_read_only u g).2 ≡ g + count_handle (mock.open_read_only u g).0
opened_mock u g = elim (Bool-cases (str_eq u "missing.tif")) [
  | inl missing ↦ rw missing (omega arith)
  | inr there ↦ rw there (omega arith)
]

pub warped_mock : (s o g : ℕ) → (mock.warp s o g).2 ≡ g + count_handle (mock.warp s o g).0
warped_mock s o g = ground arith

abbrev pub mock_laws : HandleLaws mock
mock_laws = record {
  handles = λ g. g;
  options_new = λ os g. refl;
  options_free = λ o g. refl;
  opened = opened_mock;
  warped = λ s o g. warped_mock s o g;
  closed = λ h g. refl;
}

abbrev pub boost : LruCache
boost = record {
  C = ℕ × Entries;
  create = λ n. (n, []);
  contains = λ c k. is_some (lookup k c.1);
  insert = λ c k v. (c.0, take c.0 ((k, v) ∷ c.1));
  get = λ c k. (lookup k c.1, (c.0, touch k c.1));
}

abbrev pub boost_laws : LruLaws boost
boost_laws = record {
  entries = λ c. c.1;
  capacity = λ c. c.0;
  created = λ n. (refl, refl);
  contained = λ c k. refl;
  inserted = λ c k v new. (refl, refl);
  got = λ c k. (refl, refl, refl);
}

-- The random tokens 0, 1, 2, ...
abbrev pub draws : ℕ → ℕ
draws n = n

abbrev pub string_hash : String → ℕ
string_hash s = if str_eq s "-of" then 3 else 7
