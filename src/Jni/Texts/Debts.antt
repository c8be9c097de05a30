-- ===== src/Jni/Texts/Debts.antt =====
-- What the metadata functions of com_azavea_gdal_GDALWarp.c give back to the Java machine.
use gdal_warp_bindings.Base.{
  ℕ, suc, ◌+◌, ◌≡◌, refl, ◌∙◌, String, List, Option, none, some, ℤ, pos, arith,
}
use gdal_warp_bindings.Errno.{returns}
use gdal_warp_bindings.Gdal.{Gdal, Bytes}
use gdal_warp_bindings.Dataset.Queries.Protocol as Protocol
use gdal_warp_bindings.Dataset.Queries.{Which}
use gdal_warp_bindings.Tokens.{LruCache}
use gdal_warp_bindings.Bindings.{Surroundings}
use gdal_warp_bindings.Bindings.Entries.{Left}
use gdal_warp_bindings.Bindings.Entries.Calls.{call_entry}
use gdal_warp_bindings.Bindings.Entries.Known.{Balanced}
use gdal_warp_bindings.Jni.{Native, get_string_chars}
use gdal_warp_bindings.Jni.Calls.{number}
use gdal_warp_bindings.Jni.Returns.{
  IsLive, Settled, Settles, settle, returned, after_which, after_enter,
}
use gdal_warp_bindings.Jni.Texts.{give_texts, get_metadata_domain_list, get_metadata}
use gdal_warp_bindings.Jni.Texts.Given.{Roomy, give_texts_returns}

module _ (gdal : Gdal) (lru : LruCache) (draws : ℕ → ℕ) (string_hash : String → ℕ)
    (utf_chars : String → Bytes) where
  open gdal use {G, Double}
  open lru use {C}

  -- The conversion after a query.
  give_texts-Settles :
      (debt : ℕ) (s s1 : Native G C Double) (left : Left G C (Option (List Bytes))) (_list : ℕ)
      → Balanced gdal lru draws string_hash s.lib left
      → s1.lib ≡ left.2
      → s1.jvm.acquired + s.jvm.released ≡ s.jvm.acquired + s1.jvm.released + debt
      → Roomy s1.jvm.bytes (s1.jvm.objects _list)
      → Settles gdal lru draws string_hash (λ retval. debt) s (give_texts left.0 left.1 _list s1)
  give_texts-Settles debt s s1 left _list b same owed rooms =
      let (code, s2, e, given) = give_texts_returns left.0 left.1 _list s1 rooms in
      rw (e) (
        settle gdal lru draws string_hash debt s s2 left b (given.lib ∙ same)
          (omega (arith, owed, given.given_back)))

  -- Let the token cache be live with its lock free, the dataset cache have as many slots as its
  -- capacity says, the attempts be positive, the dataset number be 0 or 1, and the arrays have two
  -- bytes each. Then `get_metadata_domain_list` returns, on whatever token and answer, and gives back
  -- all the arrays that it obtained.
  pub get_metadata_domain_list_returns :
      (n : ℕ) (env : Surroundings) (token : ℕ) (d : Which) (band : ℤ) (_list : ℕ)
      (s : Native G C Double)
      → IsLive gdal lru draws string_hash s.lib
      → Roomy s.jvm.bytes (s.jvm.objects _list)
      → (retval : ℤ) × (s' : Native G C Double) × (get_metadata_domain_list gdal lru draws
            string_hash utf_chars
            (n + 3)
            env
            token
            (number d)
            (pos (suc n))
            band
            _list
            s
          ≡ some (returns (retval, s')))
        × Settled gdal lru draws string_hash 0 s s'
  unfolding get_metadata_domain_list call_entry
  get_metadata_domain_list_returns n env token d band _list s ok rooms =
      returned gdal lru draws string_hash (λ retval. 0) s _
        (after_which gdal lru draws string_hash (λ retval. 0) n env d _ s _
          (after_enter gdal lru draws string_hash (λ retval. 0) n env
            (Protocol.metadata_domain_list d band) token none _ s _ ok
            (λ left b. give_texts-Settles 0 s _ left _list b refl (omega arith) rooms)))

  -- Let the token cache be live with its lock free, the dataset cache have as many slots as its
  -- capacity says, the attempts be positive, the dataset number be 0 or 1, and the arrays have two
  -- bytes each. Then `get_metadata` returns, on whatever token and answer, and on every path keeps one
  -- thing too many: the characters of the domain.
  pub get_metadata_keeps_chars :
      (n : ℕ) (env : Surroundings) (token : ℕ) (d : Which) (band : ℤ) (_domain _list : ℕ)
      (s : Native G C Double)
      → IsLive gdal lru draws string_hash s.lib
      → Roomy s.jvm.bytes (s.jvm.objects _list)
      → (retval : ℤ) × (s' : Native G C Double) × (get_metadata gdal lru draws string_hash utf_chars
            (n + 3)
            env
            token
            (number d)
            (pos (suc n))
            band
            _domain
            _list
            s
          ≡ some (returns (retval, s')))
        × Settled gdal lru draws string_hash 1 s s'
  unfolding get_metadata call_entry get_string_chars
  get_metadata_keeps_chars n env token d band _domain _list s ok rooms =
      returned gdal lru draws string_hash (λ retval. 1) s _
        (after_which gdal lru draws string_hash (λ retval. 1) n env d _ s _
          (after_enter gdal lru draws string_hash (λ retval. 1) n env
            (Protocol.metadata d band (utf_chars (s.jvm.texts _domain))) token none _ s _ ok
            (λ left b. give_texts-Settles 1 s _ left _list b refl (omega arith) rooms)))
