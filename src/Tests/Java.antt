-- ===== src/Tests/Java.antt =====
-- The theorems on the functions that Java calls, applied.
use gdal_warp_bindings.Base.{
  ℕ, ◌+◌, ◌<◌, ◌≤◌, ◌≡◌, ◌≢◌, ◌⊎◌, inl, refl, String, List, [], ◌∷◌, none, some, true, false, ℤ,
  pos, ◌==◌, if◌then◌else◌, map, arith, length,
}
use gdal_warp_bindings.Errno.{returns, faults}
use gdal_warp_bindings.Gdal.{Bytes}
use gdal_warp_bindings.Dataset.{warp_options}
use gdal_warp_bindings.Dataset.OptionsArray.{array_size, fill_array}
use gdal_warp_bindings.Dataset.OptionsArray.Filling.{fill_array_lem}
use gdal_warp_bindings.Dataset.Queries.{source_index, warped_index}
use gdal_warp_bindings.Pointers.{Pointer, read_options}
use gdal_warp_bindings.Dataset.Queries.Protocol.{metadata_item}
use gdal_warp_bindings.Bindings.{open_failed}
use gdal_warp_bindings.Bindings.Entries.Calls.{call_entry}
use gdal_warp_bindings.Bindings.Entries.Known.{call_entry_unknown}
use gdal_warp_bindings.Tokens
use gdal_warp_bindings.Tokens.{Tokens, Entries, bad_token, query_token}
use gdal_warp_bindings.Tokens.Fresh.{value_of}
use gdal_warp_bindings.Bindings.Entries
use gdal_warp_bindings.Bindings.Entries.{Left}
use gdal_warp_bindings.Jni.{Jvm, Native, copies, overwrite}
use gdal_warp_bindings.Jni.Calls.{java_block_size, java_width_height, call_java}
use gdal_warp_bindings.Jni.Returns.{IsLive, Settled}
use gdal_warp_bindings.Jni.Returns.Queries.{call_java_returns}
use gdal_warp_bindings.Jni.Returns.Queries.{call_java_returns}
use gdal_warp_bindings.Jni.Session.{Reaches, start, java_code, query, Reaches-call_java}
use gdal_warp_bindings.Jni.Texts.{give_texts}
use gdal_warp_bindings.Jni.Texts
use gdal_warp_bindings.Jni.Texts.Java.{read_texts, trim}
use gdal_warp_bindings.Jni.Texts.Reading.{give_texts-read_texts, give_texts_unended}
use gdal_warp_bindings.Jni.Texts.Debts.{get_metadata_keeps_chars}
use gdal_warp_bindings.Jni.Texts.Items.{get_metadata_item_failed}
use gdal_warp_bindings.Jni.Pixels.{swap, swap_size}
use gdal_warp_bindings.Jni.Pixels
use gdal_warp_bindings.Jni.Pixels.Swap.{all_big_endian, swap_lem}
use gdal_warp_bindings.Jni.Pixels.Reads.{get_data_big_endian}
use gdal_warp_bindings.Jni.Setup.{max_options, get_token}
use gdal_warp_bindings.Jni.Setup.ReadBack.{get_token_stands, get_token_arrives}
use gdal_warp_bindings.Tests.Mock.{mock, boost, boost_laws, draws, string_hash}
use gdal_warp_bindings.Tests.Data.{key, library, surroundings}

-- Arrays of five bytes, lists of the arrays 1 to 4, and the text "a.tif" everywhere but at 1.
abbrev pub heap : Jvm ℕ
heap = record {
  ints = λ r. pos 0 ∷ pos 0 ∷ [];
  longs = λ r. 0 ∷ [];
  doubles = λ r. 0 ∷ 0 ∷ [];
  bytes = λ r. 1 ∷ 2 ∷ 3 ∷ 4 ∷ 5 ∷ [];
  objects = λ r. 1 ∷ 2 ∷ 3 ∷ 4 ∷ [];
  texts = λ r. if r == 1 then "-tr" else "a.tif";
  acquired = 0;
  released = 0;
}

abbrev pub java : Native ℕ (ℕ × Entries) ℕ
java = record { gc_lock = false; jvm = heap; lib = library }

java-IsLive : IsLive mock boost draws string_hash library
java-IsLive = record {
  content = (4, (33, key) ∷ []);
  live = refl;
  unlocked = refl;
  bounded = (omega arith, (omega arith, tt));
  sized = refl;
}

-- The characters of every text are "A".
abbrev pub utf_chars : String → Bytes
utf_chars text = 65 ∷ []

int16_size : swap_size (pos 3) ≡ some 2
unfolding swap_size
int16_size = refl

-- The query of an item on the token 0.
asked :
    (tokens : Tokens (ℕ × Entries)) × (call_entry mock boost draws string_hash
        (metadata_item warped_index (pos 1) (65 ∷ []) (65 ∷ []))
        5
        surroundings
        0
        (pos 3)
        copies
        none
        library
      ≡ some (returns (open_failed, none, record library { tokens = tokens })))
asked =
    call_entry_unknown mock boost draws string_hash boost_laws
      (metadata_item warped_index (pos 1) (65 ∷ []) (65 ∷ [])) 5 surroundings 0 (pos 3) copies none
      library (4, (33, key) ∷ []) refl refl (inl refl)

first_query :
    (retval : ℤ) × (s' : Native ℕ (ℕ × Entries) ℕ) × (call_java mock boost draws string_hash 5
        surroundings 33
        (pos 1)
        (pos 3)
        (java_block_size (pos 1) 1 2)
        java
      ≡ some (returns (retval, s')))
    × Settled mock boost draws string_hash 0 java s'
first_query =
    call_java_returns mock boost draws string_hash 2 surroundings 33 warped_index
      (java_block_size (pos 1) 1 2) java java-IsLive (omega arith, omega arith)

-- After that call Java makes new arrays.
abbrev java_later : Native ℕ (ℕ × Entries) ℕ
java_later = record first_query.1 {
  jvm = record heap {
    acquired = first_query.1.jvm.acquired;
    released = first_query.1.jvm.released;
  };
}

later : Reaches true mock boost draws string_hash java java_later
later =
    java_code first_query.1 java_later.jvm
      (query java first_query.1 2 surroundings 33 warped_index (java_block_size (pos 1) 1 2)
        first_query.0 start (omega arith, omega arith) first_query.2)
      refl refl

Reaches-call_java_example :
    (retval : ℤ) × (s2 : Native ℕ (ℕ × Entries) ℕ) × (call_java mock boost draws string_hash 4
        surroundings 7
        (pos 0)
        (pos 2)
        (java_width_height 1)
        java_later
      ≡ some (returns (retval, s2)))
    × Settled mock boost draws string_hash 0 java s2
Reaches-call_java_example =
    Reaches-call_java true mock boost draws string_hash java java_later 1 surroundings 7
      source_index (java_width_height 1) java-IsLive later (omega arith)

-- The texts "AB" and "".
abbrev two_texts : List Bytes
two_texts = (65 ∷ 66 ∷ []) ∷ [] ∷ []

give_texts-read_texts_example :
    (s' : Native ℕ (ℕ × Entries) ℕ) × (give_texts (pos 2) (some two_texts) 9 java
      ≡ some (returns (pos 2, s')))
    × (read_texts s'.jvm.bytes (s'.jvm.objects 9) ≡ some (map trim two_texts))
    × (s'.jvm.acquired + 0 ≡ 0 + s'.jvm.released)
give_texts-read_texts_example =
    give_texts-read_texts 2 two_texts 9 (1 ∷ 2 ∷ []) 3 4 [] java refl ((omega arith, tt), (tt, tt))
      (omega arith, (omega arith, tt))
      ((omega arith, (omega arith, tt)), omega arith, (tt, omega arith, tt)) (omega arith)

abbrev three_texts : List Bytes
three_texts = (65 ∷ []) ∷ (66 ∷ []) ∷ (67 ∷ []) ∷ []

give_texts_unended_example :
    (s' : Native ℕ (ℕ × Entries) ℕ) × (give_texts (pos 2) (some three_texts) 9 java
      ≡ some (returns (pos 2, s')))
    × (read_texts s'.jvm.bytes (s'.jvm.objects 9) ≡ none)
give_texts_unended_example =
    give_texts_unended 2 three_texts 9 (1 ∷ 2 ∷ 3 ∷ []) 4 0 (2 ∷ 3 ∷ 4 ∷ 5 ∷ []) java refl
      ((omega arith, (omega arith, tt)), ((omega arith, tt), (tt, tt)))
      (omega arith, (omega arith, (omega arith, tt)))
      (
        (omega arith, tt),
        omega arith,
        ((omega arith, tt), omega arith, ((omega arith, tt), omega arith, tt)),
      )
      refl

get_data_big_endian_example :
    (left : Left ℕ (ℕ × Entries) Bytes) × (s' : Native ℕ (ℕ × Entries) ℕ) × (Entries.get_data mock
        boost draws string_hash 0 source_index
        (pos 0 ∷ pos 0 ∷ [])
        (pos 0 ∷ pos 0 ∷ [])
        (pos 1)
        (pos 3)
        5
        surroundings
        33
        (pos 3)
        copies
        (1 ∷ 2 ∷ 3 ∷ 4 ∷ 5 ∷ [])
        library
      ≡ some (returns left))
    × (Pixels.get_data true mock boost draws string_hash 5 surroundings 3 33
          (pos 0)
          (pos 3)
          1
          2
          (pos 1)
          (pos 3)
          3
          java
        ≡ some (returns (left.0, s')))
    × (s'.jvm.bytes 3 ≡ all_big_endian true 2 2 (overwrite (1 ∷ 2 ∷ 3 ∷ 4 ∷ 5 ∷ []) left.1))
    × Settled mock boost draws string_hash 0 java s'
get_data_big_endian_example =
    get_data_big_endian true mock boost draws string_hash 2 3 2 2 surroundings 33 source_index 1 2
      (pos 1) (pos 3) 3 java java-IsLive int16_size (omega arith) (omega arith) (omega arith)
      (omega arith) (omega arith)

swap_lem_example :
    ((1 ≤ 2)
      × (swap true 3 (pos 3) (1 ∷ 2 ∷ 3 ∷ 4 ∷ 5 ∷ [])
          ≡ some (returns (all_big_endian true 2 2 (1 ∷ 2 ∷ 3 ∷ 4 ∷ 5 ∷ [])))))
    ⊎ ((◌≡◌ {A = ℕ} 2 0) × (swap true 3 (pos 3) (1 ∷ 2 ∷ 3 ∷ 4 ∷ 5 ∷ []) ≡ some faults))
swap_lem_example =
    swap_lem true 3 2 2 (pos 3) (1 ∷ 2 ∷ 3 ∷ 4 ∷ 5 ∷ []) int16_size (omega arith) (omega arith)
      (omega arith) (omega arith)

get_token_stands_example :
    (token : ℕ) × (s' : Native ℕ (ℕ × Entries) ℕ) × (get_token mock boost draws 4 2 9 java
      ≡ some (returns (token, s')))
    × (token ≢ bad_token)
    × (boost.contains (4, (33, key) ∷ []) token ≡ false)
    × (value_of boost draws (query_token boost draws 1 token s'.lib.tokens)
        ≡ returns (some ("a.tif", "-tr" ∷ "a.tif" ∷ "a.tif" ∷ "a.tif" ∷ [])))
    × (s'.jvm.acquired + 0 ≡ 0 + s'.jvm.released)
get_token_stands_example =
    get_token_stands mock boost draws boost_laws 4 1 2 9 java (4, (33, key) ∷ []) refl refl
      (omega arith) refl (omega arith) (omega arith)

token_found :
    (tokens : Tokens (ℕ × Entries)) × (Tokens.get_token boost draws 4 1
        ("a.tif", "-tr" ∷ "a.tif" ∷ "a.tif" ∷ "a.tif" ∷ [])
        library.tokens
      ≡ some (returns (1, tokens)))
unfolding Tokens.get_token Tokens.issue Tokens.find_token Tokens.generate_token
token_found = (_, refl)

get_token_arrives_example :
    ((4 < max_options)
      × (s' : Native ℕ (ℕ × Entries) ℕ) × (get_token mock boost draws 4 2 9 java
          ≡ some (returns (1, s')))
      × (s'.lib ≡ record library { tokens = token_found.0 })
      × (s'.jvm.acquired + 0 ≡ 0 + s'.jvm.released))
    ⊎ ((max_options ≤ 4) × (get_token mock boost draws 4 2 9 java ≡ some faults))
get_token_arrives_example =
    get_token_arrives mock boost draws 4 2 9 1 java token_found.0 token_found.1

fill_array_lem_example :
    ((length (warp_options ("-tr" ∷ "30" ∷ [])) < array_size)
      × (array : List Pointer) × (fill_array ("-tr" ∷ "30" ∷ []) ≡ some array)
      × (read_options array ≡ some (warp_options ("-tr" ∷ "30" ∷ []))))
    ⊎ ((array_size ≤ length (warp_options ("-tr" ∷ "30" ∷ [])))
        × (fill_array ("-tr" ∷ "30" ∷ []) ≡ none))
fill_array_lem_example = fill_array_lem ("-tr" ∷ "30" ∷ [])

get_metadata_keeps_chars_example :
    (retval : ℤ) × (s' : Native ℕ (ℕ × Entries) ℕ) × (Texts.get_metadata mock boost draws
        string_hash utf_chars 5 surroundings 33
        (pos 1)
        (pos 3)
        (pos 1)
        2
        9
        java
      ≡ some (returns (retval, s')))
    × Settled mock boost draws string_hash 1 java s'
get_metadata_keeps_chars_example =
    get_metadata_keeps_chars mock boost draws string_hash utf_chars 2 surroundings 33 warped_index
      (pos 1) 2 9 java java-IsLive (omega arith, (omega arith, (omega arith, (omega arith, tt))))

get_metadata_item_failed_example :
    (s' : Native ℕ (ℕ × Entries) ℕ) × (Texts.get_metadata_item mock boost draws string_hash
        utf_chars 5 surroundings 0
        (pos 1)
        (pos 3)
        (pos 1)
        1
        2
        3
        java
      ≡ some (returns (open_failed, s')))
    × (s'.jvm.acquired ≡ 3)
    × (s'.jvm.released ≡ 0)
get_metadata_item_failed_example =
    get_metadata_item_failed mock boost draws string_hash utf_chars 5 surroundings 0 warped_index
      (pos 3) (pos 1) 1 2 3 java (open_failed, none, record library { tokens = asked.0 }) asked.1
      refl
