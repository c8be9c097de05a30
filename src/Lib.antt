-- ===== src/Lib.antt =====
-- The library under src/ of the GDAL warp bindings: a C interface that gives out tokens for pairs of
-- a URI and options of GDALWarp, and answers queries on the source or the warped dataset of a token
-- from a cache of open datasets.
--
-- The parts, and how they interact:
--   * Types models src/types.hpp: the pairs, their equality, and their hash with the wrap-around of
--     `size_t`. Types.Hash has the proofs.
--   * Mutex is the part of POSIX mutexes that the sources rely on, of the error-checking type.
--   * Errno models src/errorcodes.cpp: the map from threads to their last error (Errno.Map), the
--     texts (Errno.Strings), and the handler `put_last_errno`, which GDAL calls. The proofs are in
--     Errno.LastError, Errno.Reports and Errno.History.
--   * Gdal names the functions of GDAL that are called, as parameters. A call takes GDAL's state to a
--     result, the errors that it reports, and a new state. World runs such calls: it hands the errors
--     to the handler, in order.
--   * Dataset models src/locked_dataset.hpp: two GDAL handles, a mutex and a use count. Its functions
--     are `open` (open_dataset, in the steps open_missing and open_with_options), `close`, the
--     constructors (construct, empty_dataset), the destructor (destroy), the move assignment
--     (move_assign), `lock_for_deletion` and the rest. Dataset.Queries has the macros TRYLOCK, UNLOCK,
--     SUCCESS and FAILURE as `with_lock`, and its children Band, Whole and Metadata the queries under
--     the names of the source; Protocol, Codes, Lifecycle, Deletion, Moves and WarpOptions
--     have proofs.
--   * Cache models src/flat_lru_cache.hpp: slots of a tag, a time stamp and a dataset. `insert` is the
--     loop `scan`, which picks the slot to evict, and `replace`. Its children have the proofs: Oldest
--     and Insert on eviction, Uses and Pins on the use counts, Eviction on slots that stay, Lookup on
--     what is found, Found on whose datasets `get` returns, Origins on where
--     their handles come from, Empty on new caches and copies.
--   * Tokens models src/tokens.cpp. The cache of Boost is the interface LruCache, and LruLaws is its
--     documented behaviour. Tokens.Fresh and Tokens.Retention have the proofs.
--   * Bindings models src/bindings.cpp: the macros TRY (try_all) and DOIT (doit); Bindings.Entries the
--     entry points, which ask Tokens for the pair, fetch datasets from Cache, and run one query of
--     Dataset on each; Bindings.Process `init` and `deinit`. Bindings.Threads lets
--     the calls of several threads interleave on one cache. Loop, Attempts, Balance, Result, Unlimited,
--     Owned, Answers, AtOnce, Entries.Calls, Entries.Known, Entries.Answers, Process.Ready,
--     Process.Teardown, Session and Threads.Counts have the proofs.
--   * Pointers has the arrays of C strings that end with NULL. Dataset.OptionsArray is the loop of `open`
--     that fills one of 256 pointers, whose result is `warp_options`; Filling has the proofs.
--   * Jni models src/com_azavea_gdal_GDALWarp.c: each native function copies its arguments out
--     of the Java heap (Jvm), calls one entry point of Bindings (or `get_token` of Tokens), and
--     copies the results back. Jni.Scalars has those whose results are numbers, Jni.Texts the
--     queries of metadata, Jni.Pixels `get_data` with its byte order, Jni.Setup the setup and
--     `get_token`. The functions keep the names of the entry points, without the prefix of JNI.
--     Jni.Calls, Returns, Texts.Given, Texts.Lists, Texts.Reading, Texts.Debts, Texts.Items,
--     Pixels.Swap, Pixels.Reads, Setup.ReadBack and Setup.Version have the proofs, Session the
--     sequences of calls, Start the state after `_init`, and Texts.Java the loops of
--     src/main/java/com/azavea/gdal/GDALWarp.java that read the texts.
--   * Experiments models programs under src/experiments/thread/ that call the library, or GDAL itself,
--     from many threads. Experiments.Tiles is rawthread.cpp: a table of the hashes of tiles
--     (expected_results) and the readers that compare tiles with it, thread by thread or in the order
--     of a schedule. Wrapped is the reader of wrapthread.cpp, which reads the tiles through the
--     library; Wrapped.Setup is its `main` up to the threads, and Wrapped.Leakers the threads that
--     leak datasets. Patterns is the reader of pattern.cpp, Oversubscribe that of oversubscribe.cpp with
--     its macro NOTE, StringLists is CSLDestroy of metadata.cpp on a heap of blocks, Arguments are
--     the arguments of the programs, and Random is the interface of the random numbers. Tiles.Turns,
--     Tiles.Table, Tiles.Readers, Wrapped.Agrees, Wrapped.Main, Wrapped.Setup.Prepared,
--     Wrapped.Leakers.Ended, Patterns.Returns, Oversubscribe.Notes and
--     StringLists.Destroyed have proofs.
--   * Tests applies the theorems to a small GDAL and a small token cache.
--
-- Bounds and fuel: the loop of `get_token` has fuel, and a free draw within the fuel ends it.
-- The loop of DOIT has fuel; `attempts + 2` is enough for a positive number of attempts, and
-- with `attempts = 0` one more than the first attempt that succeeds. The byte swapping loop
-- takes one turn for each whole number, and one more. The source repeats a query that keeps
-- failing for ever, if nothing limits it. `uint64_t` wraps around at 2 ** 64, and the use count,
-- an `int` that is added to atomically, at 2 ** 32.
--
-- Of the experiments, the threads of pattern.cpp and oversubscribe.cpp are modelled one at a time, and
-- assertions are taken to be on. DOIT has fuel for ATTEMPTS of pattern.cpp, and `get_token` has fuel
-- by the state of the tokens there; CSLDestroy takes one round for each string, and one more.
--
-- Not modelled: threads inside a section that a lock protects, since that is one step, but for
-- the readers in the first part of `get`, of which each hit is a step (finds_one); the type
-- `Double`, which is opaque; how long the texts live that GDALGetMetadata and
-- GDALGetMetadataItem own, since the queries hand out copies here; the Java classes, but for the
-- loops named above; of the experiments the loops that only measure time, how the readers of
-- wrapthread.cpp interleave in the library, and what is printed; the unit tests and the builds.
mod Base
pub mod Types
pub mod Mutex
pub mod Errno
pub mod Gdal
pub mod World
pub mod Dataset
pub mod Tokens
pub mod Cache
pub mod Bindings
pub mod Jni
pub mod Pointers
pub mod Experiments
mod Tests
