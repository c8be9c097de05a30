-- ===== src/Experiments/StringLists.antt =====
-- src/experiments/thread/metadata.cpp: `CSLDestroy` on a heap of allocated blocks.
pub mod Destroyed
use gdal_warp_bindings.Base.{
  ℕ, zero, suc, ◌+◌, List, Option, none, some, get_elem?, ◌==◌, if◌then◌else◌,
}
use gdal_warp_bindings.Errno.{Outcome, returns, exits, faults, ◌>>=◌}
use gdal_warp_bindings.Gdal.{Handle, Bytes}

-- A block holds characters or an array of pointers. A null pointer is `none`.
pub data Block : Type 0 where
  text : Bytes → Block
  pointers : List Handle → Block

-- What is allocated at an address.
abbrev pub Heap : Type 0
Heap = ℕ → Option Block

abbrev pub release : ℕ → Heap → Heap
release p heap q = if q == p then none else heap q

-- `free`; what was freed, or was never allocated, must not be freed.
unfoldable pub free : Handle → Heap → Outcome Heap
free none heap = returns heap
free (some p) heap = elim (heap p) [ none ↦ faults | some block ↦ returns (release p heap) ]

-- `*papszPtr`, for the element `i` of the array at `p`.
unfoldable pub read_pointer : ℕ → ℕ → Heap → Outcome Handle
read_pointer p i heap = elim (heap p) [
  | none ↦ faults
  | some (text _) ↦ faults
  | some (pointers array) ↦ elim (get_elem? array i) [ none ↦ faults | some q ↦ returns q ]
]

-- The loop from element `i`, on fuel; `none` means that the fuel ran out.
unfoldable pub free_strings : ℕ → ℕ → ℕ → Heap → Option (Outcome Heap)
free_strings zero p i heap = none
free_strings (suc fuel) p i heap = elim (read_pointer p i heap) [
  | exits ↦ some exits
  | faults ↦ some faults
  | returns none ↦ some (returns heap)
  | returns (some q) ↦ elim (free (some q) heap) [
    | exits ↦ some exits
    | faults ↦ some faults
    | returns heap' ↦ free_strings fuel p (i + 1) heap'
  ]
]

unfoldable pub csl_destroy : ℕ → Handle → Heap → Option (Outcome Heap)
csl_destroy fuel none heap = some (returns heap)
csl_destroy fuel (some p) heap = elim (free_strings fuel p 0 heap) [
  | none ↦ none
  | some freed ↦ some (freed >>= free (some p))
]
