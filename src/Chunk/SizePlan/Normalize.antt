-- ===== src/Chunk/SizePlan/Normalize.antt =====
-- What the checked, sorted mappings of `NormalizeMappings` satisfy, and looking one up.
use sword_fs.Prelude.{
  ℕ, ◌+◌, ◌≤◌, ◌<◌, ◌≡◌, ◌↔◌, inl, inr, none, some, arith, List, [], ◌∷◌, Elem, IsSortedFrom,
  sort_by, sort_by-IsSortedFrom, Elem-sort_by,
}
use sword_fs.Status.{ok, ok_injective, >>-eq-ok}
use sword_fs.Chunk.{ChunkId, max_supported_file_size}
use sword_fs.Chunk.SizePlan.{
  ChunkMapping, index_of, check_mappings, normalize_mappings, find_chunk_id,
}

-- Distinct rising indexes from a bound on, and valid identities.
abbrev pub IsNormal : ℕ → List ChunkMapping → Type 0
IsNormal n [] = Unit {0}
IsNormal n (m ∷ ms) =
    (n ≤ m.index)
    × (0 < m.chunk_id)
    × (m.chunk_id ≤ max_supported_file_size)
    × IsNormal (m.index + 1) ms

check_mappings-IsNormal :
    (chunk_size : ℕ) (p : ChunkMapping) (ms : List ChunkMapping)
    → check_mappings chunk_size (some p) ms ≡ ok tt
    → IsSortedFrom index_of p.index ms
    → IsNormal (p.index + 1) ms
unfolding check_mappings
check_mappings-IsNormal chunk_size p [] e s = tt
check_mappings-IsNormal chunk_size p (m ∷ ms) e s =
    ground (arith, check_mappings-IsNormal chunk_size m ms)

check_mappings-IsNormal_all :
    (chunk_size : ℕ) (ms : List ChunkMapping)
    → check_mappings chunk_size none ms ≡ ok tt
    → IsSortedFrom index_of 0 ms
    → IsNormal 0 ms
unfolding check_mappings
check_mappings-IsNormal_all chunk_size [] e s = tt
check_mappings-IsNormal_all chunk_size (m ∷ ms) e s =
    ground (arith, check_mappings-IsNormal chunk_size m ms)

-- The mappings that come out are those that went in.
pub normalize_mappings_inv :
    (chunk_size : ℕ) (mappings : List ChunkMapping) {sorted : List ChunkMapping}
    → normalize_mappings chunk_size mappings ≡ ok sorted
    → IsNormal 0 sorted × ((m : ChunkMapping) → Elem m sorted ↔ Elem m mappings)
unfolding normalize_mappings
normalize_mappings_inv chunk_size mappings e =
    let (checked, same) =
      >>-eq-ok (check_mappings chunk_size none (sort_by index_of mappings)) _ e in
    let it = ok_injective same in
    rw (← it) (
      check_mappings-IsNormal_all chunk_size _ checked (sort_by-IsSortedFrom index_of mappings),
      λ m. Elem-sort_by index_of m mappings,
    )

find_above :
    (ms : List ChunkMapping) (n : ℕ) (m : ChunkMapping) → IsNormal n ms → Elem m ms → n ≤ m.index
find_above [] n m h e = absurd e
find_above (x ∷ ms) n m h (inl e) = rw e h.0
find_above (x ∷ ms) n m h (inr e) = omega (arith, find_above ms (x.index + 1) m h.3 e)

-- A lookup in normal mappings finds the mapping of an index.
pub find_chunk_id_iff :
    (ms : List ChunkMapping) (n : ℕ) (index : ℕ) (id : ChunkId)
    → IsNormal n ms
    → (find_chunk_id ms index ≡ some id) ↔ Elem (record { index = index; chunk_id = id }) ms
unfolding find_chunk_id
find_chunk_id_iff [] n index id h = (λ e. cc, λ e. absurd e)
find_chunk_id_iff (x ∷ ms) n index id h = ground (
  arith,
  find_chunk_id_iff ms (x.index + 1) index id h.3,
  find_above ms (x.index + 1) (record { index = index; chunk_id = id }) h.3,
)
