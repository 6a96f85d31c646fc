-- ===== src/Meta/Files.antt =====
-- src/metadata/redis/RedisMetaTxn.cpp: the chunks that a file is mapped to.
use sword_fs.Prelude.{
  ℕ, ◌||◌, not, ◌==◌, if◌then◌else◌, Option, none, some, List, [], ◌∷◌, ◌++◌, max, sort_by,
}
use sword_fs.Prelude.Text.{Text, Dict}
use sword_fs.Status.{Result, ok, err, Code, Status}
use sword_fs.Inode.{InodeId, Inode, mtime_and_ctime, is_regular, touch}
use sword_fs.Inode.Policy.{check_content_metadata_mutation_policy}
use sword_fs.Inode.SetAttr.{on_attr}
use sword_fs.Inode.PosixAcl.{is_some}
use sword_fs.Chunk.{ChunkId, ChunkIndex}
use sword_fs.Chunk.SizePlan.{
  ChunkMapping, ChunkBoundarySnapshot, FileSizePrecondition, same_id, is_duplicate,
  validate_file_chunk_write, validate_file_size_precondition,
}
use sword_fs.Meta.{
  Answer, Host, chunk_refs, hset, Action, lift, require, return, attempt, ◌>>=◌, ◌>>◌, read, hget,
  write,
}
use sword_fs.Meta.Decimal.{to_string, from_chars, parse_attached_chunk_id, index_or_malformed}
use sword_fs.Meta.Inodes.{is_not_found, lookup_inode, set_inode}

pub record FileMappingSnapshot : Type 0 where
  pub inode : Inode
  pub mappings : List ChunkMapping

-- A field that is not there is no error.
abbrev pub attached_id : Result Text → Result (Option ChunkId)
attached_id (err code) = if is_not_found code then ok none else err code
attached_id (ok encoded) = elim (parse_attached_chunk_id encoded) [
  | err code ↦ err code
  | ok chunk_id ↦ ok (some chunk_id)
]

-- The fields of one page of the scan.
unfoldable pub read_mapping : Text → Text → Result ChunkMapping
read_mapping index_field id_value = elim (index_or_malformed (from_chars index_field)) [
  | err code ↦ err code
  | ok index ↦ elim (parse_attached_chunk_id id_value) [
    | err code ↦ err code
    | ok chunk_id ↦ ok (record { index = index; chunk_id = chunk_id })
  ]
]

unfoldable pub read_page : Dict → Result (List ChunkMapping)
read_page [] = ok []
read_page ((index_field, id_value) ∷ rest) = elim (read_mapping index_field id_value) [
  | err code ↦ err code
  | ok mapping ↦ elim (read_page rest) [
    | err code ↦ err code
    | ok mappings ↦ ok (mapping ∷ mappings)
  ]
]

-- The loop over the sorted mappings.
unfoldable pub check_distinct : Option ChunkMapping → List ChunkMapping → Status
check_distinct previous [] = ok tt
check_distinct previous (mapping ∷ rest) =
    if is_duplicate previous mapping then err Code.malformed else check_distinct (some mapping) rest

abbrev pub mapping_index : ChunkMapping → ℕ
mapping_index mapping = mapping.index

-- `inode.attr.size = std::max(inode.attr.size, end)`
abbrev pub end_of_write : ℕ → Inode → Inode
end_of_write end node = on_attr (λ attr. record attr { size = max (attr.size) end }) node

module _ (host : Host) where
  unfoldable pub lookup_attachment : InodeId → ChunkIndex → Action (Option ChunkId)
  lookup_attachment ino index = do
    encoded ← attempt (hget host (chunk_refs ino) (to_string index))
    lift (attached_id encoded)

  unfoldable pub probe_attachment : InodeId → ChunkIndex → Action (Option ChunkId)
  probe_attachment ino index = do node ← lookup_inode host ino; lookup_attachment ino index

  -- The `do` loop over the pages of the scan.
  unfoldable pub read_pages : List (Answer Dict) → Action (List ChunkMapping)
  read_pages [] = return []
  read_pages (answer ∷ rest) = do
    page ← read answer
    mappings ← lift (read_page page)
    later ← read_pages rest
    return (mappings ++ later)

  unfoldable pub read_file_mapping_snapshot : InodeId → Action FileMappingSnapshot
  read_file_mapping_snapshot ino = do
    node ← lookup_inode host ino
    require (not (is_regular node)) Code.invalid_argument
    mappings ← read_pages (host.hscan_answers (chunk_refs ino))
    let sorted = sort_by mapping_index mappings
    lift (check_distinct none sorted)
    return (record { inode = node; mappings = sorted })

  -- The boundary that the caller saw must still be there.
  unfoldable pub check_observed : InodeId → Option ChunkBoundarySnapshot → Action (Unit {0})
  check_observed ino none = return tt
  check_observed ino (some boundary) = do
    observed ← lookup_attachment ino boundary.index
    require (not (same_id observed boundary.chunk_id)) Code.already_exists

  unfoldable pub attach_prepared :
      InodeId → ChunkIndex → ChunkId → ℕ → FileSizePrecondition → Action (Unit {0})
  attach_prepared ino index chunk_id end expected = do
    lift (validate_file_chunk_write index chunk_id end host.chunk_size)
    lift (validate_file_size_precondition expected host.chunk_size)
    node ← lookup_inode host ino
    require (not (is_regular node)) Code.invalid_argument
    current ← lookup_attachment ino index
    lift (check_content_metadata_mutation_policy node.attr)
    require (not ((node.attr).size == expected.eof) || is_some current) Code.already_exists
    check_observed ino expected.boundary
    set_inode host (touch host.now mtime_and_ctime (end_of_write end node))
    write host (hset (chunk_refs ino) (to_string index) (to_string chunk_id))

  unfoldable pub finalize_attached_write :
      InodeId → ChunkIndex → ChunkId → ℕ → FileSizePrecondition → Action (Unit {0})
  finalize_attached_write ino index chunk_id end expected = do
    lift (validate_file_chunk_write index chunk_id end host.chunk_size)
    lift (validate_file_size_precondition expected host.chunk_size)
    node ← lookup_inode host ino
    require (not (is_regular node)) Code.invalid_argument
    current ← lookup_attachment ino index
    require (not (same_id current (some chunk_id))) Code.already_exists
    check_observed ino expected.boundary
    require (not ((node.attr).size == expected.eof)) Code.already_exists
    lift (check_content_metadata_mutation_policy node.attr)
    set_inode host (touch host.now mtime_and_ctime (end_of_write end node))
