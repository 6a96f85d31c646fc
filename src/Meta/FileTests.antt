-- ===== src/Meta/FileTests.antt =====
-- Files at work: their chunks, sizes and attributes, against a small tree.
use sword_fs.Prelude.{
  ◌+◌, ◌^◌, Bool, true, false, ◌==◌, if◌then◌else◌, Option, none, some, [], ◌∷◌, refl,
}
use sword_fs.Prelude.Text.{Text}
use sword_fs.Inode.{Attr, Inode, Fields}
use sword_fs.Record.{ReclaimWork}
use sword_fs.Chunk.SizePlan.{ChunkSizePlan, FileSizePrecondition, retain_snapshot, retain_boundary}
use sword_fs.Meta.{Host, Queue, found, missing}
use sword_fs.Meta.Sample.{file, host, or_else}
use sword_fs.Meta.Sizes.{ChunkSizeCommitResult}
use sword_fs.Meta.Proofs.Attach.{IsAttached, attach_prepared-IsAttached}
use sword_fs.Meta.Proofs.Freeze.{IsPrepared, prepare_reclaim-IsPrepared}
use sword_fs.Inode.{
  is_dir, is_regular, is_symlink, new_attr, touch, touch_attr, touch_atime, touch_mtime,
  touch_ctime, has_set_attr_field, clear_setid_for_kill_priv,
}
use sword_fs.Inode.Policy.{
  check_directory_removal_policy, check_directory_addition_policy, has_restrictive_inode_policy,
  is_immutable, is_append_only, check_content_metadata_mutation_policy, check_set_attr_policy,
}
use sword_fs.Prelude.Text.{lookup, same_text}
use sword_fs.Inode.Create.{mode_to_dt}
use sword_fs.Meta.{continue, require, lift, return, write, attempt, read}
use sword_fs.Meta.Decimal.{digits, to_string, read_digits, from_chars, parse_attached_chunk_id}
use sword_fs.Meta.Inodes.{
  adjust_nlink, set_inode, lookup_inode, lookup_entry_in, adjust_inode_count, set_attr,
  changed_attr,
}
use sword_fs.Meta.Entries.{clear_orphan_marker}
use sword_fs.Meta.Files.{
  lookup_attachment, check_observed, attach_prepared, finalize_attached_write, read_mapping,
  read_page, read_pages, check_distinct, read_file_mapping_snapshot,
}
use sword_fs.Meta.Reclaim.{
  complete_reclaim, queue_pending_delete, mappings_of, freeze, reclaim_found, prepare_reclaim,
}
use sword_fs.Meta.Sizes.{commit_size_change}
use sword_fs.Record.{
  put_string, put_header, get_string, get_header, finish, serialize_entry, parse_entry,
  serialize_reclaim, serialize_pending_delete,
}
use sword_fs.Record.Inodes.{
  put_attr, put_xattrs, serialize_inode, get_attr, get_xattrs, parse_inode,
}
use sword_fs.Record.LittleEndian.{little_endian, get_four, get_eight}
use sword_fs.Chunk.{calculate_chunk_start_offset}
use sword_fs.Chunk.SizePlan.{
  should_detach, plan_chunk_size_layout, check_mappings, normalize_mappings, find_chunk_id,
  make_boundary_snapshot, make_retained_boundary, validate_file_chunk_write, check_boundary,
  validate_file_size_precondition, detached_ids, build_plan, plan_chunk_size_change, same_boundary,
  validate_size_commit_plan,
}

abbrev is_zero : Text → Bool
is_zero (c ∷ []) = c == 48
is_zero _ = false

-- The end 10 lies in chunk 1, of which nothing is mapped.
abbrev expected : FileSizePrecondition
expected = record {
  eof = 10;
  boundary = some (record { index = 1; chunk_id = none; visible_prefix = 2 });
}

abbrev attached : Unit {0} × Queue
attached = or_else tt (attach_prepared host 3 1 7 12 expected [])

attach_prepared_example : IsAttached host 3 1 7 12 expected [] (attached.1)
unfolding is_dir is_regular is_symlink new_attr touch touch_attr touch_atime touch_mtime touch_ctime
    has_set_attr_field clear_setid_for_kill_priv check_directory_removal_policy
    check_directory_addition_policy has_restrictive_inode_policy is_immutable is_append_only
    check_content_metadata_mutation_policy check_set_attr_policy continue require lift return write
    attempt read digits to_string read_digits from_chars parse_attached_chunk_id adjust_nlink
    set_inode lookup_inode lookup_entry_in adjust_inode_count set_attr changed_attr put_string
    put_header get_string get_header finish serialize_entry parse_entry serialize_reclaim
    serialize_pending_delete put_attr put_xattrs serialize_inode get_attr get_xattrs parse_inode
    little_endian get_four get_eight mode_to_dt lookup same_text lookup_attachment check_observed
    attach_prepared finalize_attached_write read_mapping read_page read_pages check_distinct
    read_file_mapping_snapshot calculate_chunk_start_offset should_detach plan_chunk_size_layout
    check_mappings normalize_mappings find_chunk_id make_boundary_snapshot retain_snapshot
    retain_boundary make_retained_boundary validate_file_chunk_write check_boundary
    validate_file_size_precondition detached_ids build_plan plan_chunk_size_change same_boundary
    validate_size_commit_plan
attach_prepared_example = attach_prepared-IsAttached host 3 1 7 12 expected [] {value = tt} refl

-- A host that has chunk 0 of the file mapped to 9.
abbrev mapped_host : Host
mapped_host = record host {
  hget_answer = λ key field. if is_zero field then found (to_string 9) else missing;
}

abbrev finalized : Unit {0} × Queue
finalized = or_else tt (finalize_attached_write mapped_host 3 0 9 8 expected [])

abbrev prepared : Option ReclaimWork × Queue
prepared = or_else none (prepare_reclaim host 4 [])

prepare_reclaim_example : IsPrepared host 4 [] (prepared.1) (prepared.0)
unfolding is_dir is_regular is_symlink new_attr touch touch_attr touch_atime touch_mtime touch_ctime
    has_set_attr_field clear_setid_for_kill_priv check_directory_removal_policy
    check_directory_addition_policy has_restrictive_inode_policy is_immutable is_append_only
    check_content_metadata_mutation_policy check_set_attr_policy continue require lift return write
    attempt read digits to_string read_digits from_chars parse_attached_chunk_id adjust_nlink
    set_inode lookup_inode lookup_entry_in adjust_inode_count set_attr changed_attr put_string
    put_header get_string get_header finish serialize_entry parse_entry serialize_reclaim
    serialize_pending_delete put_attr put_xattrs serialize_inode get_attr get_xattrs parse_inode
    little_endian get_four get_eight mode_to_dt lookup same_text clear_orphan_marker
    lookup_attachment check_observed attach_prepared finalize_attached_write read_mapping read_page
    read_pages check_distinct read_file_mapping_snapshot complete_reclaim queue_pending_delete
    mappings_of freeze reclaim_found prepare_reclaim
prepare_reclaim_example = prepare_reclaim-IsPrepared host 4 [] refl

-- The file 3 shrinks to nothing.
abbrev plan : ChunkSizePlan
plan = record {
  target_eof = 0;
  expected_old_state = expected;
  boundary = none;
  detached_chunk_ids = [];
}

abbrev to_nothing : Attr
to_nothing = record (file.attr) { size = 0 }

abbrev committed : ChunkSizeCommitResult × Queue
committed =
    or_else (record { inode = file; detached = []; boundary = none })
      (commit_size_change host 3 plan to_nothing 8 true [])

-- The mode, and the time of the change.
abbrev fields : Fields
fields = 1 + 2 ^ 10

abbrev set : Inode × Queue
set = or_else file (set_attr host 3 to_nothing fields [])
