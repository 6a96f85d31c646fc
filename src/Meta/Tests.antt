-- ===== src/Meta/Tests.antt =====
-- Names and directories at work, against a small tree.
use sword_fs.Prelude.{
  ◌≤◌, ◌+◌, length, true, ◌==◌, none, some, [], ◌∷◌, ◌≡◌, ◌≢◌, ◌↔◌, refl, arith, inl, inr,
  Bool-cases,
}
use sword_fs.Prelude.Text.{Text}
use sword_fs.Status.{ok}
use sword_fs.Inode.{InodeId, Inode}
use sword_fs.Meta.{Queue, inode, found}
use sword_fs.Meta.Sample.{root, folder, file, orphan, host, or_else, some_inode}
use sword_fs.Meta.Rename.{Place, Parents, Renamed}
use sword_fs.Meta.Descent.{rounds}
use sword_fs.Meta.Ancestors.{IsBelow, descent_total, is_descendant_of-IsBelow}
use sword_fs.Meta.Proofs.Unlink.{IsUnlinked, unlink_file-IsUnlinked}
use sword_fs.Meta.Proofs.Link.{IsLinked, IsAdded, link_existing_entry-IsLinked, add_entry-IsAdded}
use sword_fs.Meta.Proofs.Rename.{move_entry-IsBelow, exchange_entries-IsBelow}
use sword_fs.Inode.{
  is_dir, is_regular, is_symlink, new_attr, touch, touch_attr, touch_atime, touch_mtime,
  touch_ctime, has_set_attr_field, clear_setid_for_kill_priv,
}
use sword_fs.Inode.Policy.{
  check_directory_removal_policy, check_directory_addition_policy, has_restrictive_inode_policy,
  is_immutable, is_append_only, check_content_metadata_mutation_policy, check_set_attr_policy,
}
use sword_fs.Prelude.Text.{lookup, same_text}
use sword_fs.Inode.Create.{mode_to_dt}
use sword_fs.Meta.{continue, require, lift, return, write, attempt, read}
use sword_fs.Meta.Decimal.{digits, to_string, read_digits, from_chars, parse_attached_chunk_id}
use sword_fs.Meta.Inodes.{
  adjust_nlink, set_inode, lookup_inode, lookup_entry_in, adjust_inode_count, set_attr,
  changed_attr,
}
use sword_fs.Meta.Descent.{is_among, round_of, descent, is_descendant_of}
use sword_fs.Meta.Entries.{
  unlink_file, link_existing_entry, add_entry, detach_entry, link_entry, replace_entry, put_entry,
  linked_parent, detached_parent, mark_orphan, revive, clear_orphan_marker, existing_entry,
}
use sword_fs.Meta.Rename.{
  new_parent, put_new_parent, check_parents, check_destination, check_replacement, remove_target,
  set_separate, finish_move, replace_target, move_target, move_entry, adjust_separate,
  adjust_parents, finish_exchange, exchange_entries,
}
use sword_fs.Record.{
  put_string, put_header, get_string, get_header, finish, serialize_entry, parse_entry,
  serialize_reclaim, serialize_pending_delete,
}
use sword_fs.Record.Inodes.{
  put_attr, put_xattrs, serialize_inode, get_attr, get_xattrs, parse_inode,
}
use sword_fs.Record.LittleEndian.{little_endian, get_four, get_eight}

abbrev name_a : Text
name_a = 97 ∷ []

abbrev unlinked : (Inode × Inode) × Queue
unlinked = or_else (root, file) (unlink_file host 1 name_a root file [])

unlink_file_example :
    IsUnlinked host 1 name_a root file (unlinked.0.0) (unlinked.0.1) [] (unlinked.1)
unfolding is_dir is_regular is_symlink new_attr touch touch_attr touch_atime touch_mtime touch_ctime
    has_set_attr_field clear_setid_for_kill_priv check_directory_removal_policy
    check_directory_addition_policy has_restrictive_inode_policy is_immutable is_append_only
    check_content_metadata_mutation_policy check_set_attr_policy continue require lift return write
    attempt read digits to_string read_digits from_chars parse_attached_chunk_id adjust_nlink
    set_inode lookup_inode lookup_entry_in adjust_inode_count set_attr changed_attr put_string
    put_header get_string get_header finish serialize_entry parse_entry serialize_reclaim
    serialize_pending_delete put_attr put_xattrs serialize_inode get_attr get_xattrs parse_inode
    little_endian get_four get_eight mode_to_dt lookup same_text unlink_file link_existing_entry
    add_entry detach_entry link_entry replace_entry put_entry linked_parent detached_parent
    mark_orphan revive clear_orphan_marker existing_entry
unlink_file_example = unlink_file-IsUnlinked host 1 name_a root file [] refl

abbrev linked : (Inode × Inode) × Queue
linked = or_else (root, file) (link_existing_entry host 1 name_a root orphan [])

link_existing_entry_example :
    IsLinked host 1 name_a root orphan (linked.0.0) (linked.0.1) [] (linked.1)
unfolding is_dir is_regular is_symlink new_attr touch touch_attr touch_atime touch_mtime touch_ctime
    has_set_attr_field clear_setid_for_kill_priv check_directory_removal_policy
    check_directory_addition_policy has_restrictive_inode_policy is_immutable is_append_only
    check_content_metadata_mutation_policy check_set_attr_policy continue require lift return write
    attempt read digits to_string read_digits from_chars parse_attached_chunk_id adjust_nlink
    set_inode lookup_inode lookup_entry_in adjust_inode_count set_attr changed_attr put_string
    put_header get_string get_header finish serialize_entry parse_entry serialize_reclaim
    serialize_pending_delete put_attr put_xattrs serialize_inode get_attr get_xattrs parse_inode
    little_endian get_four get_eight mode_to_dt lookup same_text unlink_file link_existing_entry
    add_entry detach_entry link_entry replace_entry put_entry linked_parent detached_parent
    mark_orphan revive clear_orphan_marker existing_entry
link_existing_entry_example = link_existing_entry-IsLinked host 1 name_a root orphan [] refl

abbrev added : Inode × Queue
added = or_else root (add_entry host 1 name_a folder root [])

add_entry_example : IsAdded host 1 name_a folder root (added.0) [] (added.1)
unfolding is_dir is_regular is_symlink new_attr touch touch_attr touch_atime touch_mtime touch_ctime
    has_set_attr_field clear_setid_for_kill_priv check_directory_removal_policy
    check_directory_addition_policy has_restrictive_inode_policy is_immutable is_append_only
    check_content_metadata_mutation_policy check_set_attr_policy continue require lift return write
    attempt read digits to_string read_digits from_chars parse_attached_chunk_id adjust_nlink
    set_inode lookup_inode lookup_entry_in adjust_inode_count set_attr changed_attr put_string
    put_header get_string get_header finish serialize_entry parse_entry serialize_reclaim
    serialize_pending_delete put_attr put_xattrs serialize_inode get_attr get_xattrs parse_inode
    little_endian get_four get_eight mode_to_dt lookup same_text unlink_file link_existing_entry
    add_entry detach_entry link_entry replace_entry put_entry linked_parent detached_parent
    mark_orphan revive clear_orphan_marker existing_entry
add_entry_example = add_entry-IsAdded host 1 name_a folder root [] refl

host_covers :
    (ino : InodeId) (text : Text)
    → host.get_answer (inode ino) ≡ found text
    → is_among ino host.stored_inodes ≡ true
unfolding is_among
host_covers ino text answered = elim (Bool-cases (ino == 1)) [
  | inl first ↦ rw first
  | inr a ↦ elim (Bool-cases (ino == 2)) [
    | inl second ↦ rw (a, second)
    | inr b ↦ elim (Bool-cases (ino == 3)) [
      | inl third ↦ rw (a, b, third)
      | inr c ↦ elim (Bool-cases (ino == 4)) [
        | inl fourth ↦ rw (a, b, c, fourth)
        | inr d ↦ let none_there = rw (a, b, c, d) at answered in absurd cc
      ]
    ]
  ]
]

descent_total_example :
    (rounds host ≤ length host.stored_inodes + 1)
    × (descent host (rounds host) 2 [] 1 [] ≢ ok (none, []))
descent_total_example = descent_total host host_covers 2 1 [] []

is_descendant_of_example : (true ≡ true) ↔ IsBelow host 1 2
unfolding is_dir is_regular is_symlink new_attr touch touch_attr touch_atime touch_mtime touch_ctime
    has_set_attr_field clear_setid_for_kill_priv check_directory_removal_policy
    check_directory_addition_policy has_restrictive_inode_policy is_immutable is_append_only
    check_content_metadata_mutation_policy check_set_attr_policy continue require lift return write
    attempt read digits to_string read_digits from_chars parse_attached_chunk_id adjust_nlink
    set_inode lookup_inode lookup_entry_in adjust_inode_count set_attr changed_attr put_string
    put_header get_string get_header finish serialize_entry parse_entry serialize_reclaim
    serialize_pending_delete put_attr put_xattrs serialize_inode get_attr get_xattrs parse_inode
    little_endian get_four get_eight mode_to_dt lookup same_text is_among round_of descent
    is_descendant_of
is_descendant_of_example = is_descendant_of-IsBelow host 1 2 [] {after = []} (omega arith) refl

abbrev here : Place
here = record { parent_ino = 1; name = name_a }

abbrev there : Place
there = record { parent_ino = 2; name = name_a }

abbrev parents : Parents
parents = record { old_parent = root; separate = some folder }

abbrev other_folder : Inode
other_folder = some_inode 5 16877 2 4096 1

abbrev unmoved : Renamed
unmoved = record { parents = parents; source = other_folder; target = none }

abbrev moved : Renamed × Queue
moved = or_else unmoved (move_entry host here there parents other_folder none true [])

move_entry_example : ¬ IsBelow host 5 2
unfolding is_dir is_regular is_symlink new_attr touch touch_attr touch_atime touch_mtime touch_ctime
    has_set_attr_field clear_setid_for_kill_priv check_directory_removal_policy
    check_directory_addition_policy has_restrictive_inode_policy is_immutable is_append_only
    check_content_metadata_mutation_policy check_set_attr_policy continue require lift return write
    attempt read digits to_string read_digits from_chars parse_attached_chunk_id adjust_nlink
    set_inode lookup_inode lookup_entry_in adjust_inode_count set_attr changed_attr put_string
    put_header get_string get_header finish serialize_entry parse_entry serialize_reclaim
    serialize_pending_delete put_attr put_xattrs serialize_inode get_attr get_xattrs parse_inode
    little_endian get_four get_eight mode_to_dt lookup same_text is_among round_of descent
    is_descendant_of unlink_file link_existing_entry add_entry detach_entry link_entry replace_entry
    put_entry linked_parent detached_parent mark_orphan revive clear_orphan_marker existing_entry
    new_parent put_new_parent check_parents check_destination check_replacement remove_target
    set_separate finish_move replace_target move_target move_entry adjust_separate adjust_parents
    finish_exchange exchange_entries
move_entry_example =
    move_entry-IsBelow host here there parents other_folder none true [] {renamed = moved.0}
      {after = moved.1} (omega arith) refl refl

abbrev exchanged : Renamed × Queue
exchanged = or_else unmoved (exchange_entries host here there parents other_folder file [])

exchange_entries_example :
    (is_dir other_folder ≡ true → ¬ IsBelow host 5 2) × (is_dir file ≡ true → ¬ IsBelow host 3 1)
unfolding is_dir is_regular is_symlink new_attr touch touch_attr touch_atime touch_mtime touch_ctime
    has_set_attr_field clear_setid_for_kill_priv check_directory_removal_policy
    check_directory_addition_policy has_restrictive_inode_policy is_immutable is_append_only
    check_content_metadata_mutation_policy check_set_attr_policy continue require lift return write
    attempt read digits to_string read_digits from_chars parse_attached_chunk_id adjust_nlink
    set_inode lookup_inode lookup_entry_in adjust_inode_count set_attr changed_attr put_string
    put_header get_string get_header finish serialize_entry parse_entry serialize_reclaim
    serialize_pending_delete put_attr put_xattrs serialize_inode get_attr get_xattrs parse_inode
    little_endian get_four get_eight mode_to_dt lookup same_text is_among round_of descent
    is_descendant_of unlink_file link_existing_entry add_entry detach_entry link_entry replace_entry
    put_entry linked_parent detached_parent mark_orphan revive clear_orphan_marker existing_entry
    new_parent put_new_parent check_parents check_destination check_replacement remove_target
    set_separate finish_move replace_target move_target move_entry adjust_separate adjust_parents
    finish_exchange exchange_entries
exchange_entries_example =
    exchange_entries-IsBelow host here there parents other_folder file [] {renamed = exchanged.0}
      {after = exchanged.1} (omega arith) (omega arith) (omega arith) refl
