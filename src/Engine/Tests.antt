-- ===== src/Engine/Tests.antt =====
-- The calls on names at work, against a small tree with one name.
use sword_fs.Prelude.{◌&&◌, ◌==◌, if◌then◌else◌, none, some, [], ◌∷◌, refl, Option}
use sword_fs.Prelude.Text.{Text, lookup, same_text}
use sword_fs.Inode.{
  Inode, is_dir, is_regular, is_symlink, new_attr, touch, touch_attr, touch_atime, touch_mtime,
  touch_ctime, has_set_attr_field, clear_setid_for_kill_priv, check_sticky_delete,
}
use sword_fs.Inode.Create.{mode_to_dt}
use sword_fs.Inode.Policy.{
  check_directory_removal_policy, check_directory_addition_policy, has_restrictive_inode_policy,
  is_immutable, is_append_only, check_content_metadata_mutation_policy,
}
use sword_fs.Record.{
  put_string, put_header, get_string, get_header, finish, serialize_entry, parse_entry,
}
use sword_fs.Record.Inodes.{
  put_attr, put_xattrs, serialize_inode, get_attr, get_xattrs, parse_inode,
}
use sword_fs.Record.LittleEndian.{little_endian, get_four, get_eight}
use sword_fs.Meta.{
  Host, Key, directory, Answer, missing, Queue, continue, require, lift, return, write, attempt,
  read,
}
use sword_fs.Meta.Decimal.{digits, to_string, read_digits, from_chars}
use sword_fs.Meta.Inodes.{
  adjust_nlink, set_inode, lookup_inode, lookup_entry_in, adjust_inode_count,
}
use sword_fs.Meta.Descent.{is_among, round_of, descent, is_descendant_of}
use sword_fs.Meta.Entries.{
  unlink_file, detach_entry, link_entry, put_entry, linked_parent, detached_parent, mark_orphan,
  clear_orphan_marker,
}
use sword_fs.Meta.Rename.{
  Place, Renamed, new_parent, put_new_parent, check_parents, check_destination, check_replacement,
  remove_target, set_separate, finish_move, replace_target, move_target, move_entry,
}
use sword_fs.Meta.Sample.{root, file, host, or_else, or_missing}
use sword_fs.Engine.{Context}
use sword_fs.Engine.Names.{create_node, unlink}
use sword_fs.Engine.Rename.{read_new_parent, rename_target, rename_to, rename}
use sword_fs.Engine.Renamed.{IsRenamed, rename-IsRenamed}
use sword_fs.Engine.Unlinked.{IsRemoved, unlink-IsRemoved}

abbrev name_a : Text
name_a = 97 ∷ []

abbrev name_b : Text
name_b = 98 ∷ []

-- The name "a" of the root leads to the file 3.
abbrev entries : Key → Text → Answer Text
entries (directory ino) field =
    if ino == 1 && same_text field name_a
    then or_missing (serialize_entry little_endian (record { name = name_a; type = 8; ino = 3 }))
    else missing
entries _ field = missing

abbrev named_host : Host
named_host = record host { hget_answer = entries }

abbrev caller : Context
caller = record { uid = 0; gid = 0; umask = 18 }

abbrev unlinked : (Inode × Inode) × Queue
unlinked = or_else (root, file) (unlink named_host caller 1 name_a (some 3) [])

unlink_example :
    IsRemoved named_host caller 1 name_a (some 3) (unlinked.0.0) (unlinked.0.1) (unlinked.1)
unfolding is_dir is_regular is_symlink new_attr touch touch_attr touch_atime touch_mtime touch_ctime
    has_set_attr_field clear_setid_for_kill_priv check_directory_removal_policy
    check_directory_addition_policy has_restrictive_inode_policy is_immutable is_append_only
    check_content_metadata_mutation_policy continue require lift return write attempt read digits
    to_string read_digits from_chars adjust_nlink set_inode lookup_inode lookup_entry_in
    adjust_inode_count put_string put_header get_string get_header finish serialize_entry
    parse_entry put_attr put_xattrs serialize_inode get_attr get_xattrs parse_inode little_endian
    get_four get_eight mode_to_dt lookup same_text unlink_file detach_entry detached_parent
    mark_orphan clear_orphan_marker check_sticky_delete unlink
unlink_example = unlink-IsRemoved named_host caller 1 name_a (some 3) refl

abbrev created : Inode × Queue
created = or_else root (create_node named_host caller 9 1 name_b 33188 0 [])

abbrev here : Place
here = record { parent_ino = 1; name = name_a }

abbrev there : Place
there = record { parent_ino = 2; name = name_b }

abbrev unmoved : Renamed
unmoved = record {
  parents = record { old_parent = root; separate = none };
  source = file;
  target = none;
}

abbrev the_renamed : Option Renamed × Queue → Renamed
the_renamed (none, queue) = unmoved
the_renamed (some renamed, queue) = renamed

abbrev moved : Option Renamed × Queue
moved = or_else none (rename named_host caller here there 1 [])

rename_example : IsRenamed named_host caller here there 1
unfolding is_dir is_regular is_symlink new_attr touch touch_attr touch_atime touch_mtime touch_ctime
    has_set_attr_field clear_setid_for_kill_priv check_directory_removal_policy
    check_directory_addition_policy has_restrictive_inode_policy is_immutable is_append_only
    check_content_metadata_mutation_policy continue require lift return write attempt read digits
    to_string read_digits from_chars adjust_nlink set_inode lookup_inode lookup_entry_in
    adjust_inode_count put_string put_header get_string get_header finish serialize_entry
    parse_entry put_attr put_xattrs serialize_inode get_attr get_xattrs parse_inode little_endian
    get_four get_eight mode_to_dt lookup same_text is_among round_of descent is_descendant_of
    unlink_file detach_entry link_entry put_entry linked_parent detached_parent new_parent
    put_new_parent check_parents check_destination check_replacement remove_target set_separate
    finish_move replace_target move_target move_entry check_sticky_delete read_new_parent
    rename_target rename_to rename
rename_example =
    rename-IsRenamed named_host caller here there 1 {renamed = the_renamed moved} {after = moved.1}
      refl
