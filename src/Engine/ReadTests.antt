-- ===== src/Engine/ReadTests.antt =====
-- A snapshot of a chunk at work: the inode has changed at first.
use sword_fs.Prelude.{ℕ, zero, suc, if◌then◌else◌, Option, none, some, [], ◌∷◌, ◌≡◌, refl}
use sword_fs.Prelude.Text.{Text, same_text}
use sword_fs.Status.{Result, ok, err}
use sword_fs.Chunk.SizePlan.{plan_chunk_size_layout}
use sword_fs.Inode.{is_regular, is_dir, is_symlink, new_attr}
use sword_fs.Record.{put_string, put_header, get_string, get_header, finish}
use sword_fs.Record.Inodes.{
  put_attr, put_xattrs, serialize_inode, get_attr, get_xattrs, parse_inode,
}
use sword_fs.Record.LittleEndian.{little_endian, get_four, get_eight}
use sword_fs.Meta.Decimal.{digits, to_string, read_digits, from_chars, parse_attached_chunk_id}
use sword_fs.Meta.Sample.{file}
use sword_fs.Engine.Client.{
  Reply, StoredFile, read_chunk_attachments_script, replied, read_only, get,
  read_chunk_attachments_if_unchanged,
}
use sword_fs.Engine.Reads.{
  FileChunkSnapshot, Answers, decode_attached_chunk_id, read_boundary, snapshot_of,
  snapshot_attempt, read_file_chunk_snapshot,
}
use sword_fs.Engine.Coherent.{IsFound, read_file_chunk_snapshot-IsFound}

abbrev or_empty : Result Text → Text
or_empty (ok bytes) = bytes
or_empty (err code) = []

abbrev image : Text
image = or_empty (serialize_inode little_endian file)

-- The chunk 0 is attached, and the chunk 1 is not.
abbrev attached : Text → Option Text
attached field = if same_text field (48 ∷ []) then some (57 ∷ []) else none

abbrev changed : Reply StoredFile
changed = replied (record { image = none; attached = attached })

abbrev matched : Reply StoredFile
matched = replied (record { image = some image; attached = attached })

abbrev two_answers : ℕ → Answers
two_answers zero = record { inode_reply = replied (some image); fields_reply = changed }
two_answers (suc k) = record { inode_reply = replied (some image); fields_reply = matched }

abbrev snapshot : FileChunkSnapshot
snapshot = record {
  inode = file;
  chunk_id = some 9;
  eof_boundary = some (record { index = 1; chunk_id = none; visible_prefix = 2 });
}

read : read_file_chunk_snapshot little_endian 8 3 0 two_answers 0 2 ≡ ok snapshot
unfolding is_regular is_dir is_symlink new_attr put_string put_header get_string get_header finish
    put_attr put_xattrs serialize_inode get_attr get_xattrs parse_inode little_endian get_four
    get_eight digits to_string read_digits from_chars parse_attached_chunk_id read_only get
    read_chunk_attachments_if_unchanged read_chunk_attachments_script decode_attached_chunk_id
    read_boundary snapshot_of snapshot_attempt read_file_chunk_snapshot same_text
    plan_chunk_size_layout
read = refl

read_file_chunk_snapshot_example : IsFound little_endian 8 3 0 two_answers 0 2 snapshot
read_file_chunk_snapshot_example =
    read_file_chunk_snapshot-IsFound little_endian 8 3 0 two_answers 2 read
