-- ===== src/Meta/Sample.antt =====
-- A small tree for tests: the root 1, its directory 2, the file 3 in it, and
-- the file 4, which has no name left.
use sword_fs.Prelude.{ℕ, true, ◌==◌, if◌then◌else◌, some, [], ◌∷◌}
use sword_fs.Prelude.Int.{pos}
use sword_fs.Prelude.Text.{Text}
use sword_fs.Status.{Result, ok, err}
use sword_fs.Inode.{Inode, new_attr}
use sword_fs.Record.Inodes.{serialize_inode}
use sword_fs.Record.LittleEndian.{little_endian}
use sword_fs.Meta.{Host, Key, inode, Answer, found, missing, CleanupEncoder, Queue}
use sword_fs.Meta.Decimal.{to_string}

abbrev pub some_inode : ℕ → ℕ → ℕ → ℕ → ℕ → Inode
some_inode ino mode nlink size parent_ino = record {
  ino = ino;
  attr = record (new_attr (pos 5) ino mode 0 0) { nlink = nlink; size = size };
  parent_ino = parent_ino;
  symlink_target = [];
  xattrs = [];
}

abbrev pub root : Inode
root = some_inode 1 16877 3 4096 1

abbrev pub folder : Inode
folder = some_inode 2 16877 2 4096 1

abbrev pub file : Inode
file = some_inode 3 33188 1 10 1

abbrev pub orphan : Inode
orphan = some_inode 4 33188 0 10 1

abbrev pub or_missing : Result Text → Answer Text
or_missing (ok bytes) = found bytes
or_missing (err code) = missing

abbrev pub stored : Inode → Answer Text
stored node = or_missing (serialize_inode little_endian node)

abbrev pub inodes : Key → Answer Text
inodes (inode ino) =
    if ino == 1
    then stored root
    else if ino == 2
    then stored folder
    else if ino == 3
    then stored file
    else if ino == 4
    then stored orphan
    else missing
inodes _ = missing

abbrev pub encoder : CleanupEncoder
encoder = record {
  encode_detached_delete =
      λ ino mapping. ok (record { id = to_string mapping.chunk_id; payload = 7 ∷ [] });
  encode_detached_reclaim = λ ino mappings. ok (record { ino = ino; payload = 7 ∷ [] });
}

-- The file 3 has its chunk 0 mapped, and no directory has an entry that is asked for.
abbrev pub host : Host
host = record {
  words = little_endian;
  get_answer = inodes;
  hget_answer = λ key field. missing;
  hlen_answer = λ key. found 0;
  hscan_answers = λ key. found ((to_string 0, to_string 9) ∷ []) ∷ [];
  accepts = λ command. true;
  now = pos 100;
  chunk_size = 8;
  encoder = some encoder;
  stored_inodes = 1 ∷ 2 ∷ 3 ∷ 4 ∷ [];
}

abbrev pub or_else {ℓ} : {A : Type ℓ} → A → Result (A × Queue) → A × Queue
or_else default (ok (value, queue)) = (value, queue)
or_else default (err code) = (default, [])
