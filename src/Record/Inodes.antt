-- ===== src/Record/Inodes.antt =====
-- src/metadata/types/Inode.cpp, and `Attr` of BufCodec.cpp: the record of an inode.
use sword_fs.Prelude.{ℕ, zero, suc, Bool, false, ◌&&◌, not, ltb, ◌==◌, some, [], ◌∷◌, length}
use sword_fs.Prelude.Int.{ℤ, pos, negsuc}
use sword_fs.Prelude.Text.{Text, Dict, is_empty, lookup, assign}
use sword_fs.Status.{Result, ok, Code, ◌>>◌, fail_if}
use sword_fs.Inode.{Attr, Inode, has_only_supported_inode_flags}
use sword_fs.Inode.PosixAcl.{is_some}
use sword_fs.Record.{
  Words, Decoder, ◌then_read◌, accept, check, inode_record, u32, u64, i64, put_string, put_header,
  get_string, get_header, finish,
}

abbrev pub is_nanoseconds : ℤ → Bool
is_nanoseconds (pos n) = ltb n 1000000000
is_nanoseconds (negsuc n) = false

abbrev pub has_valid_nanoseconds : Attr → Bool
has_valid_nanoseconds attr =
    is_nanoseconds attr.atime_nsec
    && is_nanoseconds attr.mtime_nsec
    && is_nanoseconds attr.ctime_nsec
    && is_nanoseconds attr.btime_nsec

module _ (words : Words) where
  unfoldable pub put_attr : Attr → Text → Text
  put_attr attr behind = u64 words attr.dev (
      u64 words attr.ino (
        u32 words attr.mode (
          u64 words attr.nlink (
            u64 words attr.uid (
              u64 words attr.gid (
                u64 words attr.rdev (
                  u64 words attr.size (
                    u64 words attr.blksize (
                      u64 words attr.blocks (
                        i64 words attr.atime (
                          i64 words attr.atime_nsec (
                            i64 words attr.mtime (
                              i64 words attr.mtime_nsec (
                                i64 words attr.ctime (
                                  i64 words attr.ctime_nsec (
                                    i64 words attr.btime (
                                      i64 words attr.btime_nsec
                                        (u32 words attr.inode_flags behind))))))))))))))))))

  -- The last tests of `BufDecoder::Attr`.
  abbrev pub check_attr : Attr → Decoder Attr
  check_attr attr =
      accept (has_only_supported_inode_flags attr.inode_flags && has_valid_nanoseconds attr) attr

  unfoldable pub get_attr : Decoder Attr
  get_attr bytes = words.get64 bytes then_read λ dev bytes. words.get64 bytes then_read λ ino bytes.
      words.get32 bytes then_read λ mode bytes. words.get64 bytes then_read λ nlink bytes.
      words.get64 bytes then_read λ uid bytes. words.get64 bytes then_read λ gid bytes.
      words.get64 bytes then_read λ rdev bytes. words.get64 bytes then_read λ size bytes.
      words.get64 bytes then_read λ blksize bytes. words.get64 bytes then_read λ blocks bytes.
      words.get_int bytes then_read λ atime bytes. words.get_int bytes then_read λ atime_nsec bytes.
      words.get_int bytes then_read λ mtime bytes. words.get_int bytes then_read λ mtime_nsec bytes.
      words.get_int bytes then_read λ ctime bytes. words.get_int bytes then_read λ ctime_nsec bytes.
      words.get_int bytes then_read λ btime bytes. words.get_int bytes then_read λ btime_nsec bytes.
      words.get32 bytes then_read λ inode_flags bytes.
      check_attr
        (record {
          dev = dev;
          ino = ino;
          mode = mode;
          nlink = nlink;
          uid = uid;
          gid = gid;
          rdev = rdev;
          size = size;
          blksize = blksize;
          blocks = blocks;
          atime = atime;
          atime_nsec = atime_nsec;
          mtime = mtime;
          mtime_nsec = mtime_nsec;
          ctime = ctime;
          ctime_nsec = ctime_nsec;
          btime = btime;
          btime_nsec = btime_nsec;
          inode_flags = inode_flags;
        })
        bytes

  unfoldable pub put_xattrs : Dict → Text → Text
  put_xattrs [] behind = behind
  put_xattrs ((name, value) ∷ rest) behind =
      put_string words name (put_string words value (put_xattrs rest behind))

  unfoldable pub serialize_inode : Inode → Result Text
  serialize_inode inode = do
    fail_if (inode.ino == 0) Code.invalid_argument
    ok (
        put_header words inode_record (
          u64 words inode.ino (
            put_attr inode.attr (
              u64 words inode.parent_ino (
                put_string words inode.symlink_target
                  (u64 words (length inode.xattrs) (put_xattrs inode.xattrs [])))))))

  -- The loop over the attributes, with those that are read already.
  unfoldable pub get_xattrs : ℕ → Dict → Decoder Dict
  get_xattrs zero read bytes = some (read, bytes)
  get_xattrs (suc count) read bytes = get_string words bytes then_read λ name bytes.
      get_string words bytes then_read λ value bytes.
      check (not (is_empty name) && not (is_some (lookup name read))) bytes then_read λ _ bytes.
      get_xattrs count (assign name value read) bytes

  abbrev pub is_inode : Inode → Bool
  is_inode inode = not (inode.ino == 0) && (inode.attr).ino == inode.ino

  unfoldable pub parse_inode : Text → Result Inode
  parse_inode bytes = finish is_inode (
      get_header words inode_record bytes then_read λ _ bytes.
      words.get64 bytes then_read λ ino bytes. get_attr bytes then_read λ attr bytes.
      words.get64 bytes then_read λ parent_ino bytes.
      get_string words bytes then_read λ symlink_target bytes.
      words.get64 bytes then_read λ count bytes. get_xattrs count [] bytes then_read λ xattrs bytes.
      some (
        record {
          ino = ino;
          attr = attr;
          parent_ino = parent_ino;
          symlink_target = symlink_target;
          xattrs = xattrs;
        },
        bytes,
      ))
