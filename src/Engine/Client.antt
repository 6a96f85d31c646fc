-- ===== src/Engine/Client.antt =====
-- src/metadata/redis/RedisMetaClient.cpp: the commands outside of a transaction, as the replies of
-- the server to them.
use sword_fs.Prelude.{ℕ, Bool, false, ◌==◌, if◌then◌else◌, Option, none, some, List, [], ◌∷◌}
use sword_fs.Prelude.Text.{Text, same_text}
use sword_fs.Status.{Result, ok, err, Code, ◌>>=◌}
use sword_fs.Chunk.{ChunkIndex}
use sword_fs.Meta.Decimal.{to_string}

-- A reply, an error of the server, or none at all
pub data Reply {ℓ} (A : Type ℓ) : Type ℓ where
  replied : A → Reply A
  refused unreachable : Reply A

-- `RunReadOnlyCommand`
unfoldable pub read_only {ℓ} : {A : Type ℓ} → Reply A → Result A
read_only (replied value) = ok value
read_only refused = err Code.io_error
read_only unreachable = err Code.unavailable

-- A command that changes something and is not answered may have been carried out: `Incr` and
-- `IncrNonNegative`, whose script refuses a negative counter.
unfoldable pub changing {ℓ} : {A : Type ℓ} → Reply A → Result A
changing (replied value) = ok value
changing refused = err Code.io_error
changing unreachable = err Code.outcome_unknown

abbrev pub value_or_not_found {ℓ} : {A : Type ℓ} → Option A → Result A
value_or_not_found none = err Code.not_found
value_or_not_found (some value) = ok value

-- `Get`
unfoldable pub get : Reply (Option Text) → Result Text
get reply = read_only reply >>= value_or_not_found

-- `RPUSHX` answers the length of the list, 0 where there is none.
abbrev pub pushed : ℕ → Result (Unit {0})
pushed count = if count == 0 then err Code.not_found else ok tt

unfoldable pub rpush_existing : Reply ℕ → Result (Unit {0})
rpush_existing reply = changing reply >>= pushed

-- The reply of `EVAL_RO`: what it says first, and the two fields. None is an image that has
-- changed.
abbrev pub attachments : List (Option Text) → Result (Option (Option Text × Option Text))
attachments (some status ∷ []) =
    if same_text status (99 ∷ 104 ∷ 97 ∷ 110 ∷ 103 ∷ 101 ∷ 100 ∷ [])
    then ok none
    else err Code.malformed
attachments (some status ∷ attachment ∷ eof_attachment ∷ []) =
    if same_text status (109 ∷ 97 ∷ 116 ∷ 99 ∷ 104 ∷ 101 ∷ 100 ∷ [])
    then ok (some (attachment, eof_attachment))
    else err Code.malformed
attachments _ = err Code.malformed

-- What the server holds for a file while the script runs: the image of the inode, and the fields that
-- attach its chunks
pub record StoredFile : Type 0 where
  pub image : Option Text
  pub attached : Text → Option Text

abbrev pub is_image : Option Text → Text → Bool
is_image none expected = false
is_image (some image) expected = same_text image expected

-- `kReadChunkAttachmentsScript`, at the file that the server holds
unfoldable pub read_chunk_attachments_script :
    StoredFile → Text → ChunkIndex → ChunkIndex → List (Option Text)
read_chunk_attachments_script stored expected_inode index eof_index =
    if is_image stored.image expected_inode
    then some (109 ∷ 97 ∷ 116 ∷ 99 ∷ 104 ∷ 101 ∷ 100 ∷ [])
      ∷ stored.attached (to_string index)
      ∷ stored.attached (to_string eof_index)
      ∷ []
    else some (99 ∷ 104 ∷ 97 ∷ 110 ∷ 103 ∷ 101 ∷ 100 ∷ []) ∷ []

-- The server replies what it holds, or refuses, or is not reached.
unfoldable pub read_chunk_attachments_if_unchanged :
    Reply StoredFile → Text → ChunkIndex → ChunkIndex → Result (Option (Option Text × Option Text))
read_chunk_attachments_if_unchanged reply expected_inode index eof_index = do
  stored ← read_only reply
  attachments (read_chunk_attachments_script stored expected_inode index eof_index)
