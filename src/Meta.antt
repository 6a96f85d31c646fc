-- ===== src/Meta.antt =====
-- src/metadata/redis/RedisKvTxn.cpp and RedisKey.cpp: one optimistic transaction. Its reads are
-- answered by the server before anything is written; its writes are queued, and none of them is
-- carried out before EXEC. An exception of the connection leaves every operation, with nothing
-- carried out, and is no result here.
pub mod Decimal
pub mod Inodes
pub mod Descent
pub mod Entries
pub mod Rename
pub mod Files
pub mod Sizes
pub mod Reclaim
pub mod Acts
pub mod Proofs
pub mod Ancestors
pub mod Sample
mod Tests
mod FileTests
use sword_fs.Prelude.{
  ℕ, Bool, true, false, if◌then◌else◌, Option, none, some, List, [], ◌∷◌, ◌++◌, ◌≡◌, refl,
}
use sword_fs.Prelude.Int.{ℤ}
use sword_fs.Prelude.Text.{Text, Dict, is_empty}
use sword_fs.Status.{Result, ok, err, Code, Status}
use sword_fs.Inode.{InodeId}
use sword_fs.Record.{Words, ReclaimWork, PendingDelete}
use sword_fs.Chunk.SizePlan.{ChunkMapping}

-- The keys of `RedisKey` that the transactions use. The last three name the private indexes of the
-- chunks: a COW chunk's head and the counter of its revisions, and the records of a Slice chunk.
pub data Key : Type 0 where
  inode directory chunk_refs : InodeId → Key
  inode_count orphans reclaims pending_deletes : Key
  format next_ino owner_generation next_chunk_id next_slice_id : Key
  cow_head cow_revision slice_index : ℕ → Key

-- A queued write.
pub data Command : Type 0 where
  set : Key → Text → Command
  hset : Key → Text → Text → Command
  hdel : Key → Text → Command
  incr_by : Key → ℤ → Command
  rpush : Key → Text → Command
  del : Key → Command

-- The server's answer to a read: an error is a `ReplyError`.
pub data Answer {ℓ} (A : Type ℓ) : Type ℓ where
  found : A → Answer A
  missing failed : Answer A

-- `ChunkCleanupWorkEncoder`
pub record CleanupEncoder : Type 0 where
  pub encode_detached_delete : InodeId → ChunkMapping → Result PendingDelete
  pub encode_detached_reclaim : InodeId → List ChunkMapping → Result ReclaimWork

-- What a transaction is run against: the server's answers, with the pages of an HSCAN in the order
-- of their cursors; whether it lets a command be queued; the clock; the bound encoder; and the
-- numbers of the inodes that are stored, which bound a walk over them.
pub record Host : Type 0 where
  pub words : Words
  pub get_answer : Key → Answer Text
  pub hget_answer : Key → Text → Answer Text
  pub hlen_answer : Key → Answer ℕ
  pub hscan_answers : Key → List (Answer Dict)
  pub accepts : Command → Bool
  pub now : ℤ
  pub chunk_size : ℕ
  pub encoder : Option CleanupEncoder
  pub stored_inodes : List InodeId

abbrev pub Queue : Type 0
Queue = List Command

-- A step of a transaction, on the writes queued so far.
abbrev pub Action {ℓ} : Type ℓ → Type ℓ
Action A = Queue → Result (A × Queue)

unfoldable pub lift {ℓ} : {A : Type ℓ} → Result A → Action A
lift (err code) queue = err code
lift (ok value) queue = ok (value, queue)

-- `if (test) { return error; }`
unfoldable pub require : Bool → Code → Action (Unit {0})
require test code queue = if test then err code else ok (tt, queue)

unfoldable pub return {ℓ} : {A : Type ℓ} → A → Action A
return value queue = ok (value, queue)

module _ {ℓ κ} {A : Type ℓ} {B : Type κ} where
  unfoldable pub continue : Result (A × Queue) → (A → Action B) → Result (B × Queue)
  continue (err code) next = err code
  continue (ok (value, queue)) next = next value queue

  infixl 5 ◌>>=◌
  abbrev pub ◌>>=◌ : Action A → (A → Action B) → Action B
  (act >>= next) queue = continue (act queue) next

module _ {κ} {B : Type κ} where
  infixl 5 ◌>>◌
  abbrev pub ◌>>◌ : Action (Unit {0}) → Action B → Action B
  (act >> next) queue = continue (act queue) (λ _. next)

-- A call whose failure the caller looks at; such a call reads only, and leaves the queue.
unfoldable pub attempt {ℓ} : {A : Type ℓ} → Action A → Action (Result A)
attempt act queue = elim (act queue) [
  | err code ↦ ok (err code, queue)
  | ok (value, after) ↦ ok (ok value, after)
]

abbrev pub answer_result {ℓ} : {A : Type ℓ} → Answer A → Result A
answer_result (found value) = ok value
answer_result missing = err Code.not_found
answer_result failed = err Code.io_error

-- `has_writes_` is whether the queue has a command.
unfoldable pub read {ℓ} : {A : Type ℓ} → Answer A → Action A
read answer queue =
    if is_empty queue then lift (answer_result answer) queue else err Code.invalid_argument

module _ (host : Host) where
  abbrev pub get : Key → Action Text
  get key = read (host.get_answer key)

  abbrev pub hget : Key → Text → Action Text
  hget key field = read (host.hget_answer key field)

  abbrev pub hlen : Key → Action ℕ
  hlen key = read (host.hlen_answer key)

  -- `Set`, `HSet`, `HDel`, `IncrBy` and `Del`
  unfoldable pub write : Command → Action (Unit {0})
  write command queue =
      if host.accepts command then ok (tt, queue ++ command ∷ []) else err Code.io_error
