-- ===== src/Lock/Holders.antt =====
-- The holders of one inode's locks, of src/metadata/redis/RedisLockAuthority.cpp: the live fields
-- of its Redis Hash, one for each owner, and the write that a lock request ends in.
use sword_fs.Prelude.{
  ℕ, ◌≡◌, ◌⊎◌, Bool, false, ◌&&◌, ◌==◌, List, Elem, Option, none, some, if◌then◌else◌,
}
use sword_fs.Lock.{Interval}

pub data FlockType : Type 0 where
  unlock shared exclusive : FlockType

pub record Holder : Type 0 where
  pub generation : ℕ
  pub kernel_owner : ℕ
  pub ranges : List Interval
  pub flock : FlockType

-- `kMaxHolders`
abbrev pub max_holders : ℕ
max_holders = 1024

-- The holder is the mount's `generation` with the kernel's `kernel_owner`.
abbrev pub is_owner : ℕ → ℕ → Holder → Bool
is_owner generation kernel_owner holder =
    holder.generation == generation && holder.kernel_owner == kernel_owner

abbrev pub same_owner : Holder → Holder → Bool
same_owner a b = is_owner b.generation b.kernel_owner a

-- What a request writes: its owner's new record, the removal of the record, or, where the owner
-- has none, the write fence that is set and removed again.
pub data Write : Type 0 where
  put : Holder → Write
  remove : ℕ → ℕ → Write
  fence : ℕ → ℕ → Write

-- `SetState`; the record to store is `none` where the source passes an empty text.
unfoldable pub set_state : ℕ → ℕ → Option Holder → Bool → Write
set_state generation kernel_owner (some holder) exists = put holder
set_state generation kernel_owner none exists =
    if exists then remove generation kernel_owner else fence generation kernel_owner

-- The Redis commands that the write is made of, on the live holders of one inode. HSET leaves one
-- field of the name it sets, and HDEL none; neither touches another field. The fence's own field is
-- gone before the transaction ends.
pub record LockHash : Type 1 where
  pub Store : Type 0
  pub holders : Store → List Holder
  pub hset : Holder → Store → Store
  pub hdel : ℕ → ℕ → Store → Store
  pub holders-hset :
      (h new : Holder) (s : Store)
      → Elem h (holders (hset new s))
      → (h ≡ new) ⊎ (Elem h (holders s) × (same_owner h new ≡ false))
  pub holders-hdel :
      (h : Holder) (generation kernel_owner : ℕ) (s : Store)
      → Elem h (holders (hdel generation kernel_owner s))
      → Elem h (holders s) × (is_owner generation kernel_owner h ≡ false)

module _ (hash : LockHash) where
  unfoldable pub commit : Write → hash.Store → hash.Store
  commit (put holder) s = hash.hset holder s
  commit (remove generation kernel_owner) s = hash.hdel generation kernel_owner s
  commit (fence generation kernel_owner) s = hash.hdel generation kernel_owner s
