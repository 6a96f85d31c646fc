-- ===== src/Meta/Descent.antt =====
-- `RedisMetaTxn::IsDescendantOf`: the walk from a directory to the root. It gets one round more
-- than there are stored inodes, and `none` is a walk that would go on behind them.
use sword_fs.Prelude.{
  ℕ, zero, suc, Bool, true, false, ◌||◌, ◌==◌, if◌then◌else◌, Option, none, some, List, [], ◌∷◌,
  length,
}
use sword_fs.Status.{Result, ok, err, Code}
use sword_fs.Inode.{InodeId}
use sword_fs.Meta.{Host, Action, lift, return, ◌>>=◌}
use sword_fs.Meta.Inodes.{lookup_inode}

unfoldable pub is_among : ℕ → List ℕ → Bool
is_among n [] = false
is_among n (m ∷ rest) = n == m || is_among n rest

-- The tests of a round that end the walk before it reads an inode.
pub data Round : Type 0 where
  at_end in_cycle at_ancestor reads : Round

unfoldable pub round_of : InodeId → List InodeId → InodeId → Round
round_of ancestor_ino visited current_ino =
    if current_ino == 0
    then at_end
    else if is_among current_ino visited
    then in_cycle
    else if current_ino == ancestor_ino
    then at_ancestor
    else reads

module _ (host : Host) where
  unfoldable pub descent : ℕ → InodeId → List InodeId → InodeId → Action (Option Bool)
  descent zero ancestor_ino visited current_ino = return none
  descent (suc fuel) ancestor_ino visited current_ino =
      elim (round_of ancestor_ino visited current_ino) [
        | at_end ↦ return (some false)
        | in_cycle ↦ lift (err Code.malformed)
        | at_ancestor ↦ return (some true)
        | reads ↦ lookup_inode host current_ino >>= λ node. elim (node.parent_ino == current_ino) [
          | true ↦ return (some false)
          | false ↦ descent fuel ancestor_ino (current_ino ∷ visited) node.parent_ino
        ]
      ]

  abbrev pub rounds : ℕ
  rounds = suc (length host.stored_inodes)

  -- A walk that finds no end would be `none`.
  abbrev pub verdict : Option Bool → Result Bool
  verdict none = err Code.internal
  verdict (some result) = ok result

  unfoldable pub is_descendant_of : InodeId → InodeId → Action Bool
  is_descendant_of ancestor_ino child_ino = do
    result ← descent rounds ancestor_ino [] child_ino
    lift (verdict result)
