-- ===== src/Meta/Ancestors/Visits.antt =====
-- One round of the walk of `IsDescendantOf`, and the inodes that it has not visited.
use sword_fs.Prelude.{
  ℕ, suc, ◌≤◌, true, false, ◌==◌, ==_iff, ==_refl, if◌then◌else◌, List, [], ◌∷◌, length, ◌≡◌, ◌≢◌,
  subst, ◌⊎◌, inl, inr, arith, Bool-cases,
}
use sword_fs.Inode.{InodeId}
use sword_fs.Meta.Descent.{is_among, at_end, in_cycle, at_ancestor, reads, round_of}

-- The inodes of a list that are not visited yet.
unfoldable pub unvisited : List ℕ → List ℕ → ℕ
unvisited visited [] = 0
unvisited visited (n ∷ rest) =
    if is_among n visited then unvisited visited rest else suc (unvisited visited rest)

pub unvisited-length : (visited stored : List ℕ) → unvisited visited stored ≤ length stored
unfolding unvisited
unvisited-length visited [] = omega arith
unvisited-length visited (n ∷ rest) = ground (arith, unvisited-length visited rest)

-- One more visited inode leaves no more of them,
unvisited_mono :
    (n : ℕ) (visited stored : List ℕ) → unvisited (n ∷ visited) stored ≤ unvisited visited stored
unfolding unvisited is_among
unvisited_mono n visited [] = omega arith
unvisited_mono n visited (m ∷ rest) = ground (arith, unvisited_mono n visited rest)

unvisited_here :
    (n : ℕ) (visited rest : List ℕ)
    → is_among n visited ≡ false
    → suc (unvisited (n ∷ visited) (n ∷ rest)) ≤ unvisited visited (n ∷ rest)
unfolding unvisited is_among
unvisited_here n visited rest fresh =
    rw (fresh, ==_refl n) (ground (arith, unvisited_mono n visited rest))

-- and one fewer, where it was stored and new.
pub unvisited_drop :
    (n : ℕ) (visited stored : List ℕ)
    → is_among n stored ≡ true
    → is_among n visited ≡ false
    → suc (unvisited (n ∷ visited) stored) ≤ unvisited visited stored
unfolding unvisited is_among
unvisited_drop n visited [] stored_here fresh = cc
unvisited_drop n visited (m ∷ rest) stored_here fresh = elim (Bool-cases (n == m)) [
  | inl same ↦
      subst (λ k. suc (unvisited (n ∷ visited) (k ∷ rest)) ≤ unvisited visited (k ∷ rest))
        ((==_iff n m).0 same) (unvisited_here n visited rest fresh)
  | inr apart ↦ ground (arith, unvisited_drop n visited rest (rw apart at stored_here) fresh)
]

-- How the tests of a round have gone.
pub round-cases :
    (ancestor_ino : InodeId) (visited : List InodeId) (current_ino : InodeId)
    → ((round_of ancestor_ino visited current_ino ≡ at_end) × (current_ino ≡ 0))
      ⊎ ((round_of ancestor_ino visited current_ino ≡ in_cycle)
          ⊎ (((round_of ancestor_ino visited current_ino ≡ at_ancestor)
                × (current_ino ≡ ancestor_ino))
              ⊎ ((round_of ancestor_ino visited current_ino ≡ reads)
                  × (is_among current_ino visited ≡ false)
                  × (current_ino ≢ ancestor_ino)
                  × (current_ino ≢ 0))))
unfolding round_of
round-cases ancestor_ino visited current_ino = elim (Bool-cases (current_ino == 0)) [
  | inl zero_there ↦ inl (rw (round_of, zero_there), (==_iff current_ino 0).0 zero_there)
  | inr nonzero ↦ elim (Bool-cases (is_among current_ino visited)) [
    | inl seen ↦ inr (inl (rw (round_of, nonzero, seen)))
    | inr fresh ↦ elim (Bool-cases (current_ino == ancestor_ino)) [
      | inl at ↦
          inr
            (inr (inl (rw (round_of, nonzero, fresh, at), (==_iff current_ino ancestor_ino).0 at)))
      | inr off ↦ inr (
          inr (
            inr (
              rw (round_of, nonzero, fresh, off),
              fresh,
              λ same. (let hit = (==_iff current_ino ancestor_ino).1 same in cc),
              λ same. (let hit = (==_iff current_ino 0).1 same in cc),
            )))
    ]
  ]
]
