-- ===== src/Meta/Ancestors.antt =====
-- The walk of `IsDescendantOf`: that it ends, and what it finds.
mod Visits
use sword_fs.Prelude.{
  ℕ, zero, suc, ◌+◌, ◌≤◌, ◌<◌, Bool, true, false, ◌||◌, ◌==◌, ==_iff, ==_refl, if◌then◌else◌,
  Option, none, some, List, [], ◌∷◌, length, Elem, ◌≡◌, ◌≢◌, ◌↔◌, refl, sym, ap, ◌∙◌, subst, ◌⊎◌,
  inl, inr, arith, Bool-cases,
}
use sword_fs.Status.{Result, ok, err, Code, Result-cases}
use sword_fs.Prelude.Text.{Text}
use sword_fs.Inode.{InodeId, Inode}
use sword_fs.Meta.{Host, Queue, Action, found, inode, lift, return, continue, ◌>>=◌}
use sword_fs.Meta.Acts.{continue-eq-ok, lift-eq-ok, return-eq-ok, read-eq-ok, answer_result-eq-ok}
use sword_fs.Meta.Inodes.{lookup_inode}
use sword_fs.Meta.Descent.{
  is_among, Round, at_end, in_cycle, at_ancestor, reads, round_of, descent, rounds, verdict,
  is_descendant_of,
}
use sword_fs.Meta.Ancestors.Visits.{unvisited, unvisited-length, unvisited_drop, round-cases}

module _ (host : Host) where
  -- The record of an inode is there and can be read.
  pub IsStored : InodeId → Inode → Type 0
  IsStored ino node = lookup_inode host ino [] ≡ ok (node, [])

  -- The directories on the way to the root: the inode itself, and those above its parent.
  pub data IsBelow (ancestor_ino : InodeId) : InodeId → Type 0 where
    here : IsBelow ancestor_ino ancestor_ino
    up :
        {ino : InodeId} (node : Inode)
        → IsStored ino node
        → ino ≢ 0
        → node.parent_ino ≢ ino
        → IsBelow ancestor_ino node.parent_ino
        → IsBelow ancestor_ino ino

  pub lookup_inode-eq-ok :
      (ino : InodeId) (queue : Queue) {node : Inode} {after : Queue}
      → lookup_inode host ino queue ≡ ok (node, after)
      → (queue ≡ [])
        × IsStored ino node
        × ((text : Text) × (host.get_answer (inode ino) ≡ found text))
        × (after ≡ [])
  unfolding lookup_inode IsStored
  lookup_inode-eq-ok ino queue {node} {after} ended =
      let (text, middle, answered, e) = continue-eq-ok _ _ ended in
      let (empty, given, kept) = read-eq-ok (host.get_answer (inode ino)) queue answered in
      let (parsed, left) = lift-eq-ok _ e in
      (
        empty,
        subst (λ q. lookup_inode host ino q ≡ ok (node, [])) empty
            (ended ∙ ap (λ a. ok (node, a)) (left ∙ kept)),
        (text, answer_result-eq-ok (host.get_answer (inode ino)) given),
        left ∙ kept,
      )

  pub lookup_inode-keeps :
      (ino : InodeId) (queue : Queue) {node : Inode} {after : Queue}
      → lookup_inode host ino queue ≡ ok (node, after)
      → after ≡ queue
  lookup_inode-keeps ino queue looked_up =
      let (empty, _, _, kept) = lookup_inode-eq-ok ino queue looked_up in kept ∙ sym empty

  -- Where a walk has gone on from an inode that is not the ancestor.
  module _ (ancestor_ino : InodeId) where
    walk_on : ℕ → List InodeId → InodeId → Inode → Action (Option Bool)
    walk_on fuel visited current_ino node = elim (node.parent_ino == current_ino) [
      | true ↦ return (some false)
      | false ↦ descent host fuel ancestor_ino (current_ino ∷ visited) node.parent_ino
    ]

    descent_reads :
        (fuel : ℕ) (visited : List InodeId) (current_ino : InodeId) (queue : Queue)
        → round_of ancestor_ino visited current_ino ≡ reads
        → descent host (suc fuel) ancestor_ino visited current_ino queue
          ≡ continue (lookup_inode host current_ino queue) (walk_on fuel visited current_ino)
    unfolding descent walk_on
    descent_reads fuel visited current_ino queue e = rw (descent, e)

    -- A round that reads has gone on at the parent, or has ended at the root.
    descent_reads_inv :
        (fuel : ℕ) (visited : List InodeId) (current_ino : InodeId) (queue : Queue)
        {result : Option Bool} {after : Queue}
        → round_of ancestor_ino visited current_ino ≡ reads
        → descent host (suc fuel) ancestor_ino visited current_ino queue ≡ ok (result, after)
        → (node : Inode) × IsStored current_ino node
          × ((text : Text) × (host.get_answer (inode current_ino) ≡ found text))
          × (((node.parent_ino ≡ current_ino) × (result ≡ some false))
              ⊎ ((node.parent_ino ≢ current_ino)
                  × (descent host fuel ancestor_ino (current_ino ∷ visited) node.parent_ino []
                      ≡ ok (result, after))))
    unfolding walk_on
    descent_reads_inv fuel visited current_ino queue e ended =
        let (node, middle, looked_up, e1) =
          continue-eq-ok (lookup_inode host current_ino queue) (walk_on fuel visited current_ino)
            (sym (descent_reads fuel visited current_ino queue e) ∙ ended) in
        let (_, stored, text, kept) = lookup_inode-eq-ok current_ino queue looked_up in
        let e2 = rw kept at e1 in
        (
          node,
          stored,
          text,
          elim (Bool-cases (node.parent_ino == current_ino)) [
            | inl root ↦ inl (
              (==_iff node.parent_ino current_ino).0 root,
              (return-eq-ok _ [] (rw (walk_on, root) at e2)).0,
            )
            | inr below ↦ inr (
              λ same. (let hit = (==_iff node.parent_ino current_ino).1 same in cc),
              rw (walk_on, below) at e2,
            )
          ],
        )

    -- The number of rounds, above those that the unvisited stored inodes need.
    descent_ends :
        ((ino : InodeId) (text : Text)
          → host.get_answer (inode ino) ≡ found text
          → is_among ino host.stored_inodes ≡ true)
        → (fuel : ℕ) (visited : List InodeId) (current_ino : InodeId) (queue after : Queue)
        → suc (unvisited visited host.stored_inodes) ≤ fuel
        → descent host fuel ancestor_ino visited current_ino queue ≢ ok (none, after)
    unfolding descent
    descent_ends covers zero visited current_ino queue after enough = λ ended. absurd (omega arith)
    descent_ends covers (suc fuel) visited current_ino queue after enough = λ ended.
        elim (round-cases ancestor_ino visited current_ino) [
          | inl (e, _) ↦ let given = return-eq-ok _ queue (rw (descent, e) at ended) in cc
          | inr (inl e) ↦ let given = lift-eq-ok _ (rw (descent, e) at ended) in cc
          | inr (inr (inl (e, _))) ↦
              let given = return-eq-ok _ queue (rw (descent, e) at ended) in cc
          | inr (inr (inr (e, fresh, _, _))) ↦
              let (node, stored, (text, answered), gone_on) =
                descent_reads_inv fuel visited current_ino queue e ended in
              elim gone_on [
                | inl (root, same) ↦ cc
                | inr (below, later) ↦
                    descent_ends covers fuel (current_ino ∷ visited) node.parent_ino [] after
                      (omega (
                        arith,
                        unvisited_drop current_ino visited host.stored_inodes
                            (covers current_ino text answered) fresh,
                      ))
                      later
              ]
        ]

    -- What a walk that ends has found, before the visited inodes: the ancestor is met or not.
    descent-IsBelow :
        (fuel : ℕ) (visited : List InodeId) (current_ino : InodeId) (queue after : Queue)
        → descent host fuel ancestor_ino visited current_ino queue ≡ ok (some true, after)
        → IsBelow ancestor_ino current_ino
    unfolding descent
    descent-IsBelow zero visited current_ino queue after ended =
        let given = return-eq-ok none queue ended in absurd cc
    descent-IsBelow (suc fuel) visited current_ino queue after ended =
        elim (round-cases ancestor_ino visited current_ino) [
          | inl (e, _) ↦ let given = return-eq-ok _ queue (rw (descent, e) at ended) in absurd cc
          | inr (inl e) ↦ let given = lift-eq-ok _ (rw (descent, e) at ended) in absurd cc
          | inr (inr (inl (e, same))) ↦ subst (IsBelow ancestor_ino) (sym same) here
          | inr (inr (inr (e, _, _, nonzero))) ↦
              let (node, stored, _, gone_on) =
                descent_reads_inv fuel visited current_ino queue e ended in
              elim gone_on [
                | inl (root, same) ↦ absurd cc
                | inr (below, later) ↦
                    up node stored nonzero below
                      (descent-IsBelow fuel (current_ino ∷ visited) node.parent_ino [] after later)
              ]
        ]

    IsStored_unique : (ino : InodeId) (a b : Inode) → IsStored ino a → IsStored ino b → a ≡ b
    unfolding IsStored
    IsStored_unique ino a b left right = cc

    descent-misses :
        (fuel : ℕ) (visited : List InodeId) {current_ino : InodeId} (queue after : Queue)
        → ancestor_ino ≢ 0
        → IsBelow ancestor_ino current_ino
        → descent host fuel ancestor_ino visited current_ino queue ≢ ok (some false, after)
    unfolding descent
    descent-misses zero visited queue after nonzero below =
        λ ended. let given = return-eq-ok none queue ended in cc
    descent-misses (suc fuel) visited queue after nonzero here = λ ended.
        elim (round-cases ancestor_ino visited ancestor_ino) [
          | inl (_, same) ↦ nonzero same
          | inr (inl e) ↦ let given = lift-eq-ok _ (rw (descent, e) at ended) in cc
          | inr (inr (inl (e, _))) ↦
              let given = return-eq-ok _ queue (rw (descent, e) at ended) in cc
          | inr (inr (inr (_, _, apart, _))) ↦ apart refl
        ]
    descent-misses (suc fuel) visited {current_ino} queue after nonzero
          (up node stored named parted above) =
        λ ended. elim (round-cases ancestor_ino visited current_ino) [
          | inl (_, same) ↦ named same
          | inr (inl e) ↦ let given = lift-eq-ok _ (rw (descent, e) at ended) in cc
          | inr (inr (inl (e, _))) ↦
              let given = return-eq-ok _ queue (rw (descent, e) at ended) in cc
          | inr (inr (inr (e, _, _, _))) ↦
              let (found_node, found_stored, _, gone_on) =
                descent_reads_inv fuel visited current_ino queue e ended in
              let one = IsStored_unique current_ino found_node node found_stored stored in
              elim gone_on [
                | inl (root, same) ↦ parted (ap (λ n. n.parent_ino) (sym one) ∙ root)
                | inr (below, later) ↦
                    descent-misses fuel (current_ino ∷ visited) [] after nonzero above (
                      subst
                        (λ n.
                          descent host fuel ancestor_ino (current_ino ∷ visited) n.parent_ino []
                          ≡ ok (some false, after))
                        one later)
              ]
        ]

  verdict-eq-ok :
      (walked : Option Bool) {result : Bool}
      → verdict host walked ≡ ok result
      → walked ≡ some result
  verdict-eq-ok none given = cc
  verdict-eq-ok (some result) given = cc

  -- Where every stored inode is on the host's list of them, the rounds that `IsDescendantOf` has, one
  -- more than the list is long at most, are enough: the walk ends at the ancestor, at the root, or
  -- with an error.
  pub descent_total :
      ((ino : InodeId) (text : Text)
        → host.get_answer (inode ino) ≡ found text
        → is_among ino host.stored_inodes ≡ true)
      → (ancestor_ino child_ino : InodeId) (queue after : Queue)
      → (rounds host ≤ length host.stored_inodes + 1)
        × (descent host (rounds host) ancestor_ino [] child_ino queue ≢ ok (none, after))
  descent_total covers ancestor_ino child_ino queue after = (
    omega arith,
    descent_ends ancestor_ino covers (rounds host) [] child_ino queue after
        (omega (arith, unvisited-length [] host.stored_inodes)),
  )

  -- Where `IsDescendantOf` succeeds for an ancestor other than 0, its result is whether the ancestor
  -- is the child itself or stands above it, on the way over the stored parents.
  pub is_descendant_of-IsBelow :
      (ancestor_ino child_ino : InodeId) (queue : Queue) {result : Bool} {after : Queue}
      → ancestor_ino ≢ 0
      → is_descendant_of host ancestor_ino child_ino queue ≡ ok (result, after)
      → (result ≡ true) ↔ IsBelow ancestor_ino child_ino
  unfolding is_descendant_of
  is_descendant_of-IsBelow ancestor_ino child_ino queue {result} {after} nonzero ended_well =
      let (walked, middle, e, rest) =
        continue-eq-ok (descent host (rounds host) ancestor_ino [] child_ino queue) _ ended_well in
      let (given, _) = lift-eq-ok (verdict host walked) rest in
      let same : walked ≡ some result = verdict-eq-ok walked given in
      (
        λ yes_true.
            descent-IsBelow ancestor_ino (rounds host) [] child_ino queue middle
              (e ∙ ap (λ w. ok (w, middle)) (same ∙ ap some yes_true)),
        λ below. elim (Bool-cases result) [
          | inl hit ↦ hit
          | inr miss ↦ absurd (
              descent-misses ancestor_ino (rounds host) [] queue middle nonzero below
                (e ∙ ap (λ w. ok (w, middle)) (same ∙ ap some miss)))
        ],
      )
