-- ===== src/Lock/Owners.antt =====
-- When two holders are of one owner.
use sword_fs.Prelude.{ℕ, ◌≡◌, ◌↔◌, ◌∙◌, sym, inl, inr, true, false, arith, Bool-cases, ==_iff}
use sword_fs.Lock.Holders.{Holder, is_owner, same_owner}

module _ (generation kernel_owner : ℕ) (h : Holder) where
  pub owner_iff :
      is_owner generation kernel_owner h ≡ true
      ↔ (h.generation ≡ generation) × (h.kernel_owner ≡ kernel_owner)
  owner_iff = ground (arith, ==_iff h.generation generation, ==_iff h.kernel_owner kernel_owner)

module _ (generation kernel_owner : ℕ) (h k : Holder) where
  pub owner_same :
      is_owner generation kernel_owner h ≡ true
      → is_owner generation kernel_owner k ≡ true
      → same_owner h k ≡ true
  owner_same own mine =
      let (a, b) = (owner_iff generation kernel_owner h).0 own in
      let (c, d) = (owner_iff generation kernel_owner k).0 mine in
      (owner_iff k.generation k.kernel_owner h).1 (a ∙ sym c, b ∙ sym d)

  pub owner_apart :
      is_owner generation kernel_owner h ≡ true
      → is_owner generation kernel_owner k ≡ false
      → same_owner h k ≡ false
  owner_apart own other = elim (Bool-cases (same_owner h k)) [
    | inr apart ↦ apart
    | inl same ↦
        let (a, b) = (owner_iff generation kernel_owner h).0 own in
        let (c, d) = (owner_iff k.generation k.kernel_owner h).0 same in
        let mine = (owner_iff generation kernel_owner k).1 (sym c ∙ a, sym d ∙ b) in absurd (cc)
  ]
