-- ===== src/Acl/Mode.antt =====
-- `PermissionsMode` and `ApplyMode`: the nine permission bits of a mode and a list.
use sword_fs.Prelude.{
  ℕ, ◌/◌, ◌%◌, ◌^◌, ◌≡◌, ◌≤◌, refl, sym, ap, ◌∙◌, ◌⊎◌, inl, inr, false, ◌==◌, ==_iff, if◌then◌else◌,
  List, [], ◌∷◌, some, arith, Bool-cases, Option-cases, length,
}
use sword_fs.Status.{ok}
use sword_fs.Acl.{
  AclEntry, Progress, check_entry, place_entry, validate_entries, validate, start_progress, find,
  set_perm, apply_mode, permissions_mode, group_class_tag, perm_of, user_obj_tag, group_obj_tag,
  mask_tag, other_tag,
}
use sword_fs.Acl.Order.{Has, validate-Has, validate_step, validate_cons, validate_inv}

group_class_tag_cons :
    (entry : AclEntry) (rest : List AclEntry)
    → group_class_tag (entry ∷ rest)
      ≡ (if entry.tag == mask_tag then mask_tag else group_class_tag rest)
unfolding group_class_tag find
group_class_tag_cons entry rest = elim (Bool-cases (entry.tag == mask_tag)) [
  | inl m ↦ rw (m, group_class_tag)
  | inr n ↦ rw (n, group_class_tag)
]

module _ (tag perm : ℕ) where
  find_same :
      (entries : List AclEntry)
      → Has tag entries
      → perm_of (find tag (set_perm tag perm entries)) ≡ some perm
  unfolding find set_perm
  find_same [] h = absurd (cc (h.1))
  find_same (entry ∷ rest) h = elim (Bool-cases (entry.tag == tag)) [
    | inl here ↦ rw (here, here)
    | inr beyond ↦ rw (beyond, beyond) (find_same rest (h.0, rw beyond at h.1))
  ]

  find_apart :
      (other : ℕ) (entries : List AclEntry)
      → (tag == other) ≡ false
      → find other (set_perm tag perm entries) ≡ find other entries
  unfolding find set_perm
  find_apart other [] e = refl
  find_apart other (entry ∷ rest) e = elim (Bool-cases (entry.tag == tag)) [
    | inl here ↦ rw (here, (==_iff entry.tag tag).0 here, e)
    | inr beyond ↦ rw (beyond, find_apart other rest e)
  ]

  group_class_tag-set_perm :
      (entries : List AclEntry)
      → group_class_tag (set_perm tag perm entries) ≡ group_class_tag entries
  unfolding set_perm
  group_class_tag-set_perm [] = refl
  group_class_tag-set_perm (entry ∷ rest) = elim (Bool-cases (entry.tag == tag)) [
    | inl here ↦ rw here (
        group_class_tag_cons (record entry { perm = perm }) rest
        ∙ sym (group_class_tag_cons entry rest))
    | inr beyond ↦ rw beyond (
        group_class_tag_cons entry (set_perm tag perm rest)
        ∙ ap (λ c. if entry.tag == mask_tag then mask_tag else c) (group_class_tag-set_perm rest)
        ∙ sym (group_class_tag_cons entry rest))
  ]

  Has-set_perm :
      (other : ℕ) (entries : List AclEntry)
      → Has other entries
      → Has other (set_perm tag perm entries)
  unfolding find set_perm
  Has-set_perm other [] h = h
  Has-set_perm other (entry ∷ rest) h = elim (Bool-cases (entry.tag == tag)) [
    | inl here ↦ elim (Bool-cases (entry.tag == other)) [
      | inl found ↦ (record entry { perm = perm }, rw (here, found) refl)
      | inr later ↦ (h.0, rw (here, later) (rw later at h.1))
    ]
    | inr beyond ↦ elim (Bool-cases (entry.tag == other)) [
      | inl found ↦ (entry, rw (beyond, found))
      | inr later ↦
          let there = Has-set_perm other rest (h.0, rw later at h.1) in
          (there.0, rw (beyond, later) there.1)
    ]
  ]

  length-set_perm : (entries : List AclEntry) → length (set_perm tag perm entries) ≡ length entries
  unfolding set_perm
  length-set_perm [] = refl
  length-set_perm (entry ∷ rest) = elim (Bool-cases (entry.tag == tag)) [
    | inl here ↦ rw here
    | inr beyond ↦ rw (beyond, length-set_perm rest)
  ]

  -- A permission below 8 in place of another changes nothing for the validation.
  check_entry-perm :
      (entry : AclEntry)
      → perm ≤ 7
      → check_entry entry ≡ ok tt
      → check_entry (record entry { perm = perm }) ≡ ok tt
  unfolding check_entry
  check_entry-perm entry h e = ground arith

  validate_entries-set_perm :
      (entries : List AclEntry) (p : Progress) {q : Progress}
      → perm ≤ 7
      → validate_entries p entries ≡ ok q
      → validate_entries p (set_perm tag perm entries) ≡ ok q
  unfolding set_perm place_entry
  validate_entries-set_perm [] p h e = e
  validate_entries-set_perm (entry ∷ rest) p {q} h e =
      let (checked, (next, placed, later)) = validate_step p entry rest e in
      elim (Bool-cases (entry.tag == tag)) [
        | inl here ↦ rw here (
            validate_cons p next (record entry { perm = perm }) rest
              (check_entry-perm entry h checked) placed later)
        | inr beyond ↦ rw beyond (
            validate_cons p next entry (set_perm tag perm rest) checked placed
              (validate_entries-set_perm rest next h later))
      ]

  validate-set_perm :
      (entries : List AclEntry)
      → perm ≤ 7
      → validate entries ≡ ok tt
      → validate (set_perm tag perm entries) ≡ ok tt
  unfolding validate
  validate-set_perm entries h e =
      let (q, walked, ended) = validate_inv entries e in
      rw (length-set_perm entries, validate_entries-set_perm entries start_progress h walked)
        (rw walked at e)

group_class_cases :
    (entries : List AclEntry)
    → (group_class_tag entries ≡ group_obj_tag)
      ⊎ ((group_class_tag entries ≡ mask_tag) × Has mask_tag entries)
unfolding group_class_tag
group_class_cases entries = elim (Option-cases (find mask_tag entries)) [
  | inl missing ↦ inl (rw (group_class_tag, missing))
  | inr (mask_entry, there) ↦ inr (rw (group_class_tag, there), (mask_entry, there))
]

-- The entry of the group class is there, and is not the owner's or the others'.
group_class :
    (entries : List AclEntry)
    → Has group_obj_tag entries
    → Has (group_class_tag entries) entries
      × ((group_class_tag entries == user_obj_tag) ≡ false)
      × ((other_tag == group_class_tag entries) ≡ false)
group_class entries h = elim (group_class_cases entries) [
  | inl e ↦ rw e (h, refl, refl)
  | inr (e, there) ↦ rw e (there, refl, refl)
]

module _ (mode : ℕ) (entries : List AclEntry) (valid : validate entries ≡ ok tt) where
  abbrev owner_done : List AclEntry
  owner_done = set_perm user_obj_tag (mode / 2 ^ 6 % 8) entries

  abbrev class_done : List AclEntry
  class_done = set_perm (group_class_tag entries) (mode / 2 ^ 3 % 8) owner_done

  abbrev all_done : List AclEntry
  all_done = set_perm other_tag (mode % 8) class_done

  apply_mode_steps : apply_mode mode entries ≡ all_done
  unfolding apply_mode
  apply_mode_steps = rw (group_class_tag-set_perm user_obj_tag (mode / 2 ^ 6 % 8) entries)

  done_tag : group_class_tag all_done ≡ group_class_tag entries
  done_tag =
      group_class_tag-set_perm other_tag (mode % 8) class_done
      ∙ group_class_tag-set_perm (group_class_tag entries) (mode / 2 ^ 3 % 8) owner_done
      ∙ group_class_tag-set_perm user_obj_tag (mode / 2 ^ 6 % 8) entries

  owner_perm :
      (group_class_tag entries == user_obj_tag) ≡ false
      → Has user_obj_tag entries
      → perm_of (find user_obj_tag all_done) ≡ some (mode / 2 ^ 6 % 8)
  owner_perm apart h =
      ap perm_of (find_apart other_tag (mode % 8) user_obj_tag class_done refl)
      ∙ ap perm_of
          (find_apart (group_class_tag entries) (mode / 2 ^ 3 % 8) user_obj_tag owner_done apart)
      ∙ find_same user_obj_tag (mode / 2 ^ 6 % 8) entries h

  class_perm :
      (other_tag == group_class_tag entries) ≡ false
      → Has (group_class_tag entries) entries
      → perm_of (find (group_class_tag entries) all_done) ≡ some (mode / 2 ^ 3 % 8)
  class_perm apart h =
      ap perm_of (find_apart other_tag (mode % 8) (group_class_tag entries) class_done apart)
      ∙ find_same (group_class_tag entries) (mode / 2 ^ 3 % 8) owner_done
          (Has-set_perm user_obj_tag (mode / 2 ^ 6 % 8) (group_class_tag entries) entries h)

  others_perm : Has other_tag entries → perm_of (find other_tag all_done) ≡ some (mode % 8)
  others_perm h = find_same other_tag (mode % 8) class_done (
      Has-set_perm (group_class_tag entries) (mode / 2 ^ 3 % 8) other_tag owner_done
        (Has-set_perm user_obj_tag (mode / 2 ^ 6 % 8) other_tag entries h))

  -- A change of the mode of an accepted list gives an accepted list, whose permission bits are the
  -- nine lower bits of the new mode; every entry that this reads and writes is there.
  pub permissions_mode-apply_mode :
      (permissions_mode (apply_mode mode entries) ≡ some (mode % 2 ^ 9))
      × (validate (apply_mode mode entries) ≡ ok tt)
  unfolding permissions_mode
  permissions_mode-apply_mode =
      let (has_user, has_group, has_other) = validate-Has entries valid in
      let (has_class, class_apart, other_apart) = group_class entries has_group in
      (
        rw (apply_mode_steps, done_tag)
            (rw
              (
                owner_perm class_apart has_user,
                class_perm other_apart has_class,
                others_perm has_other,
              )
              (ap some (omega arith))),
        rw apply_mode_steps (
            validate-set_perm other_tag (mode % 8) class_done (omega arith) (
              validate-set_perm (group_class_tag entries) (mode / 2 ^ 3 % 8) owner_done
                (omega arith)
                (validate-set_perm user_obj_tag (mode / 2 ^ 6 % 8) entries (omega arith) valid))),
      )
