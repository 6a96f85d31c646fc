-- ===== src/Acl/Order.antt =====
-- What the order that `Validate` demands says of a list: which entries it must have.
use sword_fs.Prelude.{
  ℕ, ◌≡◌, refl, sym, ap, ◌∙◌, ◌⊎◌, inl, inr, Bool, true, false, not, ◌&&◌, ◌||◌, ◌==◌, ==_iff,
  if◌then◌else◌, List, [], ◌∷◌, some, arith, Bool-cases,
}
use sword_fs.Status.{ok, err, Code, fail_if, fail_if-eq-ok, >>-eq-ok, >>=-eq-ok, ok_injective}
use sword_fs.Acl.{
  AclEntry, State, same_state, Progress, check_entry, place_entry, validate_entries, validate,
  start_progress, find, user_obj_tag, user_tag, group_obj_tag, group_tag, mask_tag, other_tag,
}

-- One step of the state machine, by the tag of the entry.
pub data Move : State → ℕ → State → Type 0 where
  user_obj : Move State.user_obj user_obj_tag State.users
  user : Move State.users user_tag State.users
  group_obj : Move State.users group_obj_tag State.groups
  group : Move State.groups group_tag State.groups
  mask : Move State.groups mask_tag State.other
  other : Move State.groups other_tag State.done
  last : Move State.other other_tag State.done

same_state-eq : (a b : State) → same_state a b ≡ true → a ≡ b
same_state-eq State.user_obj b e = ground arith
same_state-eq State.users b e = ground arith
same_state-eq State.group_obj b e = ground arith
same_state-eq State.groups b e = ground arith
same_state-eq State.mask b e = ground arith
same_state-eq State.other b e = ground arith
same_state-eq State.done b e = ground arith

accept :
    (test : Bool) (next : Progress) {q : Progress}
    → (if test then ok next else err Code.invalid_argument) ≡ ok q
    → (test ≡ true) × (q ≡ next)
accept true next e = (refl, sym (ok_injective e))
accept false next e = absurd (cc)

both : (a b : Bool) → (a && b) ≡ true → a ≡ true
both a b e = ground arith

either : (a b : Bool) → (a || b) ≡ true → (a ≡ true) ⊎ (b ≡ true)
either a b e = ground arith

-- The step under the equations that a branch of the code knows.
step : {s s' r r' : State} {t t' : ℕ} → Move s' t' r' → s ≡ s' → t ≡ t' → r ≡ r' → Move s t r
step m e f g = rw (e, f, g) m

move :
    (p : Progress) (entry : AclEntry) {q : Progress}
    → place_entry p entry ≡ ok q
    → Move p.state entry.tag q.state
unfolding place_entry
move p entry e = elim (Bool-cases (entry.tag == user_obj_tag)) [
  | inl t ↦
      let (at, same) = accept _ _ (rw t at e) in
      step Move.user_obj (same_state-eq p.state _ at) ((==_iff entry.tag user_obj_tag).0 t)
        (ap (λ x. x.state) same)
  | inr n1 ↦ elim (Bool-cases (entry.tag == user_tag)) [
    | inl t ↦
        let (at, same) = accept _ _ (rw (n1, t) at e) in
        let here = both _ _ at in
        step Move.user (same_state-eq p.state _ here) ((==_iff entry.tag user_tag).0 t)
          (ap (λ x. x.state) same ∙ same_state-eq p.state _ here)
    | inr n2 ↦ elim (Bool-cases (entry.tag == group_obj_tag)) [
      | inl t ↦
          let (at, same) = accept _ _ (rw (n1, n2, t) at e) in
          step Move.group_obj (same_state-eq p.state _ at) ((==_iff entry.tag group_obj_tag).0 t)
            (ap (λ x. x.state) same)
      | inr n3 ↦ elim (Bool-cases (entry.tag == group_tag)) [
        | inl t ↦
            let (at, same) = accept _ _ (rw (n1, n2, n3, t) at e) in
            let here = both _ _ at in
            step Move.group (same_state-eq p.state _ here) ((==_iff entry.tag group_tag).0 t)
              (ap (λ x. x.state) same ∙ same_state-eq p.state _ here)
        | inr n4 ↦ elim (Bool-cases (entry.tag == mask_tag)) [
          | inl t ↦
              let (at, same) = accept _ _ (rw (n1, n2, n3, n4, t) at e) in
              step Move.mask (same_state-eq p.state _ at) ((==_iff entry.tag mask_tag).0 t)
                (ap (λ x. x.state) same)
          | inr n5 ↦ elim (Bool-cases (entry.tag == other_tag)) [
            | inl t ↦
                let (at, same) = accept _ _ (rw (n1, n2, n3, n4, n5, t) at e) in
                elim (either _ _ at) [
                  | inl a ↦
                      step Move.other (same_state-eq p.state _ a) ((==_iff entry.tag other_tag).0 t)
                        (ap (λ x. x.state) same)
                  | inr a ↦
                      step Move.last (same_state-eq p.state _ a) ((==_iff entry.tag other_tag).0 t)
                        (ap (λ x. x.state) same)
                ]
            | inr n6 ↦ let refused = rw (n1, n2, n3, n4, n5, n6) at e in absurd (cc)
          ]
        ]
      ]
    ]
  ]
]

-- The list has an entry of a tag.
abbrev pub Has : ℕ → List AclEntry → Type 0
Has tag entries = (found : AclEntry) × (find tag entries ≡ some found)

Has-head :
    (tag : ℕ) (entry : AclEntry) (rest : List AclEntry) → entry.tag ≡ tag → Has tag (entry ∷ rest)
unfolding find
Has-head tag entry rest e = (entry, rw ((==_iff entry.tag tag).1 e))

Has-tail :
    (tag : ℕ) (entry : AclEntry) (rest : List AclEntry) → Has tag rest → Has tag (entry ∷ rest)
unfolding find
Has-tail tag entry rest h = elim (Bool-cases (entry.tag == tag)) [
  | inl here ↦ (entry, rw here)
  | inr beyond ↦ (h.0, rw beyond h.1)
]

pub validate_step :
    (p : Progress) (entry : AclEntry) (rest : List AclEntry) {q : Progress}
    → validate_entries p (entry ∷ rest) ≡ ok q
    → (check_entry entry ≡ ok tt)
      × ((next : Progress) × (place_entry p entry ≡ ok next) × (validate_entries next rest ≡ ok q))
unfolding validate_entries
validate_step p entry rest e =
    let (checked, behind) = >>-eq-ok (check_entry entry) _ e in
    (checked, >>=-eq-ok (place_entry p entry) _ behind)

pub validate_cons :
    (p next : Progress) (entry : AclEntry) (rest : List AclEntry) {q : Progress}
    → check_entry entry ≡ ok tt
    → place_entry p entry ≡ ok next
    → validate_entries next rest ≡ ok q
    → validate_entries p (entry ∷ rest) ≡ ok q
unfolding validate_entries
validate_cons p next entry rest checked placed later = rw (checked, placed) later

validate_end : (p : Progress) {q : Progress} → validate_entries p [] ≡ ok q → p ≡ q
unfolding validate_entries
validate_end p e = ok_injective e

-- From a state on, a list that is accepted has the entries that the state still wants.
abbrev Wants : State → List AclEntry → Type 0
Wants State.user_obj entries =
    Has user_obj_tag entries × Has group_obj_tag entries × Has other_tag entries
Wants State.users entries = Has group_obj_tag entries × Has other_tag entries
Wants State.groups entries = Has other_tag entries
Wants State.other entries = Has other_tag entries
Wants _ entries = Unit {0}

Wants-of_tail :
    (s r : State) (entry : AclEntry) (rest : List AclEntry) {tag : ℕ}
    → entry.tag ≡ tag
    → Move s tag r
    → Wants r rest
    → Wants s (entry ∷ rest)
Wants-of_tail s r entry rest e Move.user_obj w = (
  Has-head user_obj_tag entry rest e,
  Has-tail group_obj_tag entry rest w.0,
  Has-tail other_tag entry rest w.1,
)
Wants-of_tail s r entry rest e Move.user w =
    (Has-tail group_obj_tag entry rest w.0, Has-tail other_tag entry rest w.1)
Wants-of_tail s r entry rest e Move.group_obj w =
    (Has-head group_obj_tag entry rest e, Has-tail other_tag entry rest w)
Wants-of_tail s r entry rest e Move.group w = Has-tail other_tag entry rest w
Wants-of_tail s r entry rest e Move.mask w = Has-tail other_tag entry rest w
Wants-of_tail s r entry rest e Move.other w = Has-head other_tag entry rest e
Wants-of_tail s r entry rest e Move.last w = Has-head other_tag entry rest e

validate_entries-Wants :
    (entries : List AclEntry) (p : Progress) {q : Progress}
    → validate_entries p entries ≡ ok q
    → q.state ≡ State.done
    → Wants p.state entries
validate_entries-Wants [] p e d = rw (ap (λ x. x.state) (validate_end p e) ∙ d) tt
validate_entries-Wants (entry ∷ rest) p e d =
    let (checked, step) = validate_step p entry rest e in
    let (next, placed, later) = step in
    Wants-of_tail p.state next.state entry rest refl (move p entry placed)
      (validate_entries-Wants rest next later d)

pub validate_inv :
    (entries : List AclEntry)
    → validate entries ≡ ok tt
    → (q : Progress) × (validate_entries start_progress entries ≡ ok q) × (q.state ≡ State.done)
unfolding validate
validate_inv entries e =
    let (sized, behind) = >>-eq-ok (fail_if _ Code.invalid_argument) _ e in
    let (q, walked, rest) = >>=-eq-ok (validate_entries start_progress entries) _ behind in
    let (ended, masked) =
      >>-eq-ok (fail_if (not (same_state q.state State.done)) Code.invalid_argument) _ rest in
    (
      q,
      walked,
      same_state-eq q.state State.done (holds _ (fail_if-eq-ok _ Code.invalid_argument ended)),
    )
  where
    holds : (b : Bool) → not b ≡ false → b ≡ true
    holds b e = ground arith

-- A list that is accepted has an entry for the owner, for the owning group and for others.
pub validate-Has :
    (entries : List AclEntry)
    → validate entries ≡ ok tt
    → Has user_obj_tag entries × Has group_obj_tag entries × Has other_tag entries
validate-Has entries e =
    let (q, walked, ended) = validate_inv entries e in
    validate_entries-Wants entries start_progress walked ended
