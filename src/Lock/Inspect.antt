-- ===== src/Lock/Inspect.antt =====
-- `Inspect`: the holders of an inode as the contract of LockAuthority.hpp shows them.
use sword_fs.Prelude.{
  ℕ, ◌-◌, ◌≤◌, ◌<◌, ◌≡◌, Bool, false, ◌==◌, ==_iff, if◌then◌else◌, List, [], ◌∷◌, map, arith,
  Bool-cases, inl, inr, sym, ap, ◌∙◌,
}
use sword_fs.Prelude.Int.{is_negative}
use sword_fs.Status.{ok}
use sword_fs.Lock.{PosixRange, Interval, infinity, validate_range}
use sword_fs.Lock.Request.{end_of, validate_range_lem}
use sword_fs.Lock.Holders.{Holder, FlockType}

pub record LockHolder : Type 0 where
  pub kernel_owner : ℕ
  pub local_generation : Bool
  pub ranges : List PosixRange
  pub flock : FlockType

unfoldable pub range_of : Interval → PosixRange
range_of x = record {
  start = x.start;
  length = if x.end == infinity then 0 else x.end - x.start;
  mode = x.mode;
  pid = x.pid;
}

unfoldable pub inspect : ℕ → List Holder → List LockHolder
unfolding range_of
inspect generation [] = []
inspect generation (holder ∷ rest) =
    record {
      kernel_owner = holder.kernel_owner;
      local_generation = holder.generation == generation;
      ranges = map range_of holder.ranges;
      flock = holder.flock;
    }
    ∷ inspect generation rest

end_of-range_of : (x : Interval) → x.start < x.end → end_of (range_of x) ≡ x.end
unfolding range_of
end_of-range_of x h = elim (Bool-cases (x.end == infinity)) [
  | inl whole ↦ rw whole (sym ((==_iff x.end infinity).0 whole))
  | inr part ↦ rw part (ground arith)
]

-- The range that is shown for an interval, nonempty, that ends at an offset or at infinity and whose
-- process number is not negative, is the request for that interval.
pub validate_range-range_of :
    (x : Interval)
    → x.start < x.end
    → x.end ≤ infinity
    → is_negative x.pid ≡ false
    → validate_range (range_of x) ≡ ok x
unfolding range_of
validate_range-range_of x h k signed =
    let same : end_of (range_of x) ≡ x.end = end_of-range_of x h in
    elim (validate_range_lem (range_of x) (omega arith)) [
      | inl (a, b, c, accepted) ↦ accepted ∙ ap (λ e. ok (record x { end = e })) same
      | inr (inl negative, refused) ↦ absurd (cc)
      | inr (inr (inl empty), refused) ↦ absurd (omega arith)
      | inr (inr (inr beyond), refused) ↦ absurd (omega arith)
    ]
