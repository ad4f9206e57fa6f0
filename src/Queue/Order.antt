-- ===== src/Queue/Order.antt =====
-- `compare` is a total preorder: that of the operations' rounds, types and counters.
use eggscrambler.Base.{ℕ, ℤ, pos, ◌≡◌, ◌≢◌, ltb, ltb_ℤ, if◌then◌else◌, arith}
use eggscrambler.StateMachine.Ops.{
  Op, op_round, join_op, start_op, message_op, encrypted_op, scrambled_op, decrypted_op, reveal_op,
  abort_op,
}
use eggscrambler.Queue.Compare.{OpComparison, newer, older, equal, incomparable, op_index, compare}

-- What the age of an operation consists of.
pub record Age : Type 0 where
  pub round : ℤ
  pub index : ℕ
  pub prev : ℤ

module _ {C : Type 0} where
  abbrev prev_of : Op C → ℤ
  prev_of (encrypted_op op) = op.prev
  prev_of (decrypted_op op) = op.prev
  prev_of op = pos 0

  pub age : Op C → Age
  age op = record { round = op_round op; index = op_index op; prev = prev_of op }

unfoldable pub compare_ℤ : ℤ → ℤ → OpComparison
compare_ℤ a b = if ltb_ℤ a b then older else if ltb_ℤ b a then newer else equal

unfoldable pub compare_ℕ : ℕ → ℕ → OpComparison
compare_ℕ a b = if ltb a b then older else if ltb b a then newer else equal

-- The first comparison that decides.
abbrev pub then_by : OpComparison → OpComparison → OpComparison
then_by equal c = c
then_by c _ = c

-- The lexicographic order of ages.
unfoldable pub compare_age : Age → Age → OpComparison
unfolding compare_ℤ compare_ℕ
compare_age a b =
    then_by (compare_ℤ a.round b.round)
      (then_by (compare_ℕ a.index b.index) (compare_ℤ a.prev b.prev))

module _ {C : Type 0} where
  -- `compare` is the lexicographic order on the round, the index of the type and the count that the
  -- operation was prepared for.
  pub compare-eq_age : (a b : Op C) → compare a b ≡ compare_age (age a) (age b)
  unfolding compare compare_age age
  compare-eq_age (join_op a) b = ground arith
  compare-eq_age (start_op a) b = ground arith
  compare-eq_age (message_op a) b = ground arith
  compare-eq_age (encrypted_op a) b = ground arith
  compare-eq_age (scrambled_op a) b = ground arith
  compare-eq_age (decrypted_op a) b = ground arith
  compare-eq_age (reveal_op a) b = ground arith
  compare-eq_age (abort_op a) b = ground arith

-- Two comparisons that answer one another.
abbrev pub opposite : OpComparison → OpComparison
opposite newer = older
opposite older = newer
opposite equal = equal
opposite incomparable = incomparable

-- How the comparisons of `a` with `b`, of `b` with `c` and of `a` with `c` fit together.
abbrev Triangle : (ab bc ac : OpComparison) → Type 0
Triangle equal bc ac = ac ≡ bc
Triangle newer newer ac = ac ≡ newer
Triangle newer equal ac = ac ≡ newer
Triangle older older ac = ac ≡ older
Triangle older equal ac = ac ≡ older
Triangle _ _ ac = Unit

compare_ℤ-Triangle : (a b c : ℤ) → Triangle (compare_ℤ a b) (compare_ℤ b c) (compare_ℤ a c)
unfolding compare_ℤ
compare_ℤ-Triangle a b c = ground arith

compare_ℕ-Triangle : (a b c : ℕ) → Triangle (compare_ℕ a b) (compare_ℕ b c) (compare_ℕ a c)
unfolding compare_ℕ
compare_ℕ-Triangle a b c = ground arith

then_by-Triangle :
    (x y z x' y' z' : OpComparison)
    → Triangle x y z
    → Triangle x' y' z'
    → Triangle (then_by x x') (then_by y y') (then_by z z')
then_by-Triangle x y z x' y' z' p q = ground arith

compare_age-opposite : (a b : Age) → compare_age b a ≡ opposite (compare_age a b)
unfolding compare_age
compare_age-opposite a b = ground arith

compare_age-ne-incomparable : (a b : Age) → compare_age a b ≢ incomparable
unfolding compare_age
compare_age-ne-incomparable a b = ground arith

compare_age-Triangle :
    (a b c : Age) → Triangle (compare_age a b) (compare_age b c) (compare_age a c)
unfolding compare_age
compare_age-Triangle a b c =
    then_by-Triangle _ _ _ _ _ _ (compare_ℤ-Triangle a.round b.round c.round) (
      then_by-Triangle _ _ _ _ _ _ (compare_ℕ-Triangle a.index b.index c.index)
        (compare_ℤ-Triangle a.prev b.prev c.prev))

module _ {C : Type 0} (a b c : Op C) where
  compare-Triangle : Triangle (compare a b) (compare b c) (compare a c)
  compare-Triangle =
      rw (compare-eq_age a b, compare-eq_age b c, compare-eq_age a c)
        (compare_age-Triangle (age a) (age b) (age c))

module _ {C : Type 0} where
  -- `compare` never answers `opIncomparable`, and it answers the opposite if asked the other way round.
  pub compare_total :
      (a b : Op C) → (compare a b ≢ incomparable) × (compare b a ≡ opposite (compare a b))
  compare_total a b =
      rw (compare-eq_age a b, compare-eq_age b a)
        (compare_age-ne-incomparable (age a) (age b), compare_age-opposite (age a) (age b))

  pub compare_self : (a : Op C) → compare a a ≡ equal
  compare_self a = ground (arith, compare_total a a)

  -- Being newer is transitive, also where the second operation is only as new as the third.
  pub newer_trans : (a b c : Op C) → compare a b ≡ newer → compare b c ≢ older → compare a c ≡ newer
  newer_trans a b c h k = ground (arith, compare-Triangle a b c, compare_total b c)

  -- Not being older is transitive.
  pub not_older_trans :
      (a b c : Op C) → compare a b ≢ older → compare b c ≢ older → compare a c ≢ older
  not_older_trans a b c h k =
      ground (arith, compare-Triangle a b c, compare_total b c, compare_total a b)
