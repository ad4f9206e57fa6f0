-- ===== src/StateMachine/Copy.antt =====
-- anonbcast/statemachine.go: `DeepCopy`. The copy's slices have one entry for each participant, and a
-- slice that is longer makes the loop that fills its copy index out of range: `none` is that panic.
use eggscrambler.Base.{
  ℕ, ◌+◌, ◌≤◌, ◌<◌, ◌≡◌, refl, false, Option, none, some, List, [], ◌∷◌, ◌++◌, ap, arith, inl, inr,
  Option-cases, length, write, set, take, drop, replicate, length-replicate, length-set,
}
use mathlib.Core.List.{append_assoc}
use eggscrambler.Crypto.Bytes.{Bytes, nil_msg, nil_private_key}
use eggscrambler.StateMachine.Invariant.{Inv}
use eggscrambler.StateMachine.Types.{RoundInfo, StateMachine}

module _ {ℓ} {A : Type ℓ} where
  -- `for i, x := range xs { dst[i] = x }`, from index `i` on.
  unfoldable pub copy_loop : List A → ℕ → List A → Option (List A)
  copy_loop dst i [] = some dst
  copy_loop dst i (x ∷ xs) = elim (write dst i x) [
    | none ↦ none
    | some dst' ↦ copy_loop dst' (i + 1) xs
  ]

  -- The builtin `copy`, which stops at the end of the shorter slice.
  unfoldable pub copy_min : List A → List A → List A
  copy_min dst src = take (length dst) src ++ drop (length src) dst

  copy_min_same : (src dst : List A) → length src ≡ length dst → copy_min dst src ≡ src
  unfolding copy_min
  copy_min_same [] [] h = refl
  copy_min_same (x ∷ xs) (y ∷ ys) h = ap (◌∷◌ x) (copy_min_same xs ys (omega arith))
  copy_min_same [] (y ∷ ys) h = absurd (omega arith)
  copy_min_same (x ∷ xs) [] h = absurd (omega arith)

  set-append :
      (pre : List A) (y x : A) (ys : List A) → set (pre ++ y ∷ ys) (length pre) x ≡ pre ++ x ∷ ys
  set-append [] y x ys = refl
  set-append (p ∷ pre) y x ys = ap (◌∷◌ p) (set-append pre y x ys)

  length-pre-lt : (pre : List A) (y : A) (ys : List A) → length pre < length (pre ++ y ∷ ys)
  length-pre-lt [] y ys = omega arith
  length-pre-lt (p ∷ pre) y ys = omega (arith, length-pre-lt pre y ys)

  write-append :
      (pre : List A) (y x : A) (ys : List A)
      → write (pre ++ y ∷ ys) (length pre) x ≡ some (pre ++ x ∷ ys)
  write-append pre y x ys = ground (arith, length-pre-lt pre y ys, set-append pre y x ys)

  length-snoc' : (pre : List A) (x : A) → length (pre ++ x ∷ []) ≡ length pre + 1
  length-snoc' [] x = omega arith
  length-snoc' (p ∷ pre) x = omega (arith, length-snoc' pre x)

  copy_loop_same :
      (pre ys xs : List A)
      → length xs ≡ length ys
      → copy_loop (pre ++ ys) (length pre) xs ≡ some (pre ++ xs)
  unfolding copy_loop
  copy_loop_same pre [] [] h = refl
  copy_loop_same pre (y ∷ ys) (x ∷ xs) h =
      rw (write-append pre y x ys, copy_loop)
        (rw (← append_assoc pre (x ∷ []) ys, ← append_assoc pre (x ∷ []) xs, ← length-snoc' pre x)
          (copy_loop_same (pre ++ x ∷ []) ys xs (omega arith)))
  copy_loop_same pre [] (x ∷ xs) h = absurd (omega arith)
  copy_loop_same pre (y ∷ ys) [] h = absurd (omega arith)

  copy_loop_long :
      (dst : List A) (i : ℕ) (xs : List A)
      → i ≤ length dst
      → length dst < i + length xs
      → copy_loop dst i xs ≡ none
  unfolding copy_loop
  copy_loop_long dst i [] l h = absurd (omega arith)
  copy_loop_long dst i (x ∷ xs) l h = elim (Option-cases (write dst i x)) [
    | inl e ↦ rw (e, copy_loop) refl
    | inr (d, e) ↦
        let len : length d ≡ length dst = ground (arith, length-set dst i x) in
        let room : i < length dst = ground arith in
        rw (e, copy_loop) (copy_loop_long d (i + 1) xs (omega arith) (omega arith))
  ]

-- `for i, x := range xs { dst[i] = x }`
abbrev pub copy_range {ℓ} : {A : Type ℓ} → List A → List A → Option (List A)
copy_range dst xs = copy_loop dst 0 xs

module _ {C : Type 0} where
  -- `RoundInfo.DeepCopy`. The deep copies of a message, a key, a hash and a crypto are equal to them.
  unfoldable pub deep_copy : RoundInfo C → Option (RoundInfo C)
  unfolding copy_min
  deep_copy ri =
      let n = length ri.participants in
      elim (copy_range (replicate n nil_msg) ri.messages) [
        | none ↦ none
        | some ms ↦ elim (copy_range (replicate n nil_private_key) ri.revealed_keys) [
          | none ↦ none
          | some ks ↦ elim (copy_range (replicate n []) ri.reveal_key_hashes) [
            | none ↦ none
            | some hs ↦ some (record {
              phase = ri.phase;
              crypto = ri.crypto;
              participants = copy_min (replicate n 0) ri.participants;
              messages = ms;
              encrypted = copy_min (replicate n false) ri.encrypted;
              scrambled = copy_min (replicate n false) ri.scrambled;
              decrypted = copy_min (replicate n false) ri.decrypted;
              revealed_keys = ks;
              reveal_key_hashes = hs;
            })
          ]
        ]
      ]

  -- `StateMachine.DeepCopy` with the assertions of `checkRep` off, which stand in `deep_copy_checked`:
  -- all three rounds are copied.
  unfoldable pub deep_copy_machine : StateMachine C → Option (StateMachine C)
  deep_copy_machine sm = elim (deep_copy sm.rounds.slot0) [
    | none ↦ none
    | some r0 ↦ elim (deep_copy sm.rounds.slot1) [
      | none ↦ none
      | some r1 ↦ elim (deep_copy sm.rounds.slot2) [
        | none ↦ none
        | some r2 ↦
            some
              (record { round = sm.round; rounds = record { slot0 = r0; slot1 = r1; slot2 = r2 } })
      ]
    ]
  ]

copy_range_same {ℓ} :
    {A : Type ℓ} (z : A) (n : ℕ) (xs : List A)
    → length xs ≡ n
    → copy_range (replicate n z) xs ≡ some xs
copy_range_same z n xs h =
    copy_loop_same [] (replicate n z) xs (omega (arith, length-replicate n z))

module _ {C : Type 0} (ri : RoundInfo C) (v : Inv ri) where
  -- A round whose messages are as many as its participants is copied faithfully.
  pub deep_copy_same : length ri.messages ≡ length ri.participants → deep_copy ri ≡ some ri
  unfolding deep_copy
  deep_copy_same h = ground (
    arith,
    copy_range_same nil_msg (length ri.participants) ri.messages,
    copy_range_same nil_private_key (length ri.participants) ri.revealed_keys,
    copy_range_same {A = Bytes} [] (length ri.participants) ri.reveal_key_hashes,
    copy_min_same ri.participants (replicate (length ri.participants) 0),
    copy_min_same ri.encrypted (replicate (length ri.participants) false),
    copy_min_same ri.scrambled (replicate (length ri.participants) false),
    copy_min_same ri.decrypted (replicate (length ri.participants) false),
    length-replicate {A = ℕ} (length ri.participants) 0,
    length-replicate (length ri.participants) false,
  )

  -- With more messages than participants the copy panics.
  pub deep_copy_panics : length ri.participants < length ri.messages → deep_copy ri ≡ none
  unfolding deep_copy
  deep_copy_panics h =
      let e =
        copy_loop_long (replicate (length ri.participants) nil_msg) 0 ri.messages (omega arith)
          (omega (arith, length-replicate (length ri.participants) nil_msg)) in
      rw (e, deep_copy) refl
