-- ===== src/Server/RespChannels.antt =====
-- anonbcast/respchannels.go: channels by two numbers, a Raft term and a log index.
use eggscrambler.Base.{
  ℕ, ◌≡◌, refl, ◌==◌, if◌then◌else◌, Bool, true, ◌&&◌, Option, none, some, List, [], ◌∷◌, ◌++◌,
  arith, length,
}

module _ {ℓ} {A : Type ℓ} where
  -- Reading, assigning and deleting a key of a map.
  unfoldable pub find : ℕ → List (ℕ × A) → Option A
  find i [] = none
  find i ((j, a) ∷ m) = let rest = find i m in if i == j then some a else rest

  unfoldable pub assign : ℕ → A → List (ℕ × A) → List (ℕ × A)
  assign i b [] = (i, b) ∷ []
  assign i b ((j, a) ∷ m) = let rest = assign i b m in if i == j then (j, b) ∷ m else (j, a) ∷ rest

  unfoldable pub delete : ℕ → List (ℕ × A) → List (ℕ × A)
  delete i [] = []
  delete i ((j, a) ∷ m) = let rest = delete i m in if i == j then rest else (j, a) ∷ rest

  pub find-assign :
      (i j : ℕ) (b : A) (m : List (ℕ × A))
      → find i (assign j b m) ≡ (if i == j then some b else find i m)
  unfolding find assign
  find-assign i j b [] = ground arith
  find-assign i j b ((k, a) ∷ m) = ground (arith, find-assign i j b m)

  pub find-delete :
      (i j : ℕ) (m : List (ℕ × A)) → find i (delete j m) ≡ (if i == j then none else find i m)
  unfolding find delete
  find-delete i j [] = ground arith
  find-delete i j ((k, a) ∷ m) = ground (arith, find-delete i j m)

-- A missing map reads as an empty one.
abbrev pub or_empty {ℓ} : {A : Type ℓ} → Option (List A) → List A
or_empty none = []
or_empty (some xs) = xs

module _ {ℓ} {A : Type ℓ} where
  abbrev pub new_resp_channels : List (ℕ × List (ℕ × A))
  new_resp_channels = []

  abbrev pub read_inner : Option (List (ℕ × A)) → ℕ → Option A
  read_inner none j = none
  read_inner (some mm) j = find j mm

  unfoldable pub get : List (ℕ × List (ℕ × A)) → ℕ → ℕ → Option A
  get r i j = read_inner (find i r) j

  -- With the assertion that there is no channel yet; `none` is a panic.
  unfoldable pub create :
      Bool → List (ℕ × List (ℕ × A)) → ℕ → ℕ → A → Option (List (ℕ × List (ℕ × A)))
  unfolding get
  create debug r i j ch =
      let r' = assign i (assign j ch (or_empty (find i r))) r in
      if debug then elim (get r i j) [ none ↦ some r' | some c ↦ none ] else some r'

  -- The entry is deleted, and so is the map of its term if that is empty then; closing a missing
  -- channel is a panic.
  unfoldable pub close : List (ℕ × List (ℕ × A)) → ℕ → ℕ → Option (List (ℕ × List (ℕ × A)))
  unfolding get
  close r i j = elim (get r i j) [
    | none ↦ none
    | some ch ↦
        let mm = delete j (or_empty (find i r)) in
        some (if length mm == 0 then delete i r else assign i mm r)
  ]

  -- The channels that `Clear` closes.
  unfoldable pub values : List (ℕ × A) → List A
  values [] = []
  values ((j, a) ∷ m) = a ∷ values m

  unfoldable pub closed_by_clear : List (ℕ × List (ℕ × A)) → List A
  unfolding values
  closed_by_clear [] = []
  closed_by_clear ((i, mm) ∷ r) = values mm ++ closed_by_clear r

  read_inner-or_empty : (o : Option (List (ℕ × A))) (j : ℕ) → find j (or_empty o) ≡ read_inner o j
  unfolding find
  read_inner-or_empty none j = refl
  read_inner-or_empty (some mm) j = refl

  find_nothing : (j : ℕ) (mm : List (ℕ × A)) → (length mm == 0) ≡ true → find j mm ≡ none
  unfolding find
  find_nothing j [] h = refl
  find_nothing j (x ∷ mm) h = ground arith

  -- If `Create` does not panic, `Get` then gives the new channel at its term and index, and what it
  -- gave before anywhere else.
  pub get-create :
      (debug : Bool) (r r' : List (ℕ × List (ℕ × A))) (i j i' j' : ℕ) (ch : A)
      → create debug r i j ch ≡ some r'
      → get r' i' j' ≡ (if i' == i && (j' == j) then some ch else get r i' j')
  unfolding create get
  get-create debug r r' i j i' j' ch h = ground (
    arith,
    find-assign i' i (assign j ch (or_empty (find i r))) r,
    find-assign j' j ch (or_empty (find i r)),
    read_inner-or_empty (find i r) j',
  )

  -- If `Close` does not panic, `Get` then gives no channel at its term and index, and what it gave
  -- before anywhere else.
  pub get-close :
      (r r' : List (ℕ × List (ℕ × A))) (i j i' j' : ℕ)
      → close r i j ≡ some r'
      → get r' i' j' ≡ (if i' == i && (j' == j) then none else get r i' j')
  unfolding close get
  get-close r r' i j i' j' h =
      let mm = delete j (or_empty (find i r)) in
      ground (
        arith,
        find-assign i' i mm r,
        find-delete i' i r,
        find-delete j' j (or_empty (find i r)),
        find_nothing j' mm,
        read_inner-or_empty (find i r) j',
      )
