-- ===== src/Apps/Placed.antt =====
-- `resultOrderer` of localconfessions/confessions.go when a result comes.
use eggscrambler.Base.{
  ℕ, zero, suc, ◌+◌, ◌-◌, ◌≡◌, refl, ◌==◌, ltb, if◌then◌else◌, true, false, some, List, [], ◌∷◌,
  ◌++◌, pos, arith, length, get_elem?, set, drop, ◌⊎◌, inl, inr, Bool-cases, length-append,
}
use eggscrambler.Client.Results.{RoundResult}
use eggscrambler.Apps.Orderer.{is_missing, Orderer, grow, ready, get_elem?-grow, get_elem?-beyond}

ready-kept :
    (xs : List RoundResult) (i : ℕ) (x : RoundResult)
    → get_elem? (ready xs) i ≡ some x
    → (get_elem? xs i ≡ some x) × (is_missing x ≡ false)
unfolding ready
ready-kept [] i x h = ground arith
ready-kept (y ∷ xs) zero x h = elim (Bool-cases (is_missing y)) [
  | inl e ↦ absurd (ground (arith, rw e at h))
  | inr e ↦ let same : y ≡ x = ground (arith, rw e at h) in rw (← same) (refl, e)
]
ready-kept (y ∷ xs) (suc i) x h = elim (Bool-cases (is_missing y)) [
  | inl e ↦ absurd (ground (arith, rw e at h))
  | inr e ↦ ready-kept xs i x (rw e at h)
]

ready-edge :
    (xs : List RoundResult) (x : RoundResult)
    → get_elem? xs (length (ready xs)) ≡ some x
    → is_missing x ≡ true
unfolding ready
ready-edge [] x h = ground arith
ready-edge (y ∷ xs) x h = elim (Bool-cases (is_missing y)) [
  | inl e ↦ let same : y ≡ x = ground (arith, rw e at h) in rw (← same) e
  | inr e ↦ ready-edge xs x (rw e at h)
]

get_elem?-drop :
    (a : ℕ) (xs : List RoundResult) (i : ℕ) → get_elem? (drop a xs) i ≡ get_elem? xs (a + i)
get_elem?-drop zero xs i = ground arith
get_elem?-drop (suc a) [] i = refl
get_elem?-drop (suc a) (x ∷ xs) i = ground (arith, get_elem?-drop a xs i)

get_elem?-append :
    (xs ys : List RoundResult) (i : ℕ)
    → get_elem? (xs ++ ys) i
      ≡ (if ltb i (length xs) then get_elem? xs i else get_elem? ys (i - length xs))
get_elem?-append [] ys i = ground arith
get_elem?-append (x ∷ xs) ys zero = ground arith
get_elem?-append (x ∷ xs) ys (suc i) = ground (arith, get_elem?-append xs ys i)

abbrev pub Among : RoundResult → List RoundResult → Type 0
Among x [] = ⊥
Among x (y ∷ ys) = (y ≡ x) ⊎ Among x ys

pub record Good (seen : List RoundResult) (o : Orderer) (sent : List RoundResult) : Type 0 where
  pub slots :
      (i : ℕ) (x : RoundResult)
      → get_elem? o.results i ≡ some x
      → is_missing x ≡ false
      → (x.round ≡ pos i) × Among x seen
  pub heard :
      (r : RoundResult) (n : ℕ)
      → Among r seen
      → r.round ≡ pos n
      → (x : RoundResult) × (get_elem? o.results n ≡ some x) × (is_missing x ≡ false)
  pub edge : (x : RoundResult) → get_elem? o.results o.apply_index ≡ some x → is_missing x ≡ true
  pub count : length sent ≡ o.apply_index
  pub order :
      (i : ℕ) (x : RoundResult) → get_elem? sent i ≡ some x → (x.round ≡ pos i) × Among x seen

module _ (seen : List RoundResult) (o : Orderer) (sent : List RoundResult) (r : RoundResult) (n : ℕ)
    (e : r.round ≡ pos n) (g : Good seen o sent) where
  abbrev placed : List RoundResult
  placed = set (grow n o.results) n r

  placed_slots :
      (i : ℕ) (x : RoundResult)
      → get_elem? placed i ≡ some x
      → is_missing x ≡ false
      → (x.round ≡ pos i) × Among x (r ∷ seen)
  placed_slots i x h k =
      let at = get_elem?-grow n o.results i r in
      elim (Bool-cases (i == n)) [
        | inl b ↦
            let same : r ≡ x = ground (arith, h, b, at) in (ground (arith, same, e, b), inl same)
        | inr b ↦ elim (Bool-cases (ltb i (length o.results))) [
          | inl l ↦ let (f, a) = g.slots i x (ground (arith, h, b, l, at)) k in (f, inr a)
          | inr l ↦ absurd (ground (arith, h, b, l, at, k))
        ]
      ]

  placed_heard :
      (q : RoundResult) (j : ℕ)
      → Among q (r ∷ seen)
      → q.round ≡ pos j
      → (x : RoundResult) × (get_elem? placed j ≡ some x) × (is_missing x ≡ false)
  placed_heard q j a k =
      let at = get_elem?-grow n o.results j r in
      elim (Bool-cases (j == n)) [
        | inl b ↦ (r, ground (arith, b, at), ground (arith, e))
        | inr b ↦ elim a [
          | inl same ↦ absurd (ground (arith, same, e, k, b))
          | inr a' ↦
              let (x, f, there) = g.heard q j a' k in
              (x, ground (arith, f, b, at, get_elem?-beyond o.results j), there)
        ]
      ]

  abbrev passed : List RoundResult
  passed = ready (drop o.apply_index placed)

  placed_edge :
      (x : RoundResult)
      → get_elem? placed (o.apply_index + length passed) ≡ some x
      → is_missing x ≡ true
  placed_edge x h =
      ready-edge (drop o.apply_index placed) x
        (ground (arith, h, get_elem?-drop o.apply_index placed (length passed)))

  placed_order :
      (i : ℕ) (x : RoundResult)
      → get_elem? (sent ++ passed) i ≡ some x
      → (x.round ≡ pos i) × Among x (r ∷ seen)
  placed_order i x h =
      let at = get_elem?-append sent passed i in
      elim (Bool-cases (ltb i (length sent))) [
        | inl l ↦ let (f, a) = g.order i x (ground (arith, h, l, at)) in (f, inr a)
        | inr l ↦
            let j = i - length sent in
            let (f, there) =
              ready-kept (drop o.apply_index placed) j x (ground (arith, h, l, at)) in
            let here : o.apply_index + j ≡ i = ground (arith, l, g.count) in
            placed_slots i x (ground (arith, f, here, get_elem?-drop o.apply_index placed j)) there
      ]

  pub placed-Good :
      Good
        (r ∷ seen)
        (record { results = placed; apply_index = o.apply_index + length passed })
        (sent ++ passed)
  placed-Good = record {
    slots = placed_slots;
    heard = placed_heard;
    edge = placed_edge;
    count = ground (arith, length-append sent passed, g.count);
    order = placed_order;
  }
