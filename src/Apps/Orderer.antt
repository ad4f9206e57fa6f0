-- ===== src/Apps/Orderer.antt =====
-- localconfessions/confessions.go: `resultOrderer`, which passes the results of the rounds on in the
-- order of the rounds.
use eggscrambler.Base.{
  append_nothing, ℕ, zero, suc, ◌+◌, ◌-◌, ◌≡◌, refl, ap, ◌==◌, ltb, if◌then◌else◌, Bool, false,
  Option, none, some, List, [], ◌∷◌, ◌++◌, ℤ, pos, negsuc, ◌==ℤ◌, arith, length, get_elem?, set,
  drop, replicate,
}
use eggscrambler.Client.Results.{RoundResult}

-- The place of a round whose result has not come.
abbrev pub missing : RoundResult
missing = record { round = negsuc 0; succeeded = false; messages = []; malicious_error = none }

abbrev pub is_missing : RoundResult → Bool
is_missing r = r.round ==ℤ negsuc 0

pub record Orderer : Type 0 where
  pub results : List RoundResult
  pub apply_index : ℕ

abbrev pub new_orderer : Orderer
new_orderer = record { results = []; apply_index = 0 }

-- The loop that appends until there is a place for the round.
unfoldable pub grow : ℕ → List RoundResult → List RoundResult
grow n xs = xs ++ replicate (suc n - length xs) missing

-- The results that the inner loop passes on.
unfoldable pub ready : List RoundResult → List RoundResult
ready [] = []
ready (x ∷ xs) = let rest = ready xs in if is_missing x then [] else x ∷ rest

-- A result that comes, and what is passed on then. A negative round is an index out of range.
abbrev pub place_result : Orderer → RoundResult → ℤ → Option (Orderer × List RoundResult)
place_result o r (negsuc n) = none
place_result o r (pos n) =
    let results = set (grow n o.results) n r in
    let out = ready (drop o.apply_index results) in
    some (record { results = results; apply_index = o.apply_index + length out }, out)

unfoldable pub on_result : Orderer → RoundResult → Option (Orderer × List RoundResult)
on_result o r = place_result o r r.round

-- All that has been passed on when these results have come.
unfoldable pub run_orderer :
    Orderer → List RoundResult → List RoundResult → Option (List RoundResult)
run_orderer o sent [] = some sent
run_orderer o sent (r ∷ rs) = elim (on_result o r) [
  | none ↦ none
  | some (o', out) ↦ run_orderer o' (sent ++ out) rs
]

grow-cons :
    (n : ℕ) (x : RoundResult) (xs : List RoundResult) → grow (suc n) (x ∷ xs) ≡ x ∷ grow n xs
unfolding grow
grow-cons n x xs =
    let same : suc (suc n) - suc (length xs) ≡ suc n - length xs = omega arith in
    ap (λ (k : ℕ). x ∷ (xs ++ replicate k missing)) same

grow_zero : (x : RoundResult) (xs : List RoundResult) → grow 0 (x ∷ xs) ≡ x ∷ xs
unfolding grow
grow_zero x xs =
    let none_missing : 1 - suc (length xs) ≡ 0 = omega arith in
    rw none_missing (append_nothing (x ∷ xs))

pub get_elem?-beyond :
    (xs : List RoundResult) (i : ℕ) → ltb i (length xs) ≡ false → get_elem? xs i ≡ none
get_elem?-beyond [] i h = refl
get_elem?-beyond (x ∷ xs) zero h = ground arith
get_elem?-beyond (x ∷ xs) (suc i) h = get_elem?-beyond xs i (ground arith)

get_elem?-replicated :
    (n i : ℕ) (r : RoundResult)
    → get_elem? (set (replicate (suc n) missing) n r) i
      ≡ (if i == n then some r else if ltb i n then some missing else none)
get_elem?-replicated zero zero r = ground arith
get_elem?-replicated zero (suc i) r = ground arith
get_elem?-replicated (suc n) zero r = ground arith
get_elem?-replicated (suc n) (suc i) r = ground (arith, get_elem?-replicated n i r)

-- What stands at a place when a result has come.
pub get_elem?-grow :
    (n : ℕ) (xs : List RoundResult) (i : ℕ) (r : RoundResult)
    → get_elem? (set (grow n xs) n r) i ≡ (
        if i == n
        then some r
        else if ltb i (length xs)
        then get_elem? xs i
        else if ltb i n
        then some missing
        else none)
get_elem?-grow n [] i r = unfold grow in ground (arith, get_elem?-replicated n i r)
get_elem?-grow zero (x ∷ xs) zero r = ground (arith, grow_zero x xs)
get_elem?-grow zero (x ∷ xs) (suc i) r = ground (arith, grow_zero x xs, get_elem?-beyond xs i)
get_elem?-grow (suc n) (x ∷ xs) zero r = ground (arith, grow-cons n x xs)
get_elem?-grow (suc n) (x ∷ xs) (suc i) r =
    ground (arith, grow-cons n x xs, get_elem?-grow n xs i r)
