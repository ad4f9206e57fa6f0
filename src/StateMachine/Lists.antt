-- ===== src/StateMachine/Lists.antt =====
-- Lemmas on the lists of a round: participants, flags, messages with the hashes of reveal keys.
use eggscrambler.Base.{
  ℕ, zero, suc, ◌≤◌, ◌<◌, ◌≡◌, refl, Bool, true, false, none, some, List, [], ◌∷◌, ◌++◌, ◌==◌,
  length, get_elem?, set, arith, inl, inr, if◌then◌else◌, Option-cases,
}
use eggscrambler.Crypto.Bytes.{Bytes, Msg, msg_is_nil, is_empty}
use eggscrambler.StateMachine.Types.{Uuid}
use eggscrambler.StateMachine.Round.{index_of, count_true, any_msg_nil}

pub index_of-lt-length :
    (id : Uuid) (ps : List Uuid) {i : ℕ} → index_of id ps ≡ some i → i < length ps
unfolding index_of
index_of-lt-length id [] h = ground arith
index_of-lt-length id (p ∷ ps) {i} h = elim (Option-cases (index_of id ps)) [
  | inl e ↦ ground arith
  | inr (j, e) ↦ ground (arith, index_of-lt-length id ps e)
]

pub get_elem?-index_of :
    (id : Uuid) (ps : List Uuid) {i : ℕ} → index_of id ps ≡ some i → get_elem? ps i ≡ some id
unfolding index_of
get_elem?-index_of id [] h = ground arith
get_elem?-index_of id (p ∷ ps) {i} h = elim (Option-cases (index_of id ps)) [
  | inl e ↦ ground arith
  | inr (j, e) ↦ ground (arith, get_elem?-index_of id ps e)
]

-- No participant stands twice.
abbrev pub Distinct : List Uuid → Type 0
Distinct [] = Unit
Distinct (p ∷ ps) = (index_of p ps ≡ none) × Distinct ps

pub index_of-append_ne :
    (q id : Uuid) (ps : List Uuid)
    → (id == q) ≡ false
    → index_of q ps ≡ none
    → index_of q (ps ++ id ∷ []) ≡ none
unfolding index_of
index_of-append_ne q id [] h e = ground arith
index_of-append_ne q id (p ∷ ps) h e = elim (Option-cases (index_of q ps)) [
  | inl f ↦ ground (arith, index_of-append_ne q id ps h f)
  | inr (j, f) ↦ ground arith
]

pub Distinct-append :
    (id : Uuid) (ps : List Uuid) → index_of id ps ≡ none → Distinct ps → Distinct (ps ++ id ∷ [])
unfolding index_of
Distinct-append id [] h d = (refl, tt)
Distinct-append id (p ∷ ps) h d = elim (Option-cases (index_of id ps)) [
  | inl f ↦ (index_of-append_ne p id ps (ground arith) d.0, Distinct-append id ps f d.1)
  | inr (j, f) ↦ ground arith
]

pub count_true-le-length : (bs : List Bool) → count_true bs ≤ length bs
unfolding count_true
count_true-le-length [] = omega arith
count_true-le-length (true ∷ bs) = omega (arith, count_true-le-length bs)
count_true-le-length (false ∷ bs) = omega (arith, count_true-le-length bs)

pub count_true-append_false : (bs : List Bool) → count_true (bs ++ false ∷ []) ≡ count_true bs
unfolding count_true
count_true-append_false [] = refl
count_true-append_false (true ∷ bs) = omega (arith, count_true-append_false bs)
count_true-append_false (false ∷ bs) = count_true-append_false bs

pub count_true-set :
    (bs : List Bool) (i : ℕ)
    → get_elem? bs i ≡ some false
    → count_true (set bs i true) ≡ suc (count_true bs)
unfolding count_true
count_true-set [] i h = ground arith
count_true-set (true ∷ bs) zero h = ground arith
count_true-set (false ∷ bs) zero h = refl
count_true-set (true ∷ bs) (suc i) h = omega (arith, count_true-set bs i h)
count_true-set (false ∷ bs) (suc i) h = count_true-set bs i h

-- The flags that are set are the first ones.
abbrev pub Grows : List Bool → Type 0
Grows [] = Unit
Grows (true ∷ bs) = Grows bs
Grows (false ∷ bs) = count_true bs ≡ 0

pub Grows-of_zero : (bs : List Bool) → count_true bs ≡ 0 → Grows bs
unfolding count_true
Grows-of_zero [] h = tt
Grows-of_zero (true ∷ bs) h = absurd (omega arith)
Grows-of_zero (false ∷ bs) h = h

pub get_elem?-count_true :
    (bs : List Bool)
    → Grows bs
    → count_true bs < length bs
    → get_elem? bs (count_true bs) ≡ some false
unfolding count_true
get_elem?-count_true [] g h = absurd (omega arith)
get_elem?-count_true (true ∷ bs) g h = get_elem?-count_true bs g (omega arith)
get_elem?-count_true (false ∷ bs) g h = ground arith

pub Grows-set :
    (bs : List Bool) → Grows bs → count_true bs < length bs → Grows (set bs (count_true bs) true)
unfolding count_true
Grows-set [] g h = tt
Grows-set (true ∷ bs) g h = Grows-set bs g (omega arith)
Grows-set (false ∷ bs) g h = let e : count_true bs ≡ 0 = g in rw e (Grows-of_zero bs e)

-- A message and the hash of its sender's reveal key are there together, or neither is.
abbrev pub Paired : List Msg → List Bytes → Type 0
Paired [] [] = Unit
Paired (x ∷ xs) (h ∷ hs) = (msg_is_nil x ≡ is_empty h) × Paired xs hs
Paired _ _ = ⊥

unfoldable pub any_empty : List Bytes → Bool
any_empty [] = false
any_empty (h ∷ hs) = if is_empty h then true else any_empty hs

pub Paired-append :
    (xs : List Msg) (hs : List Bytes) (x : Msg) (h : Bytes)
    → msg_is_nil x ≡ is_empty h
    → Paired xs hs
    → Paired (xs ++ x ∷ []) (hs ++ h ∷ [])
Paired-append [] [] x h e p = (e, tt)
Paired-append (y ∷ xs) (k ∷ hs) x h e p = (p.0, Paired-append xs hs x h e p.1)
Paired-append [] (k ∷ hs) x h e p = absurd p
Paired-append (y ∷ xs) [] x h e p = absurd p

pub Paired-set :
    (xs : List Msg) (hs : List Bytes) (i : ℕ) (x : Msg) (h : Bytes)
    → msg_is_nil x ≡ is_empty h
    → Paired xs hs
    → Paired (set xs i x) (set hs i h)
Paired-set [] [] i x h e p = tt
Paired-set (y ∷ xs) (k ∷ hs) zero x h e p = (e, p.1)
Paired-set (y ∷ xs) (k ∷ hs) (suc i) x h e p = (p.0, Paired-set xs hs i x h e p.1)
Paired-set [] (k ∷ hs) i x h e p = absurd p
Paired-set (y ∷ xs) [] i x h e p = absurd p

pub Paired-full :
    (xs : List Msg) (hs : List Bytes)
    → length xs ≡ length hs
    → any_msg_nil xs ≡ false
    → any_empty hs ≡ false
    → Paired xs hs
unfolding any_msg_nil any_empty
Paired-full [] [] l p q = tt
Paired-full (x ∷ xs) (h ∷ hs) l p q =
    (ground arith, Paired-full xs hs (omega arith) (ground arith) (ground arith))
Paired-full [] (h ∷ hs) l p q = absurd (omega arith)
Paired-full (x ∷ xs) [] l p q = absurd (omega arith)

pub any_empty-any_msg_nil :
    (xs : List Msg) (hs : List Bytes) → Paired xs hs → any_msg_nil xs ≡ any_empty hs
unfolding any_msg_nil any_empty
any_empty-any_msg_nil [] [] p = refl
any_empty-any_msg_nil (x ∷ xs) (h ∷ hs) p = rw (p.0, any_empty-any_msg_nil xs hs p.1)
any_empty-any_msg_nil [] (h ∷ hs) p = absurd p
any_empty-any_msg_nil (x ∷ xs) [] p = absurd p

pub length-Paired : (xs : List Msg) (hs : List Bytes) → Paired xs hs → length xs ≡ length hs
length-Paired [] [] p = refl
length-Paired (x ∷ xs) (h ∷ hs) p = omega (arith, length-Paired xs hs p.1)
length-Paired [] (h ∷ hs) p = absurd p
length-Paired (x ∷ xs) [] p = absurd p
