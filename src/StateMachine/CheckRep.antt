-- ===== src/StateMachine/CheckRep.antt =====
-- anonbcast/statemachine.go: the assertions of `checkRep`, as a test.
use eggscrambler.Base.{
  ℕ, zero, suc, ◌+◌, ◌≡◌, refl, Bool, true, false, ◌&&◌, ◌||◌, not, Option, none, some, List, [],
  ◌∷◌, ◌==◌, length, get_elem?, arith, if◌then◌else◌, ◌≢◌, inl, inr, ap, Option-cases,
}
use eggscrambler.Crypto.Bytes.{Bytes, Msg, msg_is_nil, is_empty}
use eggscrambler.StateMachine.Types.{Phase, Uuid, RoundInfo, StateMachine}
use eggscrambler.StateMachine.Round.{phase_eq, index_of, count_true}
use eggscrambler.StateMachine.Lists.{Distinct, Grows, Paired}

-- `scrambled must grow from left to right`: the entry before each one that is set, too, is set.
grows_after : Bool → List Bool → Bool
grows_after before [] = true
grows_after before (s ∷ ss) = (not s || before) && grows_after s ss

pub check_grows : List Bool → Bool
unfolding grows_after
check_grows [] = true
check_grows (s ∷ ss) = grows_after s ss

-- The two loops over the participants, with their indices.
distinct_from : Uuid → ℕ → ℕ → List Uuid → Bool
distinct_from p1 i1 i2 [] = true
distinct_from p1 i1 i2 (p2 ∷ ps) =
    not (p1 == p2 && not (i1 == i2)) && distinct_from p1 i1 (i2 + 1) ps

pub distinct_loop : ℕ → List Uuid → List Uuid → Bool
unfolding distinct_from
distinct_loop i1 [] all = true
distinct_loop i1 (p1 ∷ ps) all = distinct_from p1 i1 0 all && distinct_loop (i1 + 1) ps all

-- The loop over the messages; a hash that is missing would be an index out of range.
pub check_hashes : List Msg → List Bytes → Bool
check_hashes [] hs = true
check_hashes (m ∷ ms) [] = false
check_hashes (m ∷ ms) (h ∷ hs) =
    (if msg_is_nil m then is_empty h else not (is_empty h)) && check_hashes ms hs

abbrev pub is_nil_crypto : {C : Type 0} → Option C → Bool
is_nil_crypto none = true
is_nil_crypto (some c) = false

module _ {C : Type 0} where
  unfoldable pub check_rep : RoundInfo C → Bool
  unfolding check_grows distinct_loop check_hashes
  check_rep ri =
      length ri.participants == length ri.messages
      && length ri.participants == length ri.encrypted
      && length ri.participants == length ri.scrambled
      && length ri.participants == length ri.decrypted
      && length ri.participants == length ri.revealed_keys
      && length ri.participants == length ri.reveal_key_hashes
      && (phase_eq ri.phase Phase.unset
          || phase_eq ri.phase Phase.prepare
          || phase_eq ri.phase Phase.failed
          || not (is_nil_crypto ri.crypto))
      && (not (phase_eq ri.phase Phase.prepare) || is_nil_crypto ri.crypto)
      && check_grows ri.scrambled
      && distinct_loop 0 ri.participants ri.participants
      && check_hashes ri.messages ri.reveal_key_hashes

  -- The test over the three rounds; `Round >= 0` holds of every natural number.
  unfoldable pub check_rep_machine : StateMachine C → Bool
  unfolding check_rep
  check_rep_machine sm =
      check_rep sm.rounds.slot0 && check_rep sm.rounds.slot1 && check_rep sm.rounds.slot2

grows_after_of_zero : (bs : List Bool) → count_true bs ≡ 0 → grows_after false bs ≡ true
unfolding grows_after count_true
grows_after_of_zero [] h = refl
grows_after_of_zero (true ∷ bs) h = absurd (omega arith)
grows_after_of_zero (false ∷ bs) h = grows_after_of_zero bs h

grows_after_of_Grows : (bs : List Bool) → Grows bs → grows_after true bs ≡ true
unfolding grows_after
grows_after_of_Grows [] g = refl
grows_after_of_Grows (true ∷ bs) g = grows_after_of_Grows bs g
grows_after_of_Grows (false ∷ bs) g = grows_after_of_zero bs g

pub check_grows_of_Grows : (bs : List Bool) → Grows bs → check_grows bs ≡ true
unfolding check_grows
check_grows_of_Grows [] g = refl
check_grows_of_Grows (true ∷ bs) g = grows_after_of_Grows bs g
check_grows_of_Grows (false ∷ bs) g = grows_after_of_zero bs g

pub check_hashes_of_Paired :
    (ms : List Msg) (hs : List Bytes) → Paired ms hs → check_hashes ms hs ≡ true
unfolding check_hashes
check_hashes_of_Paired [] hs p = refl
check_hashes_of_Paired (m ∷ ms) [] p = absurd p
check_hashes_of_Paired (m ∷ ms) (h ∷ hs) p = ground (arith, check_hashes_of_Paired ms hs p.1)

get_elem?-absent :
    (ps : List Uuid) (p : Uuid) (i : ℕ) → index_of p ps ≡ none → get_elem? ps i ≢ some p
unfolding index_of
get_elem?-absent [] p i h = λ e. cc
get_elem?-absent (q ∷ ps) p zero h = λ e. ground arith
get_elem?-absent (q ∷ ps) p (suc i) h =
    get_elem?-absent ps p i
      (elim (Option-cases (index_of p ps)) [ inl f ↦ f | inr (j, f) ↦ ground arith ])

-- An index names one participant only.
get_elem?-unique :
    (ps : List Uuid) (p : Uuid) (i j : ℕ)
    → Distinct ps
    → get_elem? ps i ≡ some p
    → get_elem? ps j ≡ some p
    → i ≡ j
get_elem?-unique [] p i j d h k = ground arith
get_elem?-unique (q ∷ ps) p zero zero d h k = refl
get_elem?-unique (q ∷ ps) p zero (suc j) d h k = absurd (get_elem?-absent ps q j d.0 (ground arith))
get_elem?-unique (q ∷ ps) p (suc i) zero d h k = absurd (get_elem?-absent ps q i d.0 (ground arith))
get_elem?-unique (q ∷ ps) p (suc i) (suc j) d h k = ap suc (get_elem?-unique ps p i j d.1 h k)

distinct_from_of_only :
    (p1 : Uuid) (i1 i2 : ℕ) (ps : List Uuid)
    → ((j : ℕ) → get_elem? ps j ≡ some p1 → i2 + j ≡ i1)
    → distinct_from p1 i1 i2 ps ≡ true
unfolding distinct_from
distinct_from_of_only p1 i1 i2 [] f = refl
distinct_from_of_only p1 i1 i2 (p2 ∷ ps) f =
    let rest = distinct_from_of_only p1 i1 (i2 + 1) ps (λ j e. omega (arith, f (suc j) e)) in
    ground (arith, f 0, rest)

distinct_loop_of_Distinct :
    (i1 : ℕ) (ps all : List Uuid)
    → Distinct all
    → ((j : ℕ) (p : Uuid) → get_elem? ps j ≡ some p → get_elem? all (i1 + j) ≡ some p)
    → distinct_loop i1 ps all ≡ true
unfolding distinct_loop
distinct_loop_of_Distinct i1 [] all d f = refl
distinct_loop_of_Distinct i1 (p1 ∷ ps) all d f =
    let here : get_elem? all (i1 + 0) ≡ some p1 = f 0 p1 refl in
    let only =
      distinct_from_of_only p1 i1 0 all
        (λ j e. omega (arith, get_elem?-unique all p1 j (i1 + 0) d e here)) in
    let rest =
      distinct_loop_of_Distinct (i1 + 1) ps all d
        (λ j p e. let q : i1 + 1 + j ≡ i1 + suc j = omega arith in rw q (f (suc j) p e)) in
    ground (arith, only, rest)

pub distinct_loop_self : (ps : List Uuid) → Distinct ps → distinct_loop 0 ps ps ≡ true
distinct_loop_self ps d =
    distinct_loop_of_Distinct 0 ps ps d (λ j p e. let q : 0 + j ≡ j = omega arith in rw q e)
