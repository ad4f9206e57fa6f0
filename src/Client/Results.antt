-- ===== src/Client/Results.antt =====
-- anonbcast/client.go: `sendRoundResult`, with `Equal` and `HashEquals` of anonbcast/crypto.go.
use eggscrambler.Base.{
  ℕ, zero, suc, ◌==◌, ltb, if◌then◌else◌, ◌||◌, Bool, true, false, Option, none, some, List, [],
  ◌∷◌, ◌++◌, ℤ, pos, negsuc, ◌==ℤ◌, length, take, drop,
}
use eggscrambler.Crypto.Bytes.{Bytes, Msg, PrivateKey}
use eggscrambler.Crypto.Interface.{CommutativeCrypto}
use eggscrambler.StateMachine.Types.{StateMachine, Uuid, Phase, zero_round_info}
use eggscrambler.StateMachine.Round.{phase_eq}
use eggscrambler.StateMachine.Machine.{found, get_round_info}
use eggscrambler.Client.Steps.{Info, crypto_decrypt}

-- Why a round is reported as malicious; the texts of the errors are left out.
pub data Reason : Type 0 where
  failed_after_reveal count_changed messages_changed wrong_hash bad_header duplicate_header : Reason

pub record RoundResult : Type 0 where
  pub round : ℤ
  pub succeeded : Bool
  pub messages : List Bytes
  pub malicious_error : Option Reason

-- What the call does: it panics, returns without a result, or sends one.
pub data Report : Type 0 where
  crash : Report
  skipped : Report
  sent : RoundResult → Report

-- A check panics, finds fault, or passes with a value.
pub data Check (A : Type 0) : Type 0 where
  crashes : Check A
  faults : Reason → Check A
  passes : A → Check A

abbrev pub then_check : {A B : Type 0} → Check A → (A → Check B) → Check B
then_check crashes f = crashes
then_check (faults e) f = faults e
then_check (passes a) f = f a

-- The loop over two slices of one length.
abbrev pub same_bytes : Bytes → Bytes → Bool
same_bytes [] ys = true
same_bytes (x ∷ xs) [] = false
same_bytes (x ∷ xs) (y ∷ ys) = if x == y then same_bytes xs ys else false

-- `Equal`
abbrev pub bytes_equal : Bytes → Bytes → Bool
bytes_equal xs ys = if length xs == length ys then same_bytes xs ys else false

abbrev pub hash_equals : (Bytes → Bytes) → PrivateKey → Bytes → Bool
hash_equals sum256 k hash = bytes_equal (sum256 (k.e ++ k.d)) hash

-- The messages have not changed since the reveal key was submitted.
unfoldable pub unchanged : List Msg → List Msg → Check (Unit {0})
unchanged [] before = passes tt
unchanged (x ∷ xs) [] = crashes
unchanged (x ∷ xs) (y ∷ before) =
    if bytes_equal x.m y.m then unchanged xs before else faults Reason.messages_changed

-- `ri.Crypto.Decrypt` and what comes after it.
abbrev pub with_decrypted : Option Msg → (Msg → Check Bytes) → Check Bytes
with_decrypted none f = crashes
with_decrypted (some x) f = f x

abbrev pub extracted : Option Bytes → Check Bytes
extracted none = crashes
extracted (some b) = passes b

-- `ri.Crypto.ExtractMsg`
abbrev pub crypto_extract : Option CommutativeCrypto → Msg → Check Bytes
crypto_extract none x = crashes
crypto_extract (some c) x = extracted (c.extract_msg x)

module _ (sum256 : Bytes → Bytes) where
  -- The inner loop: each key is checked against its hash, and its layer is taken off.
  unfoldable pub open_one :
      Option CommutativeCrypto → List PrivateKey → List Bytes → Msg → Check Bytes
  open_one c [] hashes x = crypto_extract c x
  open_one c (k ∷ ks) [] x = crashes
  open_one c (k ∷ ks) (h ∷ hashes) x =
      if hash_equals sum256 k h
      then with_decrypted (crypto_decrypt c k x) (open_one c ks hashes)
      else faults Reason.wrong_hash

  unfoldable pub open_all :
      Option CommutativeCrypto → List PrivateKey → List Bytes → List Msg → Check (List Bytes)
  open_all c ks hashes [] = passes []
  open_all c ks hashes (x ∷ xs) =
      then_check (open_one c ks hashes x)
        (λ b. then_check (open_all c ks hashes xs) (λ bs. passes (b ∷ bs)))

-- `messageHeaderLength`
abbrev pub header_length : ℕ
header_length = 16

-- The loop of `verifyHeader`, on a header of 16 bytes.
abbrev pub verify_header : Bytes → Bool
verify_header h = same_bytes (13 ∷ 13 ∷ 13 ∷ 13 ∷ 13 ∷ 13 ∷ 13 ∷ 13 ∷ []) h

-- A header and the message behind it.
abbrev pub Parts : Type 0
Parts = Bytes × Bytes

-- The loop over the plaintexts; one shorter than a header is a slice out of range, and one that is
-- no longer is left out.
unfoldable pub split_all : List Bytes → Check (List Parts)
split_all [] = passes []
split_all (m ∷ ms) =
    if ltb (length m) header_length
    then crashes
    else if verify_header (take header_length m)
    then then_check (split_all ms) (λ ps. passes (
        if ltb header_length (length m)
        then (take header_length m, drop header_length m) ∷ ps
        else ps))
    else faults Reason.bad_header

abbrev pub has_header : Bytes → List Parts → Bool
has_header h [] = false
has_header h ((h', m) ∷ ps) = if same_bytes h h' then true else has_header h ps

-- The two loops over the headers.
abbrev pub duplicated : List Parts → Bool
duplicated [] = false
duplicated ((h, m) ∷ ps) = if has_header h ps then true else duplicated ps

abbrev pub bodies : List Parts → List Bytes
bodies [] = []
bodies ((h, m) ∷ ps) = m ∷ bodies ps

abbrev pub no_duplicates : List Parts → Check (List Bytes)
no_duplicates ps = if duplicated ps then faults Reason.duplicate_header else passes (bodies ps)

abbrev pub report : ℤ → Bool → Check (List Bytes) → Report
report round ok crashes = Report.crash
report round ok (faults e) =
    Report.sent
      (record { round = round; succeeded = false; messages = []; malicious_error = some e })
report round ok (passes ms) =
    Report.sent (record { round = round; succeeded = ok; messages = ms; malicious_error = none })

-- Whether the client took part.
abbrev pub participates : Uuid → List Uuid → Bool
participates id [] = false
participates id (p ∷ ps) = if p == id then true else participates id ps

abbrev pub failed_report : ℤ → Bool → Report
failed_report round revealed = Report.sent (record {
  round = round;
  succeeded = false;
  messages = [];
  malicious_error = if revealed then some Reason.failed_after_reveal else none;
})

-- `assertf`, for a client that runs with assertions or without.
abbrev pub assert_report : Bool → Bool → Report → Report
assert_report debug ok r = if debug then if ok then r else Report.crash else r

-- `round - 1`
abbrev pub previous : ℕ → ℤ
previous zero = negsuc 0
previous (suc r) = pos r

module _ (sum256 : Bytes → Bytes) where
  -- The checks of a round that is done.
  unfoldable pub verify_round : Info → List Bytes → List Msg → ℕ → Check (List Bytes)
  verify_round ri hashes before n =
      if length ri.messages == n
      then then_check (unchanged ri.messages before) (λ u.
        then_check (open_all sum256 ri.crypto ri.revealed_keys hashes ri.messages)
          (λ ms. then_check (split_all ms) no_duplicates))
      else faults Reason.count_changed

  abbrev pub round_report : Bool → Uuid → ℤ → Info → List Bytes → ℤ → List Msg → ℕ → Report
  round_report debug id round ri hashes hashes_round before n =
      assert_report debug (phase_eq ri.phase Phase.done || phase_eq ri.phase Phase.failed) (
        if participates id ri.participants
        then if phase_eq ri.phase Phase.failed
          then failed_report round (hashes_round ==ℤ round)
          else assert_report debug (hashes_round ==ℤ round)
              (report round (phase_eq ri.phase Phase.done) (verify_round ri hashes before n))
        else Report.skipped)

  -- `sendRoundResult`; the value that `GetRoundInfo` returns beside an error is the zero one.
  unfoldable pub send_round_result :
      Bool → Uuid → StateMachine CommutativeCrypto → ℕ → List Bytes → ℤ → List Msg → ℕ → Report
  send_round_result debug id sm round hashes hashes_round before n =
      elim (get_round_info sm (previous round)) [
        | found ri ↦ round_report debug id (previous round) ri hashes hashes_round before n
        | _ ↦
            assert_report debug false
              (round_report debug id (previous round) zero_round_info hashes hashes_round before n)
      ]
