-- ===== src/Client/Success.antt =====
-- `sendRoundResult` of anonbcast/client.go: a result that says that the round succeeded.
use eggscrambler.Base.{
  ℕ, ◌≡◌, refl, ◌==◌, ◌||◌, Bool, true, false, none, List, [], ◌∷◌, arith, ℤ, length, Bool-cases,
  inl, inr, ◌==ℤ◌, ◌⊎◌,
}
use eggscrambler.Crypto.Bytes.{Bytes, Msg}
use eggscrambler.Crypto.Interface.{CommutativeCrypto}
use eggscrambler.StateMachine.Types.{StateMachine, Uuid, Phase}
use eggscrambler.StateMachine.Round.{phase_eq}
use eggscrambler.StateMachine.Machine.{
  Lookup, found, from_future, negative, too_old, get_round_info,
}
use eggscrambler.Client.Steps.{Info}
use eggscrambler.Client.Results.{
  Report, sent, RoundResult, Check, passes, faults, crashes, then_check, unchanged, open_all,
  split_all, no_duplicates, verify_round, report, participates, round_report, previous,
  send_round_result, assert_report,
}
use eggscrambler.Client.Verdicts.{
  then_check-passes, SameMsgs, unchanged-SameMsgs, HashesMatch, open_all-HashesMatch, OpensTo,
  open_all-OpensTo, AllHeaded, AllDistinct, headers_of, contents_of, checked-contents,
}

report-passes :
    (round : ℤ) (ok : Bool) (o : Check (List Bytes)) (r : RoundResult)
    → report round ok o ≡ sent r
    → r.succeeded ≡ true
    → (ok ≡ true) × (o ≡ passes r.messages) × (r.malicious_error ≡ none)
report-passes round ok crashes r e s = ground arith
report-passes round ok (faults f) r e s = ground arith
report-passes round ok (passes ms) r e s = ground arith

assert_report-sent :
    (debug ok : Bool) (p : Report) (r : RoundResult)
    → assert_report debug ok p ≡ sent r
    → p ≡ sent r
assert_report-sent true true p r e = e
assert_report-sent true false p r e = ground arith
assert_report-sent false ok p r e = e

no_result :
    (debug : Bool) (r : RoundResult)
    → assert_report debug false (assert_report debug false Report.skipped) ≡ sent r
    → ⊥
no_result true r e = ground arith
no_result false r e = ground arith

Lookup-cases :
    (l : Lookup CommutativeCrypto)
    → ((ri : Info) × (l ≡ found ri)) ⊎ ((l ≡ from_future) ⊎ ((l ≡ negative) ⊎ (l ≡ too_old)))
Lookup-cases (found ri) = inl (ri, refl)
Lookup-cases from_future = inr (inl refl)
Lookup-cases negative = inr (inr (inl refl))
Lookup-cases too_old = inr (inr (inr refl))

module _ (sum256 : Bytes → Bytes) where
  -- What the checks of a round establish.
  pub record IsVerified (ri : Info) (hashes : List Bytes) (before : List Msg) (n : ℕ)
      (ms : List Bytes) : Type 0 where
    pub count : length ri.messages ≡ n
    pub same : SameMsgs ri.messages before
    pub keys : (n ≡ 0) ⊎ HashesMatch sum256 ri.revealed_keys hashes
    pub plaintexts : List Bytes
    pub opens : OpensTo ri.crypto ri.revealed_keys ri.messages plaintexts
    pub headed : AllHeaded plaintexts
    pub distinct : AllDistinct (headers_of plaintexts)
    pub contents : ms ≡ contents_of plaintexts

  keys_checked :
      (ri : Info) (hashes : List Bytes) (xs : List Msg) (bs : List Bytes)
      → open_all sum256 ri.crypto ri.revealed_keys hashes xs ≡ passes bs
      → (length xs ≡ 0) ⊎ HashesMatch sum256 ri.revealed_keys hashes
  keys_checked ri hashes [] bs e = inl refl
  keys_checked ri hashes (x ∷ xs) bs e =
      inr (open_all-HashesMatch sum256 ri.crypto ri.revealed_keys hashes x xs bs e)

  verify_round-IsVerified :
      (ri : Info) (hashes : List Bytes) (before : List Msg) (n : ℕ) (ms : List Bytes)
      → verify_round sum256 ri hashes before n ≡ passes ms
      → IsVerified ri hashes before n ms
  unfolding verify_round
  verify_round-IsVerified ri hashes before n ms e = elim (Bool-cases (length ri.messages == n)) [
    | inr ne ↦ ground (arith, rw ne at e)
    | inl eq ↦
        let count : length ri.messages ≡ n = ground arith in
        let (u, same, rest) =
          then_check-passes (unchanged ri.messages before)
            (λ u.
              then_check (open_all sum256 ri.crypto ri.revealed_keys hashes ri.messages)
                (λ bs. then_check (split_all bs) no_duplicates))
            ms (rw eq at e) in
        let (bs, opened, rest') =
          then_check-passes (open_all sum256 ri.crypto ri.revealed_keys hashes ri.messages)
            (λ bs. then_check (split_all bs) no_duplicates) ms rest in
        let (headed, distinct, contents) = checked-contents bs ms rest' in
        record {
          count = count;
          same = unchanged-SameMsgs ri.messages before same;
          keys = rw count at (keys_checked ri hashes ri.messages bs opened);
          plaintexts = bs;
          opens = open_all-OpensTo sum256 ri.crypto ri.revealed_keys hashes ri.messages bs opened;
          headed = headed;
          distinct = distinct;
          contents = contents;
        }
  ]

  round_report-success :
      (debug : Bool) (id : Uuid) (round : ℤ) (ri : Info) (hashes : List Bytes) (hashes_round : ℤ)
      (before : List Msg) (n : ℕ) (r : RoundResult)
      → round_report sum256 debug id round ri hashes hashes_round before n ≡ sent r
      → r.succeeded ≡ true
      → (ri.phase ≡ Phase.done)
        × (participates id ri.participants ≡ true)
        × (r.malicious_error ≡ none)
        × IsVerified ri hashes before n r.messages
  round_report-success debug id round ri hashes hashes_round before n r e s =
      let ok = phase_eq ri.phase Phase.done in
      let failed = phase_eq ri.phase Phase.failed in
      let inner = report round ok (verify_round sum256 ri hashes before n) in
      let e1 = assert_report-sent debug (ok || failed) _ r e in
      elim (Bool-cases (participates id ri.participants)) [
        | inr absent ↦ ground (arith, rw absent at e1)
        | inl took_part ↦
            let e2 = (rw took_part at e1) in
            elim (Bool-cases failed) [
              | inl f ↦ ground (arith, rw f at e2)
              | inr f ↦
                  let e3 = assert_report-sent debug (hashes_round ==ℤ round) inner r (rw f at e2) in
                  let (d, v, m) =
                    report-passes round ok (verify_round sum256 ri hashes before n) r e3 s in
                  (
                    ground arith,
                    took_part,
                    m,
                    verify_round-IsVerified ri hashes before n r.messages v,
                  )
            ]
      ]

  -- If the call sends a result that says that the round succeeded, then the previous round is known to
  -- the state machine, it is done, the client took part, no malice is reported, there are as many
  -- messages as when the client scrambled, the same as when it revealed its key, all revealed keys
  -- have the announced hashes or there are no messages. Taking the layers of the revealed keys off
  -- the messages gives plaintexts that all begin with a header of 16 bytes, the first eight of them
  -- 13; the result lists the contents behind the headers that are not empty, in order, and the headers
  -- of these are pairwise different.
  pub send_round_result-success :
      (debug : Bool) (id : Uuid) (sm : StateMachine CommutativeCrypto) (round : ℕ)
      (hashes : List Bytes) (hashes_round : ℤ) (before : List Msg) (n : ℕ) (r : RoundResult)
      → send_round_result sum256 debug id sm round hashes hashes_round before n ≡ sent r
      → r.succeeded ≡ true
      → (ri : Info) × (get_round_info sm (previous round) ≡ found ri)
        × (ri.phase ≡ Phase.done)
        × (participates id ri.participants ≡ true)
        × (r.malicious_error ≡ none)
        × IsVerified ri hashes before n r.messages
  unfolding send_round_result
  send_round_result-success debug id sm round hashes hashes_round before n r e s =
      elim (Lookup-cases (get_round_info sm (previous round))) [
        | inl (ri, f) ↦
            let (d, p, m, v) =
              round_report-success debug id (previous round) ri hashes hashes_round before n r
                (rw (f, send_round_result) at e) s in
            (ri, f, d, p, m, v)
        | inr (inl f) ↦ elim (no_result debug r (rw (f, send_round_result) at e)) [ ]
        | inr (inr (inl f)) ↦ elim (no_result debug r (rw (f, send_round_result) at e)) [ ]
        | inr (inr (inr f)) ↦ elim (no_result debug r (rw (f, send_round_result) at e)) [ ]
      ]
