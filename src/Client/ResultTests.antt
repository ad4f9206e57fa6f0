-- ===== src/Client/ResultTests.antt =====
-- A round of one client that ends well, over a cipher that leaves messages as they are.
use eggscrambler.Base.{List, ◌⊎◌, ◌≡◌, refl, true, none, some, [], ◌∷◌, ◌++◌, pos, replicate, false}
use eggscrambler.Crypto.Bytes.{Msg, PrivateKey}
use eggscrambler.Crypto.Interface.{CommutativeCrypto, prepared}
use eggscrambler.StateMachine.Types.{StateMachine, Phase, zero_round_info, slot}
use eggscrambler.StateMachine.Machine.{found, get_round_info}
use eggscrambler.Client.Steps.{Info}
use eggscrambler.Client.Results.{
  RoundResult, participates, previous, send_round_result, sent, unchanged, open_all, open_one,
  split_all, verify_round,
}
use eggscrambler.Client.LastUpdate.{
  LastStateMachine, Update, new_last_state_machine, set_all, NoneNewer, IsFrom, set_all-newest,
}
use eggscrambler.Client.Success.{IsVerified, send_round_result-success}

abbrev pub bare : CommutativeCrypto
bare = record {
  prepare_msg = λ b. prepared (record { m = b }) false;
  encrypt = λ k x. x;
  decrypt = λ k x. x;
  extract_msg = λ x. some x.m;
  verify = λ n. true;
}

abbrev plain : Msg
plain = record { m = replicate 8 13 ++ replicate 8 1 ++ 42 ∷ [] }

abbrev last_key : PrivateKey
last_key = record { e = 5 ∷ []; d = 7 ∷ [] }

abbrev done_round : Info
done_round = record {
  phase = Phase.done;
  crypto = some bare;
  participants = 4 ∷ [];
  messages = plain ∷ [];
  encrypted = true ∷ [];
  scrambled = true ∷ [];
  decrypted = true ∷ [];
  revealed_keys = last_key ∷ [];
  reveal_key_hashes = (5 ∷ 7 ∷ []) ∷ [];
}

abbrev after : StateMachine CommutativeCrypto
after = record {
  round = 1;
  rounds = record {
    slot0 = done_round;
    slot1 = record zero_round_info { phase = Phase.prepare };
    slot2 = zero_round_info;
  };
}

abbrev good : RoundResult
good = record { round = pos 0; succeeded = true; messages = (42 ∷ []) ∷ []; malicious_error = none }

good_sent :
    send_round_result (λ b. b) true 4 after 1 ((5 ∷ 7 ∷ []) ∷ []) (pos 0) (plain ∷ []) 1 ≡ sent good
unfolding send_round_result verify_round unchanged open_all open_one split_all get_round_info slot
good_sent = refl

send_round_result-success_example :
    (ri : Info) × (get_round_info after (previous 1) ≡ found ri)
    × (ri.phase ≡ Phase.done)
    × (participates 4 ri.participants ≡ true)
    × (good.malicious_error ≡ none)
    × IsVerified (λ b. b) ri ((5 ∷ 7 ∷ []) ∷ []) (plain ∷ []) 1 ((42 ∷ []) ∷ [])
send_round_result-success_example =
    send_round_result-success (λ b. b) true 4 after 1 ((5 ∷ 7 ∷ []) ∷ []) (pos 0) (plain ∷ []) 1
      good good_sent refl

-- The second of two updates arrives before the first.
abbrev late_first : List (Update CommutativeCrypto)
late_first =
    record { new_sm = after; new_version = pos 1; now = 30 }
    ∷ record { new_sm = after; new_version = pos 0; now = 31 }
    ∷ []

abbrev at_start : LastStateMachine CommutativeCrypto
at_start = new_last_state_machine 20

set_all-newest_example :
    NoneNewer late_first ((set_all late_first at_start).version)
    × (IsFrom late_first ((set_all late_first at_start).sm) ((set_all late_first at_start).version)
        ⊎ (set_all late_first at_start ≡ at_start))
set_all-newest_example = set_all-newest late_first at_start
