-- ===== src/StateMachine/Tests.antt =====
-- A round of two participants, and the theorems of the state machine at it.
use eggscrambler.Base.{
  ℕ, ◌<◌, ◌≡◌, inr, refl, true, false, none, some, List, [], ◌∷◌, ◌++◌, arith, pos, length,
}
use eggscrambler.Crypto.Bytes.{Msg, PrivateKey, nil_private_key}
use eggscrambler.StateMachine.Types.{
  RoundInfo, StateMachine, Phase, slot, put_slot, zero_round_info,
}
use eggscrambler.StateMachine.Ops.{
  Op, join_op, start_op, message_op, encrypted_op, scrambled_op, decrypted_op, reveal_op, abort_op,
  op_type,
}
use eggscrambler.StateMachine.Round.{count_true, any_key_nil, any_msg_nil, index_of}
use eggscrambler.StateMachine.Handlers.{
  dispatch, join, start, message, encrypted, scrambled, decrypted, reveal, abort,
}
use eggscrambler.StateMachine.Machine.{
  apply, commit, put_current, next_round, new_state_machine, current_round_info, get_round_info,
  found,
}
use eggscrambler.StateMachine.Order.{guaranteed_no_effect}
use eggscrambler.StateMachine.Run.{run, MachineInv, MachineInv-run, new_state_machine-MachineInv}
use eggscrambler.StateMachine.Monotone.{guaranteed_no_effect_sound}
use eggscrambler.StateMachine.History.{get_round_info-run, done_complete}
use eggscrambler.StateMachine.CheckRep.{check_rep_machine}
use eggscrambler.StateMachine.Assertions.{check_rep-run, deep_copy-run, IsLegalLog}
use eggscrambler.StateMachine.Transitions.{Move, view, apply-Move}
use eggscrambler.StateMachine.Copy.{deep_copy_machine}
use eggscrambler.StateMachine.Checked.{run_checked, apply_checked}
use eggscrambler.StateMachine.Debug.{run_checked-new_state_machine}
use eggscrambler.StateMachine.Oversized.{apply_oversized}

program : Unit {0}
unfolding run apply commit put_current next_round new_state_machine current_round_info slot put_slot
    dispatch join start message encrypted scrambled decrypted reveal abort index_of count_true
    any_key_nil any_msg_nil get_round_info
program = tt

abbrev two_msgs : List Msg
two_msgs = record { m = 5 ∷ [] } ∷ record { m = 6 ∷ [] } ∷ []

abbrev some_key : PrivateKey
some_key = record { e = 3 ∷ []; d = 7 ∷ [] }

-- Up to the encrypt phase of round 0; the crypto is the number 23.
abbrev opening : List (Op ℕ)
opening =
    join_op (record { id = 1; r = pos 0 })
    ∷ join_op (record { id = 2; r = pos 0 })
    ∷ start_op (record { id = 1; r = pos 0; crypto = some 23 })
    ∷ message_op
        (record { id = 1; r = pos 0; message = record { m = 5 ∷ [] }; reveal_key_hash = 9 ∷ [] })
    ∷ message_op
        (record { id = 2; r = pos 0; message = record { m = 6 ∷ [] }; reveal_key_hash = 8 ∷ [] })
    ∷ []

-- The rest of the round.
abbrev closing : List (Op ℕ)
closing =
    encrypted_op (record { id = 2; r = pos 0; messages = two_msgs; prev = pos 0 })
    ∷ encrypted_op (record { id = 1; r = pos 0; messages = two_msgs; prev = pos 1 })
    ∷ scrambled_op (record { id = 1; r = pos 0; messages = two_msgs })
    ∷ scrambled_op (record { id = 2; r = pos 0; messages = two_msgs })
    ∷ decrypted_op (record { id = 1; r = pos 0; messages = two_msgs; prev = pos 0 })
    ∷ decrypted_op (record { id = 2; r = pos 0; messages = two_msgs; prev = pos 1 })
    ∷ reveal_op (record { id = 1; r = pos 0; reveal_key = some_key })
    ∷ reveal_op (record { id = 2; r = pos 0; reveal_key = some_key })
    ∷ []

abbrev fresh : RoundInfo ℕ
fresh = record zero_round_info { phase = Phase.prepare }

abbrev submitted : RoundInfo ℕ
submitted = record {
  phase = Phase.encrypt;
  crypto = some 23;
  participants = 1 ∷ 2 ∷ [];
  messages = two_msgs;
  encrypted = false ∷ false ∷ [];
  scrambled = false ∷ false ∷ [];
  decrypted = false ∷ false ∷ [];
  revealed_keys = nil_private_key ∷ nil_private_key ∷ [];
  reveal_key_hashes = (9 ∷ []) ∷ (8 ∷ []) ∷ [];
}

abbrev completed : RoundInfo ℕ
completed = record submitted {
  phase = Phase.done;
  encrypted = true ∷ true ∷ [];
  scrambled = true ∷ true ∷ [];
  decrypted = true ∷ true ∷ [];
  revealed_keys = some_key ∷ some_key ∷ [];
}

abbrev opened : StateMachine ℕ
opened = record {
  round = 0;
  rounds = record { slot0 = submitted; slot1 = zero_round_info; slot2 = zero_round_info };
}

abbrev closed : StateMachine ℕ
closed = record {
  round = 1;
  rounds = record { slot0 = completed; slot1 = fresh; slot2 = zero_round_info };
}

run-opening : run new_state_machine opening ≡ some opened
unfolding program
run-opening = refl

run-closing : run opened closing ≡ some closed
unfolding program
run-closing = refl

run_round : run new_state_machine (opening ++ closing) ≡ some closed
unfolding program
run_round = refl

opened-MachineInv : MachineInv opened
opened-MachineInv =
    MachineInv-run new_state_machine opened opening new_state_machine-MachineInv run-opening

abbrev late_message : Op ℕ
late_message =
    message_op
      (record { id = 1; r = pos 0; message = record { m = 7 ∷ [] }; reveal_key_hash = 9 ∷ [] })

late_message_no_effect : guaranteed_no_effect opened late_message ≡ true
unfolding guaranteed_no_effect current_round_info slot
late_message_no_effect = refl

guaranteed_no_effect_sound_example : apply closed late_message ≡ some (closed, false)
guaranteed_no_effect_sound_example =
    guaranteed_no_effect_sound opened closed closing late_message opened-MachineInv
      late_message_no_effect run-closing

abbrev aborts : List (Op ℕ)
aborts = abort_op (record { r = pos 1 }) ∷ []

abbrev third : StateMachine ℕ
third = record {
  round = 2;
  rounds = record {
    slot0 = completed;
    slot1 = record fresh { phase = Phase.failed };
    slot2 = fresh;
  };
}

run-aborts : run closed aborts ≡ some third
unfolding program
run-aborts = refl

get_round_info-run_example : get_round_info third (pos 0) ≡ get_round_info closed (pos 0)
get_round_info-run_example =
    get_round_info-run closed third aborts 0 run-aborts (omega arith) (omega arith)

found_completed : get_round_info closed (pos 0) ≡ found completed
unfolding program
found_completed = refl

done_complete_example :
    (0 < length completed.participants)
    × (count_true completed.encrypted ≡ length completed.participants)
    × (count_true completed.scrambled ≡ length completed.participants)
    × (count_true completed.decrypted ≡ length completed.participants)
    × (length completed.revealed_keys ≡ length completed.participants)
    × (any_key_nil completed.revealed_keys ≡ false)
done_complete_example =
    done_complete (opening ++ closing) closed 0 completed run_round found_completed refl

opening-IsLegalLog : IsLegalLog new_state_machine opening
unfolding program
opening-IsLegalLog = ((λ e. tt), ((λ e. tt), ((λ e. refl), ((λ e. refl), ((λ e. refl), tt)))))

run_checked-new_state_machine_example :
    (sm : StateMachine ℕ) × (run_checked true new_state_machine opening ≡ some sm)
    × (run new_state_machine opening ≡ some sm)
    × MachineInv sm
run_checked-new_state_machine_example =
    run_checked-new_state_machine true opening (inr opening-IsLegalLog)

-- A start without a crypto is accepted, and then violates an assertion.
abbrev bare_start : List (Op ℕ)
bare_start = start_op (record { id = 1; r = pos 0; crypto = none }) ∷ []

bare_start_checked : run_checked true new_state_machine bare_start ≡ none
unfolding program run_checked apply_checked check_rep_machine
bare_start_checked = refl

check_rep-run_example :
    (sm : StateMachine ℕ) × (run new_state_machine opening ≡ some sm)
    × (check_rep_machine sm ≡ true)
check_rep-run_example = check_rep-run opening opening-IsLegalLog

deep_copy-run_example :
    (sm : StateMachine ℕ) × (run new_state_machine opening ≡ some sm)
    × (deep_copy_machine sm ≡ some sm)
deep_copy-run_example = deep_copy-run opening opening-IsLegalLog

abbrev first_encrypted : Op ℕ
first_encrypted = encrypted_op (record { id = 2; r = pos 0; messages = two_msgs; prev = pos 0 })

abbrev one_encrypted : StateMachine ℕ
one_encrypted = record opened {
  rounds = record {
    slot0 = record submitted { encrypted = false ∷ true ∷ [] };
    slot1 = zero_round_info;
    slot2 = zero_round_info;
  };
}

apply_encrypted : apply opened first_encrypted ≡ some (one_encrypted, true)
unfolding program
apply_encrypted = refl

apply-Move_example : Move (op_type first_encrypted) (view opened) (view one_encrypted)
apply-Move_example = apply-Move opened one_encrypted first_encrypted apply_encrypted

abbrev three_msgs : List Msg
three_msgs = record { m = 4 ∷ [] } ∷ two_msgs

abbrev oversized : Op ℕ
oversized = encrypted_op (record { id = 2; r = pos 0; messages = three_msgs; prev = pos 0 })

abbrev overfull : StateMachine ℕ
overfull = record opened {
  rounds = record {
    slot0 = record submitted { encrypted = false ∷ true ∷ []; messages = three_msgs };
    slot1 = zero_round_info;
    slot2 = zero_round_info;
  };
}

apply_three : apply opened oversized ≡ some (overfull, true)
unfolding program
apply_three = refl

apply_oversized_example : deep_copy_machine overfull ≡ none
unfolding current_round_info slot
apply_oversized_example =
    apply_oversized opened overfull oversized three_msgs opened-MachineInv refl (omega arith)
      apply_three
