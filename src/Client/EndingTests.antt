-- ===== src/Client/EndingTests.antt =====
-- A round of two clients, and the first updates of a client.
use eggscrambler.Base.{
  ℕ, List, ◌⊎◌, ◌≡◌, ◌+◌, refl, true, false, some, [], ◌∷◌, pos, negsuc, inl, arith,
}
use eggscrambler.Crypto.Bytes.{PrivateKey, nil_private_key}
use eggscrambler.StateMachine.Types.{Phase, zero_round_info}
use eggscrambler.StateMachine.Ops.{encrypted_op}
use eggscrambler.StateMachine.Round.{index_of, count_true}
use eggscrambler.StateMachine.Handlers.{dispatch, encrypted}
use eggscrambler.Client.Steps.{Keys, Info, encrypt_loop}
use eggscrambler.Client.Work.{work, missing}
use eggscrambler.Client.Accepted.{AcceptedTurn}
use eggscrambler.Client.Completion.{InProgress}
use eggscrambler.Client.Updates.{Input, turned, initial_locals, tasks_after}
use eggscrambler.Client.Once.{
  Increasing, rounds_of, scrambles_of, asks_of, reports_of, tasks-Increasing,
}
use eggscrambler.Client.Ending.{Turns, round_progresses, round_completes}
use eggscrambler.Client.ResultTests.{bare}

abbrev key_of : ℕ → PrivateKey
key_of i = record { e = i ∷ []; d = 1 ∷ i ∷ [] }

abbrev keys_of : ℕ → Keys
keys_of i = record { encrypt_key = key_of i; scramble_key = key_of i; reveal_key = key_of i }

abbrev opening_round : Info
opening_round = record {
  phase = Phase.encrypt;
  crypto = some bare;
  participants = 4 ∷ 9 ∷ [];
  messages = record { m = 7 ∷ [] } ∷ record { m = 8 ∷ [] } ∷ [];
  encrypted = false ∷ false ∷ [];
  scrambled = false ∷ false ∷ [];
  decrypted = false ∷ false ∷ [];
  revealed_keys = nil_private_key ∷ nil_private_key ∷ [];
  reveal_key_hashes = [] ∷ [] ∷ [];
}

opening-InProgress : InProgress bare opening_round
unfolding missing count_true index_of
opening-InProgress = record {
  sound = record {
    encrypted_len = refl;
    scrambled_len = refl;
    decrypted_len = refl;
    keys_len = refl;
    hashes_len = refl;
    distinct = (refl, (refl, tt));
    grows = refl;
    progress = (omega arith, refl, refl);
  };
  has_crypto = refl;
  pending = refl;
}

round_completes_example :
    (k : ℕ) × (ri' : Info) × Turns keys_of (λ i xs. xs) (pos 0) k opening_round ri'
    × (ri'.phase ≡ Phase.done)
round_completes_example =
    round_completes keys_of (λ i xs. xs) (pos 0) bare (λ i. refl) opening-InProgress tt

abbrev second_round : Info
second_round = record opening_round { encrypted = false ∷ true ∷ [] }

first_turn : AcceptedTurn keys_of (λ i xs. xs) (pos 0) opening_round second_round
unfolding index_of dispatch encrypted encrypt_loop count_true
first_turn = record {
  id = 9;
  me = 1;
  op = encrypted_op (record {
    id = 9;
    r = pos 0;
    messages = record { m = 7 ∷ [] } ∷ record { m = 8 ∷ [] } ∷ [];
    prev = pos 0;
  });
  place = refl;
  action = refl;
  accepted = inl refl;
}

round_progresses_example :
    (1 + work second_round ≡ work opening_round)
    × ((second_round.phase ≡ Phase.done)
        ⊎ ((ri'' : Info) × AcceptedTurn keys_of (λ i xs. xs) (pos 0) second_round ri''))
round_progresses_example =
    round_progresses keys_of (λ i xs. xs) (pos 0) bare (λ i. refl) opening-InProgress tt
      (Turns.turn first_turn Turns.rest)

abbrev told : Phase → Input
told ph = record {
  active = true;
  leaving = false;
  fresh_keys = keys_of 3;
  sm = record {
    round = 0;
    rounds = record {
      slot0 = record opening_round { phase = ph };
      slot1 = zero_round_info;
      slot2 = zero_round_info;
    };
  };
}

-- The update of the phase of scrambling comes twice.
abbrev some_updates : List Input
some_updates = told Phase.submit ∷ told Phase.scramble ∷ told Phase.scramble ∷ []

tasks-Increasing_example :
    let ts = tasks_after false 4 100 (turned initial_locals []) some_updates in
    Increasing (negsuc 0) (rounds_of scrambles_of ts)
    × Increasing (negsuc 0) (rounds_of asks_of ts)
    × Increasing (negsuc 0) (rounds_of reports_of ts)
tasks-Increasing_example = tasks-Increasing false 4 100 some_updates
