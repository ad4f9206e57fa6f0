-- ===== src/StateMachine/Types.antt =====
-- The data of anonbcast/statemachine.go. `C` is the type of the values behind the interface
-- `CommutativeCrypto`; a nil interface value is `none`.
use eggscrambler.Base.{ℕ, Bool, Option, none, List, [], ◌==◌, ◌%◌, if◌then◌else◌}
use eggscrambler.Crypto.Bytes.{Bytes, Msg, PrivateKey}

-- `unset` is the empty string, the zero value of an array slot that no round has used.
pub data Phase : Type 0 where
  unset prepare submit encrypt scramble decrypt reveal done failed : Phase

-- A 16-byte identifier, compared only for equality.
abbrev pub Uuid : Type 0
Uuid = ℕ

abbrev pub num_rounds_persisted : ℕ
num_rounds_persisted = 3

pub record RoundInfo (C : Type 0) : Type 0 where
  pub phase : Phase
  pub crypto : Option C
  pub participants : List Uuid
  pub messages : List Msg
  pub encrypted : List Bool
  pub scrambled : List Bool
  pub decrypted : List Bool
  pub revealed_keys : List PrivateKey
  pub reveal_key_hashes : List Bytes

-- The Go array `[NumRoundsPersisted]RoundInfo`.
pub record Slots (C : Type 0) : Type 0 where
  pub slot0 : RoundInfo C
  pub slot1 : RoundInfo C
  pub slot2 : RoundInfo C

-- `Round` starts at 0 and only grows, so it is a natural number; the round numbers of operations
-- are integers.
pub record StateMachine (C : Type 0) : Type 0 where
  pub round : ℕ
  pub rounds : Slots C

module _ {C : Type 0} where
  -- `RoundInfo{}`
  abbrev pub zero_round_info : RoundInfo C
  zero_round_info = record {
    phase = Phase.unset;
    crypto = none;
    participants = [];
    messages = [];
    encrypted = [];
    scrambled = [];
    decrypted = [];
    revealed_keys = [];
    reveal_key_hashes = [];
  }

  -- `&sm.Rounds[round%NumRoundsPersisted]`, read and written.
  unfoldable pub slot : Slots C → ℕ → RoundInfo C
  slot s r =
      if r % num_rounds_persisted == 0
      then s.slot0
      else if r % num_rounds_persisted == 1
      then s.slot1
      else s.slot2

  unfoldable pub put_slot : Slots C → ℕ → RoundInfo C → Slots C
  put_slot s r ri =
      if r % num_rounds_persisted == 0
      then record s { slot0 = ri }
      else if r % num_rounds_persisted == 1
      then record s { slot1 = ri }
      else record s { slot2 = ri }
