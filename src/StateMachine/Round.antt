-- ===== src/StateMachine/Round.antt =====
-- anonbcast/statemachine.go: the methods of `RoundInfo` that the handlers share, and what a handler
-- can do. A handler that indexes a slice out of range panics; `Outcome` tells that apart from the
-- results that it returns.
use eggscrambler.Base.{
  ℕ, suc, Bool, true, false, Option, none, some, List, [], ◌∷◌, ◌==◌, if◌then◌else◌,
}
use eggscrambler.Crypto.Bytes.{Msg, PrivateKey, msg_is_nil, key_is_nil}
use eggscrambler.StateMachine.Types.{Phase, Uuid, RoundInfo}

-- What a handler does: it panics, returns false having changed nothing, returns true with the round
-- info changed, or returns true having also ended the round (`sm.Round++`, `sm.initRound`).
pub data Outcome (C : Type 0) : Type 0 where
  panic : Outcome C
  ignored : Outcome C
  updated : RoundInfo C → Outcome C
  ended : RoundInfo C → Outcome C

-- Whether a phase is the given one.
abbrev pub phase_eq : Phase → Phase → Bool
phase_eq Phase.unset Phase.unset = true
phase_eq Phase.prepare Phase.prepare = true
phase_eq Phase.submit Phase.submit = true
phase_eq Phase.encrypt Phase.encrypt = true
phase_eq Phase.scramble Phase.scramble = true
phase_eq Phase.decrypt Phase.decrypt = true
phase_eq Phase.reveal Phase.reveal = true
phase_eq Phase.done Phase.done = true
phase_eq Phase.failed Phase.failed = true
phase_eq _ _ = false

-- The loop of `participantIndex`; `none` is its error.
unfoldable pub index_of : Uuid → List Uuid → Option ℕ
index_of id [] = none
index_of id (p ∷ ps) =
    if p == id then some 0 else elim (index_of id ps) [ none ↦ none | some i ↦ some (suc i) ]

-- The loop of `numEncrypted`, `numScrambled` and `numDecrypted`.
unfoldable pub count_true : List Bool → ℕ
count_true [] = 0
count_true (true ∷ bs) = suc (count_true bs)
count_true (false ∷ bs) = count_true bs

-- Whether a message, or a key, is still missing: the loops that end `message` and `reveal`.
unfoldable pub any_msg_nil : List Msg → Bool
any_msg_nil [] = false
any_msg_nil (x ∷ xs) = if msg_is_nil x then true else any_msg_nil xs

unfoldable pub any_key_nil : List PrivateKey → Bool
any_key_nil [] = false
any_key_nil (k ∷ ks) = if key_is_nil k then true else any_key_nil ks

module _ {C : Type 0} where
  abbrev pub participant_index : RoundInfo C → Uuid → Option ℕ
  participant_index ri id = index_of id ri.participants
