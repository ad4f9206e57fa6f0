-- ===== src/Client/Work.antt =====
-- How much of a round is left to do, from the phase of encryption on.
use eggscrambler.Base.{
  ℕ, zero, suc, ◌+◌, ◌-◌, ◌<◌, ◌≡◌, refl, if◌then◌else◌, true, false, some, List, [], ◌∷◌, length,
  get_elem?, set, arith, inl, inr, Bool-cases,
}
use eggscrambler.Crypto.Bytes.{PrivateKey, key_is_nil}
use eggscrambler.StateMachine.Types.{Phase}
use eggscrambler.StateMachine.Round.{count_true, any_key_nil}
use eggscrambler.Client.Steps.{Info}

-- The keys that are not revealed yet.
unfoldable pub missing : List PrivateKey → ℕ
missing [] = 0
missing (k ∷ ks) = let n = missing ks in if key_is_nil k then suc n else n

pub missing-set :
    (ks : List PrivateKey) (i : ℕ) (k k' : PrivateKey)
    → get_elem? ks i ≡ some k
    → key_is_nil k ≡ true
    → key_is_nil k' ≡ false
    → missing ks ≡ suc (missing (set ks i k'))
unfolding missing
missing-set [] i k k' g n n' = ground arith
missing-set (x ∷ ks) zero k k' g n n' = ground arith
missing-set (x ∷ ks) (suc i) k k' g n n' = ground (arith, missing-set ks i k k' g n n')

pub any_key_nil-missing : (ks : List PrivateKey) → any_key_nil ks ≡ false → missing ks ≡ 0
unfolding missing any_key_nil
any_key_nil-missing [] h = refl
any_key_nil-missing (k ∷ ks) h = ground (arith, any_key_nil-missing ks)

pub missing-any_key_nil : (ks : List PrivateKey) → missing ks ≡ 0 → any_key_nil ks ≡ false
unfolding missing any_key_nil
missing-any_key_nil [] h = refl
missing-any_key_nil (k ∷ ks) h = ground (arith, missing-any_key_nil ks)

pub first_missing :
    (ks : List PrivateKey)
    → 0 < missing ks
    → (i : ℕ) × (k : PrivateKey) × (get_elem? ks i ≡ some k)
      × (key_is_nil k ≡ true)
      × (i < length ks)
unfolding missing
first_missing [] h = absurd (omega arith)
first_missing (k ∷ ks) h = elim (Bool-cases (key_is_nil k)) [
  | inl e ↦ (0, k, refl, e, omega arith)
  | inr e ↦
      let (i, k', g, n, lt) = first_missing ks (ground arith) in (suc i, k', g, n, omega arith)
]

-- What is left to do from the phase of encryption to the end of a round.
abbrev pub work : Info → ℕ
work ri =
    let n = length ri.participants in
    n
    - count_true ri.encrypted
    + (n - count_true ri.scrambled)
    + (n - count_true ri.decrypted)
    + missing ri.revealed_keys

-- Before the phase of revelation no key is revealed, and in it one is missing.
abbrev pub KeysPending : Info → Phase → Type 0
KeysPending ri Phase.encrypt = missing ri.revealed_keys ≡ length ri.revealed_keys
KeysPending ri Phase.scramble = missing ri.revealed_keys ≡ length ri.revealed_keys
KeysPending ri Phase.decrypt = missing ri.revealed_keys ≡ length ri.revealed_keys
KeysPending ri Phase.reveal = 0 < missing ri.revealed_keys
KeysPending ri _ = Unit

-- The phases in which the clients take turns.
abbrev pub IsWorking : Phase → Type 0
IsWorking Phase.encrypt = Unit
IsWorking Phase.scramble = Unit
IsWorking Phase.decrypt = Unit
IsWorking Phase.reveal = Unit
IsWorking _ = ⊥
