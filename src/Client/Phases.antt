-- ===== src/Client/Phases.antt =====
-- What the loops of anonbcast/client.go make of each message, and the phases of a round in which
-- every client takes its step once.
use eggscrambler.Base.{
  Bool-cases, inl, inr, ℕ, suc, ◌≡◌, refl, ◌==◌, if◌then◌else◌, Option, none, some, List, [], ◌∷◌,
  map, loop,
}
use eggscrambler.Crypto.Bytes.{Msg, PrivateKey}
use eggscrambler.Crypto.Interface.{CommutativeCrypto}
use eggscrambler.Crypto.Layers.{decrypt_all}
use eggscrambler.Client.Steps.{Keys, encrypt_loop, scramble_loop, decrypt_loop, and_then}

module _ (c : CommutativeCrypto) where
  -- The message at index `i` in a step of the client at index `me`.
  abbrev pub encrypt_other : PrivateKey → ℕ → ℕ → Msg → Msg
  encrypt_other k me i x = if i == me then x else c.encrypt k x

  abbrev pub encrypt_others : PrivateKey → ℕ → ℕ → List Msg → List Msg
  encrypt_others k me i [] = []
  encrypt_others k me i (x ∷ xs) = encrypt_other k me i x ∷ encrypt_others k me (suc i) xs

  abbrev pub scramble_one : Keys → Msg → Msg
  scramble_one ks x = c.encrypt ks.reveal_key (c.encrypt ks.scramble_key x)

  abbrev pub decrypt_one : Keys → Msg → Msg
  decrypt_one ks x = c.decrypt ks.encrypt_key (c.decrypt ks.scramble_key x)

  pub encrypt_loop-some :
      (k : PrivateKey) (me i : ℕ) (xs : List Msg)
      → encrypt_loop (some c) k me i xs ≡ some (encrypt_others k me i xs)
  unfolding encrypt_loop
  encrypt_loop-some k me i [] = refl
  encrypt_loop-some k me i (x ∷ xs) = elim (Bool-cases (i == me)) [
    | inl e ↦ rw (e, encrypt_loop-some k me (suc i) xs) refl
    | inr e ↦ rw (e, encrypt_loop-some k me (suc i) xs) refl
  ]

  pub scramble_loop-some :
      (ks : Keys) (xs : List Msg) → scramble_loop (some c) ks xs ≡ some (map (scramble_one ks) xs)
  unfolding scramble_loop
  scramble_loop-some ks [] = refl
  scramble_loop-some ks (x ∷ xs) = rw (scramble_loop-some ks xs) refl

  pub decrypt_loop-some :
      (ks : Keys) (xs : List Msg) → decrypt_loop (some c) ks xs ≡ some (map (decrypt_one ks) xs)
  unfolding decrypt_loop
  decrypt_loop-some ks [] = refl
  decrypt_loop-some ks (x ∷ xs) = rw (decrypt_loop-some ks xs) refl

  -- The phases: each client, in some order, makes its loop over the messages of the client before.
  abbrev pub encrypt_turn : ℕ × Keys → Option (List Msg) → Option (List Msg)
  encrypt_turn (me, ks) ms = and_then ms (encrypt_loop (some c) ks.encrypt_key me 0)

  abbrev pub shuffled : (List Msg → List Msg) → Option (List Msg) → Option (List Msg)
  shuffled f none = none
  shuffled f (some xs) = some (f xs)

  abbrev pub scramble_turn : (List Msg → List Msg) × Keys → Option (List Msg) → Option (List Msg)
  scramble_turn (f, ks) ms = shuffled f (and_then ms (scramble_loop (some c) ks))

  abbrev pub decrypt_turn : Keys → Option (List Msg) → Option (List Msg)
  decrypt_turn ks ms = and_then ms (decrypt_loop (some c) ks)

  -- `sendRoundResult` takes off the layers of the revealed keys.
  abbrev pub revealed : List PrivateKey → Option (List Msg) → Option (List Msg)
  revealed keys none = none
  revealed keys (some xs) = some (map (decrypt_all c keys) xs)

  abbrev pub round_messages :
      List (ℕ × Keys)
      → List ((List Msg → List Msg) × Keys)
      → List Keys
      → List PrivateKey
      → List Msg
      → Option (List Msg)
  round_messages encrypts scrambles decrypts reveals ms = revealed reveals (
      loop decrypt_turn decrypts
        (loop scramble_turn scrambles (loop encrypt_turn encrypts (some ms))))
