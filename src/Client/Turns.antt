-- ===== src/Client/Turns.antt =====
-- What the turns of all clients in a phase come to.
use eggscrambler.Base.{
  ℕ, suc, ◌≡◌, refl, sym, ap, ◌∙◌, some, List, [], ◌∷◌, map, loop, map-id, map-map,
}
use eggscrambler.Crypto.Bytes.{Msg}
use eggscrambler.Crypto.Interface.{CommutativeCrypto}
use eggscrambler.Client.Steps.{Keys}
use eggscrambler.Client.Phases.{
  encrypt_other, encrypt_others, encrypt_loop-some, scramble_one, scramble_loop-some, decrypt_one,
  decrypt_loop-some, encrypt_turn, scramble_turn, decrypt_turn,
}
use mathlib.Core.List.{Perm}
use mathlib.Core.List.Perm

module _ (c : CommutativeCrypto) where
  -- The message at index `i` after the encryption steps of `order`.
  abbrev pub at_index : ℕ → List (ℕ × Keys) → Msg → Msg
  at_index i order x = loop (λ (t : ℕ × Keys). encrypt_other c t.1.encrypt_key t.0 i) order x

  abbrev pub at_indices : List (ℕ × Keys) → ℕ → List Msg → List Msg
  at_indices order i [] = []
  at_indices order i (x ∷ xs) = at_index i order x ∷ at_indices order (suc i) xs

  at_indices_step :
      (t : ℕ × Keys) (order : List (ℕ × Keys)) (i : ℕ) (xs : List Msg)
      → at_indices order i (encrypt_others c t.1.encrypt_key t.0 i xs) ≡ at_indices (t ∷ order) i xs
  at_indices_step t order i [] = refl
  at_indices_step t order i (x ∷ xs) =
      ap (λ (l : List Msg). at_index i (t ∷ order) x ∷ l) (at_indices_step t order (suc i) xs)

  at_indices_none : (i : ℕ) (xs : List Msg) → at_indices [] i xs ≡ xs
  at_indices_none i [] = refl
  at_indices_none i (x ∷ xs) = ap (λ (l : List Msg). x ∷ l) (at_indices_none (suc i) xs)

  pub encrypt_turns :
      (order : List (ℕ × Keys)) (xs : List Msg)
      → loop (encrypt_turn c) order (some xs) ≡ some (at_indices order 0 xs)
  encrypt_turns [] xs = ap some (sym (at_indices_none 0 xs))
  encrypt_turns ((me, ks) ∷ order) xs = rw (encrypt_loop-some c ks.encrypt_key me 0 xs) (
      encrypt_turns order (encrypt_others c ks.encrypt_key me 0 xs)
      ∙ ap some (at_indices_step (me, ks) order 0 xs))

  pub decrypt_turns :
      (l : List Keys) (xs : List Msg)
      → loop (decrypt_turn c) l (some xs) ≡ some (map (loop (decrypt_one c) l) xs)
  decrypt_turns [] xs = ap some (sym (map-id xs))
  decrypt_turns (ks ∷ l) xs = rw (decrypt_loop-some c ks xs) (
      decrypt_turns l (map (decrypt_one c ks) xs)
      ∙ ap some (map-map (decrypt_one c ks) (loop (decrypt_one c) l) xs))

-- `rand.Shuffle` permutes.
abbrev pub IsShuffle : (List Msg → List Msg) → Type 0
IsShuffle f = (xs : List Msg) → Perm (f xs) xs

abbrev pub AllShuffles : List ((List Msg → List Msg) × Keys) → Type 0
AllShuffles [] = Unit
AllShuffles ((f, ks) ∷ l) = IsShuffle f × AllShuffles l

abbrev pub scramblers : List ((List Msg → List Msg) × Keys) → List Keys
scramblers [] = []
scramblers ((f, ks) ∷ l) = ks ∷ scramblers l

module _ (c : CommutativeCrypto) where
  pub scramble_turns :
      (l : List ((List Msg → List Msg) × Keys)) (xs : List Msg)
      → AllShuffles l
      → (out : List Msg) × (loop (scramble_turn c) l (some xs) ≡ some out)
        × Perm out (map (loop (scramble_one c) (scramblers l)) xs)
  scramble_turns [] xs h = (xs, refl, rw (map-id xs) (Perm.refl xs))
  scramble_turns ((f, ks) ∷ l) xs h =
      let ys = map (scramble_one c ks) xs in
      let (out, e, p) = scramble_turns l (f ys) h.1 in
      (
        out,
        rw (scramble_loop-some c ks xs) e,
        rw (← map-map (scramble_one c ks) (loop (scramble_one c) (scramblers l)) xs)
            (Perm.trans p (Perm.map (loop (scramble_one c) (scramblers l)) (h.0 ys))),
      )
