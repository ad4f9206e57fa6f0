-- ===== src/Client/EncryptPhase.antt =====
-- The encryption phase puts the keys of all clients on every message, whatever the order.
use eggscrambler.Base.{
  ℕ, zero, suc, ◌+◌, ◌<◌, ◌≡◌, refl, ap, ◌∙◌, ◌==◌, some, List, [], ◌∷◌, map, loop, loop-perm, true,
  false, Bool-cases, inl, inr, get_elem?, arith,
}
use eggscrambler.Crypto.Bytes.{Msg, PrivateKey}
use eggscrambler.Crypto.Interface.{CommutativeCrypto, CryptoLaws}
use eggscrambler.Crypto.Layers.{encrypt_all, Msg_set}
use eggscrambler.Client.Steps.{Keys}
use eggscrambler.Client.KeyLists.{enumerate, submitted, keys_of, plain_of, encrypt_keys}
use eggscrambler.Client.Phases.{encrypt_other, encrypt_turn}
use eggscrambler.Client.Turns.{at_index, at_indices, encrypt_turns}
use mathlib.Core.List.{Perm}

module _ {c : CommutativeCrypto} {IsKey : PrivateKey → Type 0} {IsMsg : Msg → Type 0}
    (laws : CryptoLaws c IsKey IsMsg) where
  encrypt_other_comm :
      (i : ℕ) (t t' : ℕ × Keys) (x : Msg)
      → encrypt_other c t.1.encrypt_key t.0 i (encrypt_other c t'.1.encrypt_key t'.0 i x)
        ≡ encrypt_other c t'.1.encrypt_key t'.0 i (encrypt_other c t.1.encrypt_key t.0 i x)
  encrypt_other_comm i (a, ks) (b, ks') x = elim (Bool-cases (i == a)) [
    | inl e ↦ rw e refl
    | inr e ↦ elim (Bool-cases (i == b)) [
      | inl e' ↦ rw (e, e') refl
      | inr e' ↦ rw (e, e') (laws.encrypt_swap ks.encrypt_key ks'.encrypt_key x)
    ]
  ]

  -- A place before all the clients is encrypted by each of them.
  at_index-before :
      (l : List Keys) (s i : ℕ) (x : Msg)
      → i < s
      → at_index c i (enumerate s l) x ≡ encrypt_all c (encrypt_keys l) x
  at_index-before [] s i x h = refl
  at_index-before (ks ∷ l) s i x h =
      let ne : (i == s) ≡ false = ground arith in
      let here : encrypt_other c ks.encrypt_key s i x ≡ c.encrypt ks.encrypt_key x = rw ne refl in
      ap (at_index c i (enumerate (suc s) l)) here
      ∙ at_index-before l (suc s) i (c.encrypt ks.encrypt_key x) (omega arith)

  -- The client's own key lies on its message before the phase.
  at_index-own :
      (l : List Keys) (s i j : ℕ) (k : Keys) (x : Msg)
      → i ≡ s + j
      → get_elem? l j ≡ some k
      → at_index c i (enumerate s l) (c.encrypt k.encrypt_key x) ≡ encrypt_all c (encrypt_keys l) x
  at_index-own [] s i j k x h g = ground arith
  at_index-own (ks ∷ l) s i zero k x h g =
      let eq : (i == s) ≡ true = ground arith in
      let y = c.encrypt k.encrypt_key x in
      let here : encrypt_other c ks.encrypt_key s i y ≡ y = rw eq refl in
      let same : k ≡ ks = ground arith in
      ap (at_index c i (enumerate (suc s) l)) here
      ∙ at_index-before l (suc s) i y (omega arith)
      ∙ ap (λ (k : Keys). encrypt_all c (encrypt_keys l) (c.encrypt k.encrypt_key x)) same
  at_index-own (ks ∷ l) s i (suc j) k x h g =
      let ne : (i == s) ≡ false = ground arith in
      let y = c.encrypt k.encrypt_key x in
      let here : encrypt_other c ks.encrypt_key s i y ≡ c.encrypt ks.encrypt_key y = rw ne refl in
      ap (at_index c i (enumerate (suc s) l))
        (here ∙ laws.encrypt_swap ks.encrypt_key k.encrypt_key x)
      ∙ at_index-own l (suc s) i j k (c.encrypt ks.encrypt_key x) (omega arith) g

  all_places :
      (order : List (ℕ × Keys)) (i : ℕ) (ps : List (Keys × Msg)) (f : Msg → Msg)
      → ((j : ℕ) (k : Keys) (x : Msg)
          → get_elem? (keys_of ps) j ≡ some k
          → at_index c (i + j) order (c.encrypt k.encrypt_key x) ≡ f x)
      → at_indices c order i (submitted c ps) ≡ map f (plain_of ps)
  all_places order i [] f h = refl
  all_places order i ((k, x) ∷ ps) f h =
      let z : i + 0 ≡ i = omega arith in
      let first : at_index c i order (c.encrypt k.encrypt_key x) ≡ f x = (rw z at (h 0 k x refl)) in
      rw first (
        ap (λ (l : List Msg). f x ∷ l)
          (all_places order (suc i) ps f
            (λ j k' y e. let s : suc i + j ≡ i + suc j = omega arith in rw s (h (suc j) k' y e))))

  -- After the encryption phase every message bears the keys of all clients.
  pub encrypt_phase :
      (order : List (ℕ × Keys)) (ps : List (Keys × Msg))
      → Perm order (enumerate 0 (keys_of ps))
      → loop (encrypt_turn c) order (some (submitted c ps))
        ≡ some (map (encrypt_all c (encrypt_keys (keys_of ps))) (plain_of ps))
  encrypt_phase order ps p =
      let l = keys_of ps in
      encrypt_turns c order (submitted c ps)
      ∙ ap some (
          all_places order 0 ps (encrypt_all c (encrypt_keys l)) (λ j k x e.
            loop-perm Msg_set (λ (t : ℕ × Keys). encrypt_other c t.1.encrypt_key t.0 (0 + j))
              (encrypt_other_comm (0 + j)) p (c.encrypt k.encrypt_key x)
            ∙ at_index-own l 0 (0 + j) j k x refl e))
