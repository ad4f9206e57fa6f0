-- ===== src/Client/Rounds.antt =====
-- A round in which every client follows the protocol reveals the messages of all of them.
use eggscrambler.Base.{
  ℕ, ◌≡◌, refl, sym, ap, ◌∙◌, Option, some, List, [], ◌∷◌, ◌++◌, map, loop, loop-perm, loop-append,
  map-map,
}
use eggscrambler.Crypto.Bytes.{Msg, PrivateKey}
use eggscrambler.Crypto.Interface.{CommutativeCrypto, CryptoLaws}
use eggscrambler.Crypto.Layers.{decrypt_all, encrypt_all, Msg_set, AllKeys, decrypt_all-encrypt_all}
use eggscrambler.Client.Steps.{Keys}
use eggscrambler.Client.KeyLists.{
  enumerate, submitted, keys_of, plain_of, encrypt_keys, reveal_keys, scramble_keys, decrypt_keys,
  keys_balance,
}
use eggscrambler.Client.Phases.{
  scramble_one, decrypt_one, scramble_turn, decrypt_turn, revealed, round_messages,
}
use eggscrambler.Client.Turns.{decrypt_turns, scramble_turns, AllShuffles, scramblers}
use eggscrambler.Client.EncryptPhase.{encrypt_phase}
use mathlib.Core.List.{Perm}
use mathlib.Core.List.Perm

module _ {c : CommutativeCrypto} {IsKey : PrivateKey → Type 0} {IsMsg : Msg → Type 0}
    (laws : CryptoLaws c IsKey IsMsg) where
  swap_pairs :
      (k k' : Keys) (x : Msg)
      → decrypt_one c k (decrypt_one c k' x) ≡ decrypt_one c k' (decrypt_one c k x)
  swap_pairs k k' x =
      let swap = laws.decrypt_swap in
      let d = c.decrypt in
      ap (d k.encrypt_key) (swap k.scramble_key k'.encrypt_key (d k'.scramble_key x))
      ∙ swap k.encrypt_key k'.encrypt_key (d k.scramble_key (d k'.scramble_key x))
      ∙ ap (λ (y : Msg). d k'.encrypt_key (d k.encrypt_key y))
          (swap k.scramble_key k'.scramble_key x)
      ∙ ap (d k'.encrypt_key) (swap k.encrypt_key k'.scramble_key (d k.scramble_key x))

  scramble_flat :
      (l : List Keys) (x : Msg) → loop (scramble_one c) l x ≡ encrypt_all c (scramble_keys l) x
  scramble_flat [] x = refl
  scramble_flat (ks ∷ l) x = scramble_flat l (scramble_one c ks x)

  decrypt_flat :
      (l : List Keys) (x : Msg) → loop (decrypt_one c) l x ≡ decrypt_all c (decrypt_keys l) x
  decrypt_flat [] x = refl
  decrypt_flat (ks ∷ l) x = decrypt_flat l (decrypt_one c ks x)

  -- What a round makes of one message.
  one_message :
      (l l' : List Keys) (x : Msg)
      → Perm l' l
      → AllKeys laws (encrypt_keys l ++ scramble_keys l)
      → IsMsg x
      → decrypt_all c
          (reveal_keys l)
          (loop (decrypt_one c) l' (loop (scramble_one c) l (encrypt_all c (encrypt_keys l) x)))
        ≡ x
  one_message l l' x p h m =
      let y = encrypt_all c (encrypt_keys l) x in
      ap (decrypt_all c (reveal_keys l)) (
        loop-perm Msg_set (decrypt_one c) swap_pairs p (loop (scramble_one c) l y)
        ∙ ap (loop (decrypt_one c) l) (scramble_flat l y)
        ∙ decrypt_flat l (encrypt_all c (scramble_keys l) y))
      ∙ sym (
          loop-append (c.decrypt) (decrypt_keys l) (reveal_keys l)
            (encrypt_all c (scramble_keys l) y))
      ∙ ap (decrypt_all c (decrypt_keys l ++ reveal_keys l))
          (sym (loop-append (c.encrypt) (encrypt_keys l) (scramble_keys l) x))
      ∙ decrypt_all-encrypt_all laws (encrypt_keys l ++ scramble_keys l)
          (decrypt_keys l ++ reveal_keys l) x (keys_balance l) h m

  abbrev pub AllMsgs : List Msg → Type 0
  AllMsgs [] = Unit
  AllMsgs (x ∷ xs) = IsMsg x × AllMsgs xs

  map_same :
      (f : Msg → Msg) (xs : List Msg) → ((x : Msg) → IsMsg x → f x ≡ x) → AllMsgs xs → map f xs ≡ xs
  map_same f [] e h = refl
  map_same f (x ∷ xs) e h =
      ap (λ (y : Msg). y ∷ map f xs) (e x h.0) ∙ ap (λ (l : List Msg). x ∷ l) (map_same f xs e h.1)

  -- If every client submits a message in range, with keys in order, and takes each of its turns
  -- once, encrypting and decrypting in whatever order, scrambling in the order of participants with
  -- whatever shuffles, then no step panics, and the messages that come out are a permutation of the
  -- messages that were submitted.
  pub round_messages-Perm :
      (ps : List (Keys × Msg)) (encrypts : List (ℕ × Keys))
      (scrambles : List ((List Msg → List Msg) × Keys)) (decrypts : List Keys)
      → Perm encrypts (enumerate 0 (keys_of ps))
      → AllShuffles scrambles
      → scramblers scrambles ≡ keys_of ps
      → Perm decrypts (keys_of ps)
      → AllKeys laws (encrypt_keys (keys_of ps) ++ scramble_keys (keys_of ps))
      → AllMsgs (plain_of ps)
      → (out : List Msg) × (round_messages c encrypts scrambles decrypts
            (reveal_keys (keys_of ps))
            (submitted c ps)
          ≡ some out)
        × Perm out (plain_of ps)
  round_messages-Perm ps encrypts scrambles decrypts pe hs es pd hk hm =
      let l = keys_of ps in
      let xs = plain_of ps in
      let f = encrypt_all c (encrypt_keys l) in
      let g = loop (scramble_one c) l in
      let d = loop (decrypt_one c) decrypts in
      let r = decrypt_all c (reveal_keys l) in
      let (ys, ey, py) = scramble_turns c scrambles (map f xs) hs in
      let py' : Perm ys (map g (map f xs)) = (rw es at py) in
      let total : map r (map d (map g (map f xs))) ≡ xs =
        rw
          (
            map-map f g xs,
            map-map (λ (x : Msg). g (f x)) d xs,
            map-map (λ (x : Msg). d (g (f x))) r xs,
          )
          (map_same (λ (x : Msg). r (d (g (f x)))) xs (λ x m. one_message l decrypts x pd hk m)
            hm) in
      (
        map r (map d ys),
        ap
              (λ (o : Option (List Msg)).
                revealed c (reveal_keys l)
                  (loop (decrypt_turn c) decrypts (loop (scramble_turn c) scrambles o)))
              (encrypt_phase laws encrypts ps pe)
            ∙ ap
                (λ (o : Option (List Msg)).
                  revealed c (reveal_keys l) (loop (decrypt_turn c) decrypts o))
                ey
            ∙ ap (revealed c (reveal_keys l)) (decrypt_turns c decrypts ys),
        rw total at (Perm.map r (Perm.map d py')),
      )
