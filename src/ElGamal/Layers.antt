-- ===== src/ElGamal/Layers.antt =====
-- Two layers of the encryption of elgamal/encrypt.go come off in either order.
use eggscrambler.Base.{
  ℕ, ◌+◌, ◌*◌, ◌%◌, ◌<◌, ◌≡◌, refl, sym, ap, ◌∙◌, some, arith, Option-cases, inl, inr,
}
use eggscrambler.MasseyOmura.Cipher.{exp}
use eggscrambler.MasseyOmura.Keys.{Draw, rand_error, drawn, mod_inverse}
use eggscrambler.MasseyOmura.Powers.{mod-mul-mod}
use eggscrambler.ElGamal.Cipher.{
  SystemKey, PublicKey, PrivateKey, user_key, rand_help, encrypt, decrypt, decrypt-encrypt,
}

-- What is sent is a multiple of what was received, by a factor that does not depend on it.
encrypt-factor :
    (k : PublicKey) (draw : Draw) (c saved sent : ℕ)
    → encrypt k draw c ≡ some (saved, sent)
    → (f : ℕ) × (sent ≡ f * c) × ((d : ℕ) → encrypt k draw d ≡ some (saved, f * d))
unfolding encrypt rand_help
encrypt-factor k rand_error c saved sent e = absurd (ground arith)
encrypt-factor k (drawn n) c saved sent e =
    (exp k.y (n + 1) k.system.p, ground arith, λ d. ground arith)

decrypt-mod :
    (k : PrivateKey) (saved d : ℕ) → decrypt k saved (d % k.public.system.p) ≡ decrypt k saved d
unfolding decrypt
decrypt-mod k saved d =
    elim (Option-cases (mod_inverse (exp saved k.x k.public.system.p) k.public.system.p)) [
      | inl e ↦ rw (e, decrypt) refl
      | inr (y, e) ↦ rw (e, decrypt) (ap some (mod-mul-mod d y k.public.system.p))
    ]

-- Without a factor over the layer.
alone :
    (k : PrivateKey) (saved sent c : ℕ)
    → decrypt k saved (1 * sent) ≡ some (1 * c % k.public.system.p)
    → decrypt k saved sent ≡ some (c % k.public.system.p)
alone k saved sent c e =
    let one : (n : ℕ) → n ≡ 1 * n = λ n. omega arith in
    ap (λ (n : ℕ). decrypt k saved n) (one sent)
    ∙ e
    ∙ ap (λ (n : ℕ). some (n % k.public.system.p)) (sym (one c))

-- For the keys of two users of one system, whose generator is invertible: what was encrypted with one
-- and then with the other is decrypted, up to the modulus, with the two in the same order as well as
-- in the opposite order, each with the K that its encryption returned.
pub decrypt-encrypt_two :
    (s : SystemKey) (x1 x2 : ℕ) (draw1 draw2 : Draw) (h c saved1 sent1 saved2 sent2 : ℕ)
    → 1 < s.p
    → s.g * h % s.p ≡ 1
    → encrypt (user_key s x1).public draw1 c ≡ some (saved1, sent1)
    → encrypt (user_key s x2).public draw2 sent1 ≡ some (saved2, sent2)
    → (d d' : ℕ) × (decrypt (user_key s x1) saved1 sent2 ≡ some d)
      × (decrypt (user_key s x2) saved2 d ≡ some (c % s.p))
      × (decrypt (user_key s x2) saved2 sent2 ≡ some d')
      × (decrypt (user_key s x1) saved1 d' ≡ some (c % s.p))
decrypt-encrypt_two s x1 x2 draw1 draw2 h c saved1 sent1 saved2 sent2 big inv e1 e2 =
    let k1 = user_key s x1 in
    let k2 = user_key s x2 in
    let (f, is_sent, again) = encrypt-factor k2.public draw2 sent1 saved2 sent2 e2 in
    let off = λ (m : ℕ). decrypt-encrypt k1 draw1 h c saved1 sent1 m big inv refl e1 in
    let under : decrypt k1 saved1 sent2 ≡ some (f * c % s.p) =
      ap (λ (n : ℕ). decrypt k1 saved1 n) is_sent ∙ off f in
    let last : decrypt k2 saved2 (f * c) ≡ some (c % s.p) =
      alone k2 saved2 (f * c) c
        (decrypt-encrypt k2 draw2 h c saved2 (f * c) 1 big inv refl (again c)) in
    let top : decrypt k2 saved2 sent2 ≡ some (sent1 % s.p) =
      alone k2 saved2 sent2 sent1
        (decrypt-encrypt k2 draw2 h sent1 saved2 sent2 1 big inv refl e2) in
    let first : decrypt k1 saved1 sent1 ≡ some (c % s.p) = alone k1 saved1 sent1 c (off 1) in
    (
      f * c % s.p,
      sent1 % s.p,
      under,
      decrypt-mod k2 saved2 (f * c) ∙ last,
      top,
      decrypt-mod k1 saved1 sent1 ∙ first,
    )
