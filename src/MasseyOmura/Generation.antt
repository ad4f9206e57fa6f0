-- ===== src/MasseyOmura/Generation.antt =====
-- The keys that `GenUserKey` of masseyomura/keygen.go and `GenKey` of anonbcast/crypto.go generate.
use eggscrambler.Base.{
  ℕ, ◌+◌, ◌*◌, ◌-◌, ◌%◌, ◌/◌, ◌<◌, ◌≡◌, refl, ◌==◌, ltb, true, Bool-cases, inl, inr, some, arith,
  ap, ◌∙◌, List, [], ◌∷◌, ◌++◌, map,
}
use eggscrambler.Crypto.Bytes.{PrivateKey}
use eggscrambler.MasseyOmura.BigInt.{bit_len, bit_len-one, to_bytes, of_bytes-to_bytes}
use eggscrambler.MasseyOmura.Cipher.{SystemKey, UserKey, IsInverse}
use eggscrambler.MasseyOmura.Inverse.{mod_inverse-some, inverse_from-inverse}
use eggscrambler.MasseyOmura.Keys.{
  gcd, mod_inverse, Draw, rand_error, drawn, Generated, generated, no_inverse, drawing, failed,
  empty_range, with_inverse, gen_loop, gen_user_key,
}
use eggscrambler.MasseyOmura.Messages.{MasseyOmuraCrypto, create_sys_key, IsKey, gen_key, key_bytes}
use native.Mathlib.Nat.{mod-add-div, mod-eq_of_lt}

-- A generated key belongs to the system key, and its exponents are inverse to one another modulo
-- p - 1; the error that should be impossible does not occur.
abbrev pub IsSound : SystemKey → Generated → Type 0
IsSound s (generated k) = (k.system ≡ s) × IsInverse s.p k.e k.d
IsSound s no_inverse = ⊥
IsSound s _ = Unit

module _ (s : SystemKey) (big : 2 < s.p) where
  with_inverse-IsSound :
      (e : ℕ)
      → 0 < e
      → gcd e (s.p - 1) ≡ 1
      → (d : ℕ) × (with_inverse s e (mod_inverse e (s.p - 1))
          ≡ generated (record { system = s; e = e; d = d }))
        × IsInverse s.p e d
  unfolding mod_inverse
  with_inverse-IsSound e h g =
      let n = s.p - 1 in
      let (d, found) = mod_inverse-some e n h (omega arith) g in
      let inverse : e * d % n ≡ 1 =
        inverse_from-inverse e n 0 n d found ∙ mod-eq_of_lt (omega arith) in
      (d, rw found refl, (e * d / n, omega (arith, mod-add-div (e * d) n, inverse)))

  gen_loop-IsSound : (ds : List Draw) → IsSound s (gen_loop s (s.p - 1) ds)
  unfolding gen_loop
  gen_loop-IsSound [] = tt
  gen_loop-IsSound (rand_error ∷ ds) = tt
  gen_loop-IsSound (drawn n ∷ ds) = elim (Bool-cases (bit_len (gcd (n + 1) (s.p - 1)) == 1)) [
    | inl e ↦
        let one = bit_len-one (gcd (n + 1) (s.p - 1)) (ground arith) in
        let (d, k, i) = with_inverse-IsSound (n + 1) (omega arith) one in rw (e, k) (refl, i)
    | inr e ↦ rw e (gen_loop-IsSound ds)
  ]

  gen_loop_ends :
      (ns : List ℕ) (n : ℕ) (rest : List Draw)
      → bit_len (gcd (n + 1) (s.p - 1)) ≡ 1
      → (k : UserKey) × (gen_loop s (s.p - 1) (map drawn ns ++ drawn n ∷ rest) ≡ generated k)
  unfolding gen_loop
  gen_loop_ends [] n rest e =
      let one = bit_len-one (gcd (n + 1) (s.p - 1)) e in
      let (d, k, i) = with_inverse-IsSound (n + 1) (omega arith) one in
      (record { system = s; e = n + 1; d = d }, rw (e, k) refl)
  gen_loop_ends (m ∷ ns) n rest e = elim (Bool-cases (bit_len (gcd (m + 1) (s.p - 1)) == 1)) [
    | inl e' ↦
        let one = bit_len-one (gcd (m + 1) (s.p - 1)) (ground arith) in
        let (d, k, i) = with_inverse-IsSound (m + 1) (omega arith) one in
        (record { system = s; e = m + 1; d = d }, rw (e', k) refl)
    | inr e' ↦ let (k, h) = gen_loop_ends ns n rest e in (k, rw e' h)
  ]

-- Whatever the random source gives, the error "impossible no inverse" of `GenUserKey` does not occur,
-- and a key that it returns belongs to the system key and has exponents that are inverse to one
-- another modulo p - 1.
pub gen_user_key-IsSound : (s : SystemKey) (ds : List Draw) → IsSound s (gen_user_key s ds)
unfolding gen_user_key
gen_user_key-IsSound s ds = elim (Bool-cases (ltb 2 s.p)) [
  | inl e ↦ rw e (gen_loop-IsSound s (ground arith) ds)
  | inr e ↦ rw e tt
]

-- For a modulus above 2, `GenUserKey` returns a key as soon as the random source, having given no
-- error, gives a number whose successor is coprime with p - 1.
pub gen_user_key_ends :
    (s : SystemKey) (ns : List ℕ) (n : ℕ) (rest : List Draw)
    → 2 < s.p
    → gcd (n + 1) (s.p - 1) ≡ 1
    → (k : UserKey) × (gen_user_key s (map drawn ns ++ drawn n ∷ rest) ≡ generated k)
unfolding gen_user_key bit_len
gen_user_key_ends s ns n rest h g =
    let e : ltb 2 s.p ≡ true = ground arith in
    let (k, q) = gen_loop_ends s h ns n rest (ap bit_len g) in (k, rw e q)

-- A key that `GenKey` returns is in order for its crypto.
pub gen_key-IsKey :
    (mo : MasseyOmuraCrypto) (ds : List Draw) (k : PrivateKey) → gen_key mo ds ≡ some k → IsKey mo k
unfolding gen_key
gen_key-IsKey mo ds k h =
    from (gen_user_key (create_sys_key mo) ds) (gen_user_key-IsSound (create_sys_key mo) ds) h
  where
    from : (g : Generated) → IsSound (create_sys_key mo) g → key_bytes g ≡ some k → IsKey mo k
    from (generated u) i e =
        let same : record { e = to_bytes u.e; d = to_bytes u.d } ≡ k = ground arith in
        rw (← same, of_bytes-to_bytes u.e, of_bytes-to_bytes u.d) i.1
    from drawing i e = ground arith
    from failed i e = ground arith
    from no_inverse i e = ground arith
    from empty_range i e = ground arith
