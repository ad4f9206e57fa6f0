-- ===== src/MasseyOmura/BigInt.antt =====
-- What the code uses of Go's math/big, on natural numbers: `SetBytes` and `Bytes`, the big-endian
-- conversions, and `BitLen`.
use eggscrambler.Base.{
  ◌-◌, ℕ, zero, suc, ◌+◌, ◌*◌, ◌/◌, ◌%◌, ◌^◌, ◌≤◌, ◌<◌, ◌≡◌, refl, false, List, [], ◌∷◌, ◌++◌,
  arith, ap, ◌∙◌, sym, ◌==◌, length, if◌then◌else◌, inl, inr, Bool-cases,
}
use mathlib.Core.List.{append-nil, append_assoc}
use native.Mathlib.Nat.{pow-suc, one-le-pow}

-- A list of bytes: every entry is below 256.
abbrev pub IsBytes : List ℕ → Type 0
IsBytes [] = Unit
IsBytes (b ∷ bs) = (b < 256) × IsBytes bs

-- `SetBytes`, from the value of the bytes before.
abbrev pub of_bytes_from : ℕ → List ℕ → ℕ
of_bytes_from acc [] = acc
of_bytes_from acc (b ∷ bs) = of_bytes_from (acc * 256 + b) bs

unfoldable pub of_bytes : List ℕ → ℕ
of_bytes bs = of_bytes_from 0 bs

-- `Bytes`, with no leading zero: the last byte first, in front of the bytes found before.
unfoldable pub to_bytes_fuel : ℕ → ℕ → List ℕ → List ℕ
to_bytes_fuel zero n acc = acc
to_bytes_fuel (suc f) n acc =
    let rest = to_bytes_fuel f (n / 256) (n % 256 ∷ acc) in if n == 0 then acc else rest

-- A number has fewer bytes than its value.
unfoldable pub to_bytes : ℕ → List ℕ
unfolding to_bytes_fuel
to_bytes n = to_bytes_fuel n n []

-- More fuel makes no difference.
to_bytes_fuel-more :
    (f g n : ℕ) (acc : List ℕ) → n ≤ f → n ≤ g → to_bytes_fuel f n acc ≡ to_bytes_fuel g n acc
unfolding to_bytes_fuel
to_bytes_fuel-more zero zero n acc h k = refl
to_bytes_fuel-more zero (suc g) n acc h k = ground arith
to_bytes_fuel-more (suc f) zero n acc h k = ground arith
to_bytes_fuel-more (suc f) (suc g) n acc h k =
    ground (arith, to_bytes_fuel-more f g (n / 256) (n % 256 ∷ acc))

to_bytes_fuel-acc : (f n : ℕ) (acc : List ℕ) → to_bytes_fuel f n acc ≡ to_bytes_fuel f n [] ++ acc
unfolding to_bytes_fuel
to_bytes_fuel-acc zero n acc = refl
to_bytes_fuel-acc (suc f) n acc = elim (Bool-cases (n == 0)) [
  | inl e ↦ rw e refl
  | inr e ↦ rw e (
      to_bytes_fuel-acc f (n / 256) (n % 256 ∷ acc)
      ∙ sym (append_assoc (to_bytes_fuel f (n / 256) []) (n % 256 ∷ []) acc)
      ∙ ap (λ (l : List ℕ). l ++ acc) (sym (to_bytes_fuel-acc f (n / 256) (n % 256 ∷ []))))
]

-- The bytes of a number end in its last byte.
to_bytes_step :
    (n b : ℕ) → 0 < n * 256 + b → b < 256 → to_bytes (n * 256 + b) ≡ to_bytes n ++ b ∷ []
unfolding to_bytes
to_bytes_step n b h k =
    let m = n * 256 + b in
    let q : m / 256 ≡ n = omega arith in
    let r : m % 256 ≡ b = omega arith in
    let z : (m == 0) ≡ false = ground arith in
    to_bytes_fuel-more m (suc m) m [] (omega arith) (omega arith)
    ∙ rw (z, q, r) (to_bytes_fuel-acc m n (b ∷ []))
    ∙ ap (λ (l : List ℕ). l ++ b ∷ []) (to_bytes_fuel-more m n n [] (omega arith) (omega arith))

to_bytes-of_bytes_from :
    (acc : ℕ) (bs : List ℕ)
    → 0 < acc
    → IsBytes bs
    → to_bytes (of_bytes_from acc bs) ≡ to_bytes acc ++ bs
to_bytes-of_bytes_from acc [] h v = sym (append-nil (to_bytes acc))
to_bytes-of_bytes_from acc (b ∷ bs) h v =
    to_bytes-of_bytes_from (acc * 256 + b) bs (omega arith) v.1
    ∙ rw (to_bytes_step acc b (omega arith) v.0) (append_assoc (to_bytes acc) (b ∷ []) bs)

-- The conversions undo one another on bytes that do not begin with a zero.
pub to_bytes-of_bytes :
    (b : ℕ) (bs : List ℕ) → 0 < b → IsBytes (b ∷ bs) → to_bytes (of_bytes (b ∷ bs)) ≡ b ∷ bs
unfolding of_bytes to_bytes
to_bytes-of_bytes b bs h v =
    let e : 0 * 256 + b ≡ b = omega arith in
    let one : to_bytes b ≡ b ∷ [] = (rw e at (to_bytes_step 0 b (omega arith) v.0)) in
    rw e (to_bytes-of_bytes_from b bs h v.1 ∙ ap (λ (l : List ℕ). l ++ bs) one)

of_bytes_from-snoc :
    (acc : ℕ) (bs : List ℕ) (b : ℕ)
    → of_bytes_from acc (bs ++ b ∷ []) ≡ of_bytes_from acc bs * 256 + b
of_bytes_from-snoc acc [] b = refl
of_bytes_from-snoc acc (x ∷ bs) b = of_bytes_from-snoc (acc * 256 + x) bs b

of_bytes-to_bytes_fuel : (f n : ℕ) → n ≤ f → of_bytes_from 0 (to_bytes_fuel f n []) ≡ n
unfolding to_bytes_fuel
of_bytes-to_bytes_fuel zero n h = omega arith
of_bytes-to_bytes_fuel (suc f) n h = elim (Bool-cases (n == 0)) [
  | inl e ↦ rw e (ground arith)
  | inr e ↦
      let pos_n : 0 < n = ground arith in
      let ih = of_bytes-to_bytes_fuel f (n / 256) (omega arith) in
      rw
        (
          e,
          to_bytes_fuel-acc f (n / 256) (n % 256 ∷ []),
          of_bytes_from-snoc 0 (to_bytes_fuel f (n / 256) []) (n % 256),
          ih,
        )
        (omega arith)
]

-- Reading back what `Bytes` writes.
pub of_bytes-to_bytes : (n : ℕ) → of_bytes (to_bytes n) ≡ n
unfolding of_bytes to_bytes
of_bytes-to_bytes n = of_bytes-to_bytes_fuel n n (omega arith)

-- A leading zero is lost.
pub of_bytes-zero : (bs : List ℕ) → of_bytes (0 ∷ bs) ≡ of_bytes bs
unfolding of_bytes
of_bytes-zero bs = refl

-- `Bytes` is no longer than what was read.
pub length-to_bytes-of_bytes :
    (bs : List ℕ) → IsBytes bs → length (to_bytes (of_bytes bs)) ≤ length bs
unfolding of_bytes
length-to_bytes-of_bytes [] v = unfold to_bytes in omega arith
length-to_bytes-of_bytes (b ∷ bs) v = elim (Bool-cases (b == 0)) [
  | inl e ↦ let z : b ≡ 0 = ground arith in rw z (omega (arith, length-to_bytes-of_bytes bs v.1))
  | inr e ↦ omega (arith, ap length (to_bytes-of_bytes b bs (ground arith) v))
]

of_bytes_from-lt :
    (acc k : ℕ) (bs : List ℕ)
    → acc < 256 ^ k
    → IsBytes bs
    → of_bytes_from acc bs < 256 ^ (k + length bs)
of_bytes_from-lt acc k [] h v = let e : k + 0 ≡ k = omega arith in rw e h
of_bytes_from-lt acc k (b ∷ bs) h v =
    let e : k + suc (length bs) ≡ suc k + length bs = omega arith in
    rw e (of_bytes_from-lt (acc * 256 + b) (suc k) bs (rw (pow-suc 256 k) (omega (arith, v.0))) v.1)

-- The value of `n` bytes is below 256 ^ n.
pub of_bytes-lt : (bs : List ℕ) → IsBytes bs → of_bytes bs < 256 ^ length bs
unfolding of_bytes
of_bytes-lt bs v =
    let e : 0 + length bs ≡ length bs = omega arith in
    rw (← e) (of_bytes_from-lt 0 0 bs (omega arith) v)

-- `BitLen`.
unfoldable pub bit_len_fuel : ℕ → ℕ → ℕ
bit_len_fuel zero n = 0
bit_len_fuel (suc f) n = let rest = bit_len_fuel f (n / 2) in if n == 0 then 0 else suc rest

unfoldable pub bit_len : ℕ → ℕ
unfolding bit_len_fuel
bit_len n = bit_len_fuel n n

bit_len_fuel-le : (f n k : ℕ) → n ≤ f → bit_len_fuel f n ≡ suc k → 2 ^ k ≤ n
unfolding bit_len_fuel
bit_len_fuel-le zero n k h e = ground arith
bit_len_fuel-le (suc f) n zero h e = ground arith
bit_len_fuel-le (suc f) n (suc k) h e =
    let e' : bit_len_fuel f (n / 2) ≡ suc k = ground arith in
    let ih = bit_len_fuel-le f (n / 2) k (omega arith) e' in rw (pow-suc 2 k) (omega (arith, ih))

-- A number of `k + 1` bits is at least 2 ^ k.
pub bit_len-le : (n k : ℕ) → bit_len n ≡ suc k → 2 ^ k ≤ n
unfolding bit_len
bit_len-le n k e = bit_len_fuel-le n n k (omega arith) e

pub lt-bit_len : (n b l : ℕ) → bit_len b ≡ l → 0 < l → n < 2 ^ (l - 1) → n < b
lt-bit_len n b zero e z h = omega arith
lt-bit_len n b (suc k) e z h =
    let q : suc k - 1 ≡ k = omega arith in
    let small : n < 2 ^ k = (rw q at h) in omega (arith, bit_len-le b k e, small)

bit_len_fuel_zero : (f : ℕ) → bit_len_fuel f 0 ≡ 0
unfolding bit_len_fuel
bit_len_fuel_zero zero = refl
bit_len_fuel_zero (suc f) = refl

bit_len_fuel_eq : (f n k : ℕ) → n ≤ f → 2 ^ k ≤ n → n < 2 ^ suc k → bit_len_fuel f n ≡ suc k
unfolding bit_len_fuel
bit_len_fuel_eq zero n k h lo hi = omega (arith, one-le-pow k 2 (omega arith))
bit_len_fuel_eq (suc f) n zero h lo hi =
    let one : n ≡ 1 = omega arith in let z = bit_len_fuel_zero f in rw (one, z) refl
bit_len_fuel_eq (suc f) n (suc k) h lo hi =
    let a = pow-suc 2 k in
    let b = pow-suc 2 (suc k) in
    let some_n : (n == 0) ≡ false = ground (arith, one-le-pow k 2 (omega arith)) in
    rw some_n (ap suc (bit_len_fuel_eq f (n / 2) k (omega arith) (omega arith) (omega arith)))

-- `BitLen` of a number between two powers of 2.
pub bit_len_eq : (n k : ℕ) → 2 ^ k ≤ n → n < 2 ^ suc k → bit_len n ≡ suc k
unfolding bit_len
bit_len_eq n k lo hi = bit_len_fuel_eq n n k (omega arith) lo hi

bit_len_fuel-lt : (f n k : ℕ) → n ≤ f → bit_len_fuel f n ≡ k → n < 2 ^ k
unfolding bit_len_fuel
bit_len_fuel-lt zero n k h e = omega (arith, one-le-pow k 2 (omega arith))
bit_len_fuel-lt (suc f) n zero h e = ground arith
bit_len_fuel-lt (suc f) n (suc k) h e =
    let e' : bit_len_fuel f (n / 2) ≡ k = ground arith in
    omega (arith, pow-suc 2 k, bit_len_fuel-lt f (n / 2) k (omega arith) e')

-- `BitLen() == 1`, the test that a number is 1.
pub bit_len-one : (n : ℕ) → bit_len n ≡ 1 → n ≡ 1
unfolding bit_len
bit_len-one n e =
    omega (arith, bit_len_fuel-lt n n 1 (omega arith) e, bit_len_fuel-le n n 0 (omega arith) e)
