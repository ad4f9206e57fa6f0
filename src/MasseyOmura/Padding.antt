-- ===== src/MasseyOmura/Padding.antt =====
-- masseyomura/encrypt.go: `bytesMaxSize`, `BitsMaxSize`, `PrepareMsg`, `ExtractMsg`, `pad` and
-- `unPad`.
use eggscrambler.Base.{
  ℕ, zero, suc, ◌+◌, ◌*◌, ◌-◌, ◌/◌, ◌^◌, ◌≤◌, ◌<◌, ◌≡◌, refl, ◌≢◌, false, [], ◌∷◌, ◌++◌, Option,
  none, some, arith, ◌==◌, ltb, length, replicate, if◌then◌else◌, ℤ, pos, negsuc, ◌<ℤ◌,
  length-replicate, length-append, ◌↔◌,
}
use eggscrambler.Crypto.Bytes.{Bytes}
use eggscrambler.MasseyOmura.BigInt.{
  IsBytes, of_bytes, to_bytes, to_bytes-of_bytes, of_bytes-zero, length-to_bytes-of_bytes,
  of_bytes-lt,
}
use native.Mathlib.Nat.{pow-suc}

-- `bits` is a bit length, so at least 0; for 0 Go's -1 / 8 is 0 as well.
abbrev pub bytes_max_size : ℕ → ℤ
bytes_max_size bits = let q = (bits - 1) / 8 in if q == 0 then negsuc 0 else pos (q - 1)

abbrev pub bits_max_size : ℕ → ℕ
bits_max_size bytes = 8 * (bytes + 1) + 1

-- `pad`: `none` is a panic. The slice is written once at every index: ones, a zero, the message.
abbrev pub pad : Bytes → ℕ → Option Bytes
pad msg target =
    if ltb target (length msg)
    then none
    else if length msg == target
    then none
    else some (replicate (target - 1 - length msg) 1 ++ 0 ∷ msg)

-- `unPad`: `none` is the panic when there is no zero.
abbrev pub un_pad : Bytes → Option Bytes
un_pad [] = none
un_pad (b ∷ bs) = let rest = un_pad bs in if b == 0 then some bs else rest

-- What `PrepareMsg` comes to: an error, a panic of `pad`, or a number.
pub data Prepared : Type 0 where
  too_long : Prepared
  pad_panic : Prepared
  number : ℕ → Prepared

-- The padded slice as a number, or the panic of `pad`.
abbrev pub number_of : Option Bytes → Prepared
number_of none = Prepared.pad_panic
number_of (some bs) = Prepared.number (of_bytes bs)

-- The test of `PrepareMsg`, then `pad(msg, maxsize+1)`.
abbrev pub prepare_sized : Bytes → ℤ → Prepared
prepare_sized msg (pos maxsize) =
    if ltb maxsize (length msg) then Prepared.too_long else number_of (pad msg (maxsize + 1))
prepare_sized msg (negsuc _) = Prepared.too_long

abbrev pub prepare_msg : Bytes → ℕ → Prepared
prepare_msg msg plen = prepare_sized msg (bytes_max_size plen)

abbrev pub extract_msg : ℕ → Option Bytes
extract_msg d = un_pad (to_bytes d)

un_pad-pad : (k : ℕ) (msg : Bytes) → un_pad (replicate k 1 ++ 0 ∷ msg) ≡ some msg
un_pad-pad zero msg = refl
un_pad-pad (suc k) msg = un_pad-pad k msg

pad-IsBytes : (k : ℕ) (msg : Bytes) → IsBytes msg → IsBytes (replicate k 1 ++ 0 ∷ msg)
pad-IsBytes zero msg h = (omega arith, h)
pad-IsBytes (suc k) msg h = (omega arith, pad-IsBytes k msg h)

length-pad : (k : ℕ) (msg : Bytes) → length (replicate k 1 ++ 0 ∷ msg) ≡ k + 1 + length msg
length-pad k msg =
    omega (arith, length-append (replicate k 1) (0 ∷ msg), length-replicate {A = ℕ} k 1)

un_pad-shorter : (bs out : Bytes) → un_pad bs ≡ some out → length out < length bs
un_pad-shorter [] out e = ground arith
un_pad-shorter (b ∷ bs) out e = ground (arith, un_pad-shorter bs out)

pow_256 : (q : ℕ) → 256 ^ q ≡ 2 ^ (8 * q)
pow_256 zero = refl
pow_256 (suc q) =
    let e : 8 * suc q ≡ suc (suc (suc (suc (suc (suc (suc (suc (8 * q)))))))) = omega arith in
    rw
      (
        e,
        pow-suc 256 q,
        pow-suc 2 (suc (suc (suc (suc (suc (suc (suc (8 * q)))))))),
        pow-suc 2 (suc (suc (suc (suc (suc (suc (8 * q))))))),
        pow-suc 2 (suc (suc (suc (suc (suc (8 * q)))))),
        pow-suc 2 (suc (suc (suc (suc (8 * q))))),
        pow-suc 2 (suc (suc (suc (8 * q)))),
        pow-suc 2 (suc (suc (8 * q))),
        pow-suc 2 (suc (8 * q)),
        pow-suc 2 (8 * q),
      )
      (omega (arith, pow_256 q))

pow_mono : (a k : ℕ) → 2 ^ a ≤ 2 ^ (a + k)
pow_mono a zero = let e : a + 0 ≡ a = omega arith in rw e (omega arith)
pow_mono a (suc k) =
    let e : a + suc k ≡ suc (a + k) = omega arith in
    rw (e, pow-suc 2 (a + k)) (omega (arith, pow_mono a k))

pow-le : (a k b : ℕ) → a + k ≡ b → 2 ^ a ≤ 2 ^ b
pow-le a k b e = rw (← e) (pow_mono a k)

-- A key of `BitsMaxSize` bits takes messages of up to the given number of bytes.
pub bytes_max_size-bits_max_size : (n : ℕ) → bytes_max_size (bits_max_size n) ≡ pos n
bytes_max_size-bits_max_size n = ground arith

-- The number of a padded message, taken apart again.
extract_msg-padded :
    (k : ℕ) (msg : Bytes)
    → IsBytes msg
    → extract_msg (of_bytes (replicate (suc k) 1 ++ 0 ∷ msg)) ≡ some msg
extract_msg-padded k msg h =
    rw (to_bytes-of_bytes 1 (replicate k 1 ++ 0 ∷ msg) (omega arith) (pad-IsBytes (suc k) msg h))
      (un_pad-pad (suc k) msg)

of_bytes-padded-lt :
    (k q : ℕ) (msg : Bytes)
    → IsBytes msg
    → k + 1 + length msg ≡ q
    → of_bytes (replicate k 1 ++ 0 ∷ msg) < 2 ^ (8 * q)
of_bytes-padded-lt k q msg h e =
    let l =
      rw (length-pad k msg, e, pow_256 q) at
        (of_bytes-lt (replicate k 1 ++ 0 ∷ msg) (pad-IsBytes k msg h)) in
    l

prepare_msg-number :
    (msg : Bytes) (plen : ℕ)
    → pos (length msg) <ℤ bytes_max_size plen
    → (k : ℕ) × (prepare_msg msg plen ≡ Prepared.number (of_bytes (replicate (suc k) 1 ++ 0 ∷ msg)))
      × (suc k + 1 + length msg ≡ (plen - 1) / 8)
prepare_msg-number msg plen h =
    let q = (plen - 1) / 8 in
    let k = q - 2 - length msg in
    let big : length msg + 1 < q = ground arith in
    let e1 : (q == 0) ≡ false = ground arith in
    let e2 : ltb (q - 1) (length msg) ≡ false = ground arith in
    let e3 : ltb (q - 1 + 1) (length msg) ≡ false = ground arith in
    let e4 : (length msg == q - 1 + 1) ≡ false = ground arith in
    let e5 : q - 1 + 1 - 1 - length msg ≡ suc k = omega arith in
    (k, rw (e1, e2, e3, e4, e5) refl, omega arith)

-- A message of bytes that is shorter than the maximal size for a key of `plen` bits is prepared
-- without an error or a panic, to a number below 2 ^ (plen - 1), and extracting it from that number
-- gives the message back.
pub extract_msg-prepare_msg :
    (msg : Bytes) (plen : ℕ)
    → IsBytes msg
    → pos (length msg) <ℤ bytes_max_size plen
    → (n : ℕ) × (prepare_msg msg plen ≡ Prepared.number n)
      × (extract_msg n ≡ some msg)
      × (n < 2 ^ (plen - 1))
extract_msg-prepare_msg msg plen v h =
    let (k, e, l) = prepare_msg-number msg plen h in
    let q = (plen - 1) / 8 in
    let r = plen - 1 - 8 * q in
    let d : 8 * q + r ≡ plen - 1 = omega arith in
    let small = of_bytes-padded-lt (suc k) q msg v l in
    let mono : 2 ^ (8 * q) ≤ 2 ^ (plen - 1) = pow-le (8 * q) r (plen - 1) d in
    (of_bytes (replicate (suc k) 1 ++ 0 ∷ msg), e, extract_msg-padded k msg v, omega arith)

prepare_msg-full :
    (b : ℕ) (bs : Bytes) (plen : ℕ)
    → bytes_max_size plen ≡ pos (length (b ∷ bs))
    → prepare_msg (b ∷ bs) plen ≡ Prepared.number (of_bytes (b ∷ bs))
prepare_msg-full b bs plen h =
    let n = length (b ∷ bs) in
    let e2 : ltb n n ≡ false = ground arith in
    let e3 : ltb (n + 1) n ≡ false = ground arith in
    let e4 : (n == n + 1) ≡ false = ground arith in
    let e5 : n + 1 - 1 - n ≡ 0 = omega arith in rw (h, e2, e3, e4, e5, of_bytes-zero (b ∷ bs)) refl

-- A message of bytes, not empty, of exactly the maximal size for a key of `plen` bits passes the
-- test of `PrepareMsg`, but extracting it from the number it is prepared to does not give it back.
pub extract_msg-prepare_msg_full :
    (b : ℕ) (bs : Bytes) (plen : ℕ)
    → IsBytes (b ∷ bs)
    → bytes_max_size plen ≡ pos (length (b ∷ bs))
    → (n : ℕ) × (prepare_msg (b ∷ bs) plen ≡ Prepared.number n) × (extract_msg n ≢ some (b ∷ bs))
extract_msg-prepare_msg_full b bs plen v h =
    let n = of_bytes (b ∷ bs) in
    (
      n,
      prepare_msg-full b bs plen h,
      λ e.
          omega
            (arith, un_pad-shorter (to_bytes n) (b ∷ bs) e, length-to_bytes-of_bytes (b ∷ bs) v),
    )

-- A message longer than the maximal size is refused with an error, no other message is, and `pad`
-- never panics.
pub prepare_msg-refuses :
    (msg : Bytes) (plen : ℕ)
    → (prepare_msg msg plen ≢ Prepared.pad_panic)
      × ((bytes_max_size plen <ℤ pos (length msg)) ↔ (prepare_msg msg plen ≡ Prepared.too_long))
prepare_msg-refuses msg plen = ground arith
