-- ===== src/Client/Verdicts.antt =====
-- What a client knows about a round that it reports as succeeded.
use eggscrambler.Base.{
  ◌≡◌, ◌≢◌, ◌≤◌, ◌==◌, refl, ltb, if◌then◌else◌, true, false, Option, none, some, List, [], ◌∷◌,
  ◌++◌, arith, length, take, drop, Bool-cases, inl, inr,
}
use eggscrambler.Crypto.Bytes.{Bytes, Msg, PrivateKey}
use eggscrambler.Crypto.Interface.{CommutativeCrypto}
use eggscrambler.Client.Results.{
  Check, passes, faults, crashes, then_check, same_bytes, bytes_equal, unchanged, open_one,
  open_all, header_length, verify_header, Parts, split_all, has_header, duplicated, bodies,
  no_duplicates,
}

pub then_check-passes :
    {A B : Type 0} (o : Check A) (f : A → Check B) (b : B)
    → then_check o f ≡ passes b
    → (a : A) × (o ≡ passes a) × (f a ≡ passes b)
then_check-passes crashes f b e = ground arith
then_check-passes (faults r) f b e = ground arith
then_check-passes (passes a) f b e = (a, refl, e)

same_bytes-eq : (xs ys : Bytes) → length xs ≡ length ys → same_bytes xs ys ≡ true → xs ≡ ys
same_bytes-eq [] [] h e = refl
same_bytes-eq [] (y ∷ ys) h e = ground arith
same_bytes-eq (x ∷ xs) [] h e = ground arith
same_bytes-eq (x ∷ xs) (y ∷ ys) h e = ground (arith, same_bytes-eq xs ys)

bytes_equal-eq : (xs ys : Bytes) → bytes_equal xs ys ≡ true → xs ≡ ys
bytes_equal-eq xs ys e = ground (arith, same_bytes-eq xs ys)

same_bytes_self : (xs : Bytes) → same_bytes xs xs ≡ true
same_bytes_self [] = refl
same_bytes_self (x ∷ xs) = ground (arith, same_bytes_self xs)

-- The messages of the round are those the client saw before it revealed its key.
abbrev pub SameMsgs : List Msg → List Msg → Type 0
SameMsgs [] before = Unit
SameMsgs (x ∷ xs) [] = ⊥
SameMsgs (x ∷ xs) (y ∷ before) = (x.m ≡ y.m) × SameMsgs xs before

pub unchanged-SameMsgs :
    (xs before : List Msg) → unchanged xs before ≡ passes tt → SameMsgs xs before
unfolding unchanged
unchanged-SameMsgs [] before e = tt
unchanged-SameMsgs (x ∷ xs) [] e = ground arith
unchanged-SameMsgs (x ∷ xs) (y ∷ before) e =
    ground (arith, unchanged-SameMsgs xs before, bytes_equal-eq x.m y.m)

module _ (sum256 : Bytes → Bytes) where
  -- Every revealed key has the hash that was announced for it.
  abbrev pub HashesMatch : List PrivateKey → List Bytes → Type 0
  HashesMatch [] hashes = Unit
  HashesMatch (k ∷ ks) [] = ⊥
  HashesMatch (k ∷ ks) (h ∷ hashes) = (sum256 (k.e ++ k.d) ≡ h) × HashesMatch ks hashes

  open_one-HashesMatch :
      (c : Option CommutativeCrypto) (ks : List PrivateKey) (hashes : List Bytes) (x : Msg)
      (b : Bytes)
      → open_one sum256 c ks hashes x ≡ passes b
      → HashesMatch ks hashes
  unfolding open_one
  open_one-HashesMatch c [] hashes x b e = tt
  open_one-HashesMatch c (k ∷ ks) [] x b e = ground arith
  open_one-HashesMatch none (k ∷ ks) (h ∷ hashes) x b e = ground arith
  open_one-HashesMatch (some c) (k ∷ ks) (h ∷ hashes) x b e = ground (
    arith,
    open_one-HashesMatch (some c) ks hashes (c.decrypt k x) b,
    bytes_equal-eq (sum256 (k.e ++ k.d)) h,
  )

  pub open_all-HashesMatch :
      (c : Option CommutativeCrypto) (ks : List PrivateKey) (hashes : List Bytes) (x : Msg)
      (xs : List Msg) (bs : List Bytes)
      → open_all sum256 c ks hashes (x ∷ xs) ≡ passes bs
      → HashesMatch ks hashes
  unfolding open_all
  open_all-HashesMatch c ks hashes x xs bs e =
      let (b, one, _) =
        then_check-passes (open_one sum256 c ks hashes x)
          (λ b. then_check (open_all sum256 c ks hashes xs) (λ bs. passes (b ∷ bs))) bs e in
      open_one-HashesMatch c ks hashes x b one

module _ (c : CommutativeCrypto) where
  -- A message with the layers of all keys taken off.
  abbrev pub opened_by : List PrivateKey → Msg → Msg
  opened_by [] x = x
  opened_by (k ∷ ks) x = opened_by ks (c.decrypt k x)

-- Each message, with the layers of all keys taken off, holds just the plaintext at its place.
abbrev pub OpensTo : Option CommutativeCrypto → List PrivateKey → List Msg → List Bytes → Type 0
OpensTo c ks [] bs = bs ≡ []
OpensTo c ks (x ∷ xs) [] = ⊥
OpensTo none ks (x ∷ xs) (b ∷ bs) = ⊥
OpensTo (some c) ks (x ∷ xs) (b ∷ bs) =
    (c.extract_msg (opened_by c ks x) ≡ some b) × OpensTo (some c) ks xs bs

-- Each plaintext begins with a whole header, whose first eight bytes are 13.
abbrev pub AllHeaded : List Bytes → Type 0
AllHeaded [] = Unit
AllHeaded (b ∷ bs) =
    ((16 ≤ length b) × (rest : Bytes) × (take 16 b ≡ 13 ∷ 13 ∷ 13 ∷ 13 ∷ 13 ∷ 13 ∷ 13 ∷ 13 ∷ rest))
    × AllHeaded bs

-- The headers, and the contents, of the plaintexts that have any content behind the header.
abbrev pub headers_of : List Bytes → List Bytes
headers_of [] = []
headers_of (b ∷ bs) =
    let rest = headers_of bs in if ltb 16 (length b) then take 16 b ∷ rest else rest

abbrev pub contents_of : List Bytes → List Bytes
contents_of [] = []
contents_of (b ∷ bs) =
    let rest = contents_of bs in if ltb 16 (length b) then drop 16 b ∷ rest else rest

abbrev pub Differs : Bytes → List Bytes → Type 0
Differs h [] = Unit
Differs h (h' ∷ hs) = (h ≢ h') × Differs h hs

abbrev pub AllDistinct : List Bytes → Type 0
AllDistinct [] = Unit
AllDistinct (h ∷ hs) = Differs h hs × AllDistinct hs

module _ (sum256 : Bytes → Bytes) where
  open_one-opened_by :
      (c : CommutativeCrypto) (ks : List PrivateKey) (hashes : List Bytes) (x : Msg) (b : Bytes)
      → open_one sum256 (some c) ks hashes x ≡ passes b
      → c.extract_msg (opened_by c ks x) ≡ some b
  unfolding open_one
  open_one-opened_by c [] hashes x b e = ground arith
  open_one-opened_by c (k ∷ ks) [] x b e = ground arith
  open_one-opened_by c (k ∷ ks) (h ∷ hashes) x b e =
      ground (arith, open_one-opened_by c ks hashes (c.decrypt k x) b)

  open_one_without :
      (ks : List PrivateKey) (hashes : List Bytes) (x : Msg) (b : Bytes)
      → open_one sum256 none ks hashes x ≡ passes b
      → ⊥
  unfolding open_one
  open_one_without [] hashes x b e = ground arith
  open_one_without (k ∷ ks) [] x b e = ground arith
  open_one_without (k ∷ ks) (h ∷ hashes) x b e = ground arith

  open_one-OpensTo :
      (c : Option CommutativeCrypto) (ks : List PrivateKey) (hashes : List Bytes) (x : Msg)
      (xs : List Msg) (b : Bytes) (bs : List Bytes)
      → open_one sum256 c ks hashes x ≡ passes b
      → OpensTo c ks xs bs
      → OpensTo c ks (x ∷ xs) (b ∷ bs)
  open_one-OpensTo none ks hashes x xs b bs e o = absurd (open_one_without ks hashes x b e)
  open_one-OpensTo (some c) ks hashes x xs b bs e o = (open_one-opened_by c ks hashes x b e, o)

  pub open_all-OpensTo :
      (c : Option CommutativeCrypto) (ks : List PrivateKey) (hashes : List Bytes) (xs : List Msg)
      (bs : List Bytes)
      → open_all sum256 c ks hashes xs ≡ passes bs
      → OpensTo c ks xs bs
  unfolding open_all
  open_all-OpensTo c ks hashes [] bs e = ground arith
  open_all-OpensTo c ks hashes (x ∷ xs) bs e =
      let (b, one, more) =
        then_check-passes (open_one sum256 c ks hashes x)
          (λ b. then_check (open_all sum256 c ks hashes xs) (λ bs. passes (b ∷ bs))) bs e in
      let (rest, all, eq) =
        then_check-passes (open_all sum256 c ks hashes xs) (λ bs. passes (b ∷ bs)) bs more in
      let ih = open_all-OpensTo c ks hashes xs rest all in
      let q : b ∷ rest ≡ bs = ground arith in
      rw (← q) (open_one-OpensTo c ks hashes x xs b rest one ih)

same_bytes-prefix : (xs ys : Bytes) → same_bytes xs ys ≡ true → (rest : Bytes) × (ys ≡ xs ++ rest)
same_bytes-prefix [] ys e = (ys, refl)
same_bytes-prefix (x ∷ xs) [] e = ground arith
same_bytes-prefix (x ∷ xs) (y ∷ ys) e = elim (Bool-cases (x == y)) [
  | inl t ↦
      let (rest, q) = same_bytes-prefix xs ys (rw t at e) in
      let h : x ≡ y = ground arith in (rest, rw (q, h) refl)
  | inr f ↦ ground (arith, rw f at e)
]

-- The headers of the parts.
abbrev heads : List Parts → List Bytes
heads [] = []
heads ((h, m) ∷ ps) = h ∷ heads ps

has_header-Differs : (h : Bytes) (ps : List Parts) → has_header h ps ≡ false → Differs h (heads ps)
has_header-Differs h [] e = tt
has_header-Differs h ((h', m) ∷ ps) e = elim (Bool-cases (same_bytes h h')) [
  | inl t ↦ ground arith
  | inr f ↦
      ((λ q. ground (arith, rw q at f, same_bytes_self h')), has_header-Differs h ps (rw f at e))
]

duplicated-AllDistinct : (ps : List Parts) → duplicated ps ≡ false → AllDistinct (heads ps)
duplicated-AllDistinct [] e = tt
duplicated-AllDistinct ((h, m) ∷ ps) e =
    ground (arith, has_header-Differs h ps, duplicated-AllDistinct ps)

split_all-passes :
    (m : Bytes) (ms : List Bytes) (ps : List Parts)
    → split_all (m ∷ ms) ≡ passes ps
    → let h = take header_length m in
      (qs : List Parts) × (16 ≤ length m)
      × (verify_header h ≡ true)
      × (split_all ms ≡ passes qs)
      × (ps ≡ (if ltb header_length (length m) then (h, drop header_length m) ∷ qs else qs))
unfolding split_all
split_all-passes m ms ps e = elim (Bool-cases (ltb (length m) header_length)) [
  | inl short ↦ ground (arith, rw short at e)
  | inr long ↦
      let e' = (rw long at e) in
      elim (Bool-cases (verify_header (take header_length m))) [
        | inr bad ↦ ground (arith, rw bad at e')
        | inl v ↦
            let h = take header_length m in
            let (qs, q, s) =
              then_check-passes (split_all ms)
                (λ qs.
                  passes
                    (if ltb header_length (length m) then (h, drop header_length m) ∷ qs else qs))
                ps (rw v at e') in
            (qs, ground arith, v, q, ground (arith, s))
      ]
]

-- What a list of plaintexts is split into.
abbrev IsSplit : List Bytes → List Parts → Type 0
IsSplit ms ps = AllHeaded ms × (heads ps ≡ headers_of ms) × (bodies ps ≡ contents_of ms)

split_all-IsSplit : (ms : List Bytes) (ps : List Parts) → split_all ms ≡ passes ps → IsSplit ms ps
unfolding split_all
split_all-IsSplit [] ps e = ground arith
split_all-IsSplit (m ∷ ms) ps e =
    let (qs, long, v, q, s) = split_all-passes m ms ps e in
    let (rest, w) = same_bytes-prefix (13 ∷ 13 ∷ 13 ∷ 13 ∷ 13 ∷ 13 ∷ 13 ∷ 13 ∷ []) _ v in
    let (headed, hs, cs) = split_all-IsSplit ms qs q in
    elim (Bool-cases (ltb header_length (length m))) [
      | inl y ↦ (((long, rest, w), headed), ground (arith, s, y, hs), ground (arith, s, y, cs))
      | inr n ↦ (((long, rest, w), headed), ground (arith, s, n, hs), ground (arith, s, n, cs))
    ]

-- What the checks of the plaintexts establish, and what they return.
pub checked-contents :
    (plain ms : List Bytes)
    → then_check (split_all plain) no_duplicates ≡ passes ms
    → AllHeaded plain × AllDistinct (headers_of plain) × (ms ≡ contents_of plain)
checked-contents plain ms e =
    let (ps, s, d) = then_check-passes (split_all plain) no_duplicates ms e in
    let (headed, hs, cs) = split_all-IsSplit plain ps s in
    elim (Bool-cases (duplicated ps)) [
      | inl y ↦ ground (arith, rw y at d)
      | inr n ↦ (headed, rw (← hs) (duplicated-AllDistinct ps n), ground (arith, rw n at d, cs))
    ]
