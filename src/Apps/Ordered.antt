-- ===== src/Apps/Ordered.antt =====
-- `resultOrderer` of localconfessions/confessions.go on results in any order.
use eggscrambler.Base.{
  ℕ, ◌+◌, ◌≤◌, ◌<◌, ◌≡◌, refl, ltb, some, List, [], ◌∷◌, ◌++◌, pos, arith, length, get_elem?, set,
  drop, ◌⊎◌, inl, inr, Bool-cases,
}
use eggscrambler.Client.Results.{RoundResult}
use eggscrambler.Apps.Orderer.{Orderer, new_orderer, grow, ready, on_result, run_orderer}
use eggscrambler.Apps.Placed.{Among, Good, placed-Good}

-- The rounds of the results are no negative numbers.
abbrev pub IsNumbered : List RoundResult → Type 0
IsNumbered [] = Unit
IsNumbered (r ∷ rs) = ((n : ℕ) × (r.round ≡ pos n)) × IsNumbered rs

-- What has been passed on when the results have come, in the one order or the other.
abbrev turn : List RoundResult → List RoundResult → List RoundResult
turn seen [] = seen
turn seen (r ∷ rs) = turn (r ∷ seen) rs

run_orderer-Good :
    (rs seen : List RoundResult) (o : Orderer) (sent : List RoundResult)
    → IsNumbered rs
    → Good seen o sent
    → (out : List RoundResult) × (o' : Orderer) × (run_orderer o sent rs ≡ some out)
      × Good (turn seen rs) o' out
unfolding run_orderer on_result
run_orderer-Good [] seen o sent v g = (sent, o, refl, g)
run_orderer-Good (r ∷ rs) seen o sent ((n, e), v) g =
    let placed = set (grow n o.results) n r in
    let out = ready (drop o.apply_index placed) in
    let o1 : Orderer = record { results = placed; apply_index = o.apply_index + length out } in
    let (all, o', f, g') =
      run_orderer-Good rs (r ∷ seen) o1 (sent ++ out) v (placed-Good seen o sent r n e g) in
    (all, o', ground (arith, e, f), g')

Among-turned :
    (rs seen : List RoundResult) (x : RoundResult)
    → Among x (turn seen rs)
    → Among x rs ⊎ Among x seen
Among-turned [] seen x a = inr a
Among-turned (r ∷ rs) seen x a = elim (Among-turned rs (r ∷ seen) x a) [
  | inl b ↦ inl (inr b)
  | inr (inl same) ↦ inl (inl same)
  | inr (inr b) ↦ inr b
]

Among-turn :
    (rs seen : List RoundResult) (x : RoundResult)
    → Among x rs ⊎ Among x seen
    → Among x (turn seen rs)
Among-turn [] seen x (inl b) = absurd b
Among-turn [] seen x (inr b) = b
Among-turn (r ∷ rs) seen x (inl (inl same)) = Among-turn rs (r ∷ seen) x (inr (inl same))
Among-turn (r ∷ rs) seen x (inl (inr b)) = Among-turn rs (r ∷ seen) x (inl b)
Among-turn (r ∷ rs) seen x (inr b) = Among-turn rs (r ∷ seen) x (inr (inr b))

came : (rs : List RoundResult) (x : RoundResult) → Among x (turn [] rs) → Among x rs
came rs x a = elim (Among-turned rs [] x a) [ inl b ↦ b | inr b ↦ absurd b ]

abbrev pub HasRound : ℕ → List RoundResult → Type 0
HasRound n rs = (r : RoundResult) × Among r rs × (r.round ≡ pos n)

-- The results `out` are some of the results `rs`, those of the first rounds, in their order and with no
-- round twice; and no result is held back if those of the rounds before it are there.
pub record IsInOrder (rs out : List RoundResult) : Type 0 where
  pub in_place :
      (i : ℕ) (x : RoundResult) → get_elem? out i ≡ some x → (x.round ≡ pos i) × Among x rs
  pub complete : (n : ℕ) → ((j : ℕ) → j ≤ n → HasRound j rs) → n < length out

new_orderer-Good : Good [] new_orderer []
new_orderer-Good = record {
  slots = λ i x h k. ground arith;
  heard = λ r n a k. absurd a;
  edge = λ x h. ground arith;
  count = refl;
  order = λ i x h. ground arith;
}

-- Whatever the order in which results come, if their rounds are no negative numbers: `resultOrderer`
-- does not panic, and what it has passed on then are results that came: that of round 0, that of
-- round 1, and so on, with all rounds up to the first one whose result has not come.
pub run_orderer-IsInOrder :
    (rs : List RoundResult)
    → IsNumbered rs
    → (out : List RoundResult) × (run_orderer new_orderer [] rs ≡ some out) × IsInOrder rs out
run_orderer-IsInOrder rs v =
    let (out, o, h, g) = run_orderer-Good rs [] new_orderer [] v new_orderer-Good in
    (
      out,
      h,
      record {
        in_place = λ i x f. let (e, a) = g.order i x f in (e, came rs x a);
        complete = λ n all. elim (Bool-cases (ltb n (length out))) [
          | inl l ↦ ground (arith, l)
          | inr l ↦
              let (r, a, e) = all o.apply_index (ground (arith, l, g.count)) in
              let (x, f, there) = g.heard r o.apply_index (Among-turn rs [] r (inl a)) e in
              absurd (ground (arith, g.edge x f, there))
        ];
      },
    )
