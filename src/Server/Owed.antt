-- ===== src/Server/Owed.antt =====
-- What Raft owes to the calls of `SubmitOp` of anonbcast/server.go that wait: a command, or the loss of
-- the leadership.
use eggscrambler.Base.{
  ℕ, ◌≡◌, ◌==◌, if◌then◌else◌, refl, Bool, true, false, Option, none, some, List, [], ◌∷◌, ◌++◌,
  inl, inr, arith, map, Option-cases,
}
use eggscrambler.StateMachine.Ops.{Op}
use eggscrambler.Server.RespChannels.{find, delete, get, find-delete, values, closed_by_clear}
use eggscrambler.Server.Core.{command, reply_to}
use eggscrambler.Server.System.{Event, submits, receives, System, deliver, deliver_all, IsThat}

-- Whether a channel is in a list.
unfoldable pub among : ℕ → List ℕ → Bool
among ch [] = false
among ch (x ∷ xs) = let rest = among ch xs in if ch == x then true else rest

among-++ :
    (ch : ℕ) (xs ys : List ℕ) → among ch (xs ++ ys) ≡ (if among ch xs then true else among ch ys)
unfolding among
among-++ ch [] ys = refl
among-++ ch (x ∷ xs) ys = ground (arith, among-++ ch xs ys)

find-among : (j ch : ℕ) (mm : List (ℕ × ℕ)) → find j mm ≡ some ch → among ch (values mm) ≡ true
unfolding among find values
find-among j ch [] h = ground arith
find-among j ch ((k, c) ∷ mm) h = ground (arith, find-among j ch mm)

-- `Clear` closes every channel that `Get` gives.
pub get-among :
    (r : List (ℕ × List (ℕ × ℕ))) (t i ch : ℕ)
    → get r t i ≡ some ch
    → among ch (closed_by_clear r) ≡ true
unfolding get find closed_by_clear
get-among [] t i ch h = ground arith
get-among ((k, mm) ∷ r) t i ch h =
    ground
      (arith, among-++ ch (values mm) (closed_by_clear r), find-among i ch mm, get-among r t i ch)

-- What Raft promises of one event.
abbrev pub IsAllowed : {C : Type 0} → (ℕ → ℕ → Option (Op C)) → Event C → Type 0
IsAllowed started (submits op (some (term, index))) = started term index ≡ none
IsAllowed started (receives (command term index op)) = IsThat (started term index) op
IsAllowed started e = Unit

module _ {C : Type 0} where
  pub closed-find :
      (chs : List ℕ) (sys sys' : System C) (ch : ℕ)
      → deliver_all sys (map (λ c. (c, false)) chs) ≡ some sys'
      → find ch sys'.pending ≡ (if among ch chs then none else find ch sys.pending)
  unfolding deliver_all deliver among
  closed-find [] sys sys' ch h = ground (arith, h)
  closed-find (c ∷ chs) sys sys' ch h = elim (Option-cases (find c sys.pending)) [
    | inl e ↦ ground (arith, e, h, closed-find chs sys sys' ch)
    | inr (op, e) ↦
        let sys1 : System C = record sys {
          pending = delete c sys.pending;
          answers = (op, reply_to false) ∷ sys.answers;
        } in
        ground (arith, e, h, closed-find chs sys1 sys' ch, find-delete ch c sys.pending)
  ]

  -- A call that waits: its channel, with a started command that has not been committed yet.
  abbrev pub Owed : (ℕ → ℕ → Option (Op C)) → (ℕ → ℕ → Bool) → System C → Type 0
  Owed started delivered sys =
      (ch : ℕ) (op : Op C)
      → find ch sys.pending ≡ some op
      → (t : ℕ) × (i : ℕ) × (get sys.server.resps t i ≡ some ch)
        × (started t i ≡ some op)
        × (delivered t i ≡ false)

  -- A command starts at a place where nothing has been committed.
  abbrev pub IsAhead : (ℕ → ℕ → Bool) → Event C → Type 0
  IsAhead delivered (submits op (some (term, index))) = delivered term index ≡ false
  IsAhead delivered e = Unit
