-- ===== src/Server/Balance.antt =====
-- The balance of the calls of `SubmitOp` of anonbcast/server.go: those that wait and those that have
-- been answered.
use mathlib.Core.List.{Perm}
use mathlib.Core.List.Perm
use mathlib.Core.List.{perm_middle}
use eggscrambler.Base.{
  ℕ, ◌<◌, ◌≡◌, refl, ◌==◌, Bool, none, some, List, [], ◌∷◌, ◌++◌, inl, inr, arith, map,
  Option-cases, Bool-cases,
}
use eggscrambler.StateMachine.Ops.{Op}
use eggscrambler.Server.RespChannels.{find, delete, find-delete}
use eggscrambler.Server.Core.{Err, reply_to}
use eggscrambler.Server.System.{System, deliver}

module _ {C : Type 0} where
  abbrev pub answered_ops : List (Op C × Err) → List (Op C)
  answered_ops = map (λ (op, e). op)

  abbrev pub open_ops : List (ℕ × Op C) → List (Op C)
  open_ops = map (λ (ch, op). op)

  -- Each channel stands there once.
  abbrev pub Distinct : List (ℕ × Op C) → Type 0
  Distinct [] = Unit
  Distinct ((ch, op) ∷ m) = (find ch m ≡ none) × Distinct m

  delete_missing : (ch : ℕ) (m : List (ℕ × Op C)) → find ch m ≡ none → delete ch m ≡ m
  unfolding find delete
  delete_missing ch [] h = refl
  delete_missing ch ((c, x) ∷ m) h = ground (arith, delete_missing ch m)

  delete-Distinct : (ch : ℕ) (m : List (ℕ × Op C)) → Distinct m → Distinct (delete ch m)
  unfolding delete
  delete-Distinct ch [] d = tt
  delete-Distinct ch ((c, x) ∷ m) (f, d) = elim (Bool-cases (ch == c)) [
    | inl e ↦ rw e (delete-Distinct ch m d)
    | inr e ↦ rw e (ground (arith, find-delete c ch m, f), delete-Distinct ch m d)
  ]

  taken-Perm :
      (ch : ℕ) (op : Op C) (m : List (ℕ × Op C))
      → Distinct m
      → find ch m ≡ some op
      → Perm (open_ops m) (op ∷ open_ops (delete ch m))
  unfolding find delete
  taken-Perm ch op [] d h = absurd (ground arith)
  taken-Perm ch op ((c, x) ∷ m) (f, d) h = elim (Bool-cases (ch == c)) [
    | inl e ↦
        let same : x ≡ op = ground (arith, rw e at h) in
        let gone : delete ch m ≡ m = delete_missing ch m (ground (arith, e, f)) in
        rw (e, gone, same) (Perm.refl (op ∷ open_ops m))
    | inr e ↦ rw e (
        Perm.trans (Perm.cons x (taken-Perm ch op m d (rw e at h)))
          (Perm.swap op x (open_ops (delete ch m))))
  ]

  pub record Balance (asked : List (Op C)) (sys : System C) : Type 0 where
    pub perm : Perm (answered_ops sys.answers ++ open_ops sys.pending) asked
    pub distinct : Distinct sys.pending
    pub fresh : (ch : ℕ) (op : Op C) → find ch sys.pending ≡ some op → ch < sys.server.next_channel

  module _ (asked : List (Op C)) (sys sys' : System C) where
    pub same-Balance :
        sys'.answers ≡ sys.answers
        → sys'.pending ≡ sys.pending
        → sys'.server.next_channel ≡ sys.server.next_channel
        → Balance asked sys
        → Balance asked sys'
    same-Balance e1 e2 e3 b = record {
      perm = rw (e1, e2) b.perm;
      distinct = rw e2 b.distinct;
      fresh = rw (e2, e3) b.fresh;
    }

    pub deliver-Balance :
        (ch : ℕ) (resp : Bool)
        → deliver sys (ch, resp) ≡ some sys'
        → Balance asked sys
        → Balance asked sys'
    unfolding deliver
    deliver-Balance ch resp h b = elim (Option-cases (find ch sys.pending)) [
      | inl e ↦ let same : sys ≡ sys' = ground (arith, e, h) in rw (← same) b
      | inr (op, e) ↦
          let rest = delete ch sys.pending in
          let after : System C = record sys {
            pending = rest;
            answers = (op, reply_to resp) ∷ sys.answers;
          } in
          let same : after ≡ sys' = ground (arith, e, h) in
          let taken = taken-Perm ch op sys.pending b.distinct e in
          let moved : Perm (op ∷ (answered_ops sys.answers ++ open_ops rest)) asked =
            Perm.trans (Perm.symm (perm_middle (answered_ops sys.answers) (open_ops rest)))
              (Perm.trans (Perm.append_left (answered_ops sys.answers) (Perm.symm taken)) b.perm) in
          let balance : Balance asked after = record {
            perm = moved;
            distinct = delete-Distinct ch sys.pending b.distinct;
            fresh = λ c x f. b.fresh c x (ground (arith, f, find-delete c ch sys.pending));
          } in
          rw (← same) balance
    ]
