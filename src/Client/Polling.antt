-- ===== src/Client/Polling.antt =====
-- The clients of anonbcast/client.go and anonbcast/clientconfigurationchange.go always have a server to
-- ask, and ask each of them in turn.
use eggscrambler.Base.{
  ℕ, zero, suc, ◌+◌, ◌<◌, ◌≡◌, refl, ap, ◌∙◌, ◌==◌, ◌%◌, Bool, true, false, some, List, [], ◌∷◌,
  if◌then◌else◌, ltb, ◌-◌, ◌⊎◌, inl, inr, arith, length, get_elem?, get_elem?-some, Bool-cases,
}
use eggscrambler.Server.Core.{Configuration}
use eggscrambler.Server.RespChannels.{find}
use eggscrambler.Client.Peers.{
  new_peers, on_configuration, flags_for, map_to_slice, PeerEvent, configured, call_failed,
  starts_leaving, run_peers, Peers, potential_leader, update_leader, Verdict, ask_next, ask_again,
  stop, Surroundings, polled, poll,
}
use native.Mathlib.Nat.{mod-eq_of_lt, mod_self}

abbrev pub IsInRange : Peers → Type 0
IsInRange p = p.last_known_leader < length p.curr_conf

next-eq :
    (p : Peers)
    → p.last_known_leader + 1 < length p.curr_conf
    → update_leader p ≡ some (record p { last_known_leader = p.last_known_leader + 1 })
unfolding update_leader
next-eq p h = ground (arith, mod-eq_of_lt h)

first-eq :
    (p : Peers)
    → p.last_known_leader + 1 ≡ length p.curr_conf
    → update_leader p ≡ some (record p { last_known_leader = 0 })
unfolding update_leader
first-eq p h =
    let start : (p.last_known_leader + 1) % length p.curr_conf ≡ 0 =
      rw (← h) (mod_self (p.last_known_leader + 1)) in
    ground arith

-- The list of servers and the index of the one to ask stay as they are.
abbrev pub Keeps : (ℕ → Peers → Peers) → Type 0
Keeps f =
    (now : ℕ) (p : Peers)
    → ((f now p).curr_conf ≡ p.curr_conf) × ((f now p).last_known_leader ≡ p.last_known_leader)

-- The client is not killed, and no other routine changes the list of servers or the index of the one to
-- ask: neither before a call nor while it is under way.
pub record IsUndisturbed (around : Surroundings) : Type 0 where
  pub alive : (now : ℕ) → around.killed now ≡ false
  pub before : Keeps around.before_call
  pub during : Keeps around.during_call

-- The place after a place in a list of `n`, where the first one comes after the last.
abbrev next_of : ℕ → ℕ → ℕ
next_of n k = if k + 1 == n then 0 else k + 1

-- An answer that has the loop ask the next server.
abbrev pub AsksNext : {A : Type 0} → Verdict A → Type 0
AsksNext (ask_next a) = Unit
AsksNext v = ⊥

AsksNext-cases : {A : Type 0} (v : Verdict A) → AsksNext v → (a : A) × (v ≡ ask_next a)
AsksNext-cases (ask_next a) h = (a, refl)
AsksNext-cases (ask_again a) h = absurd h
AsksNext-cases (stop a) h = absurd h

module _ {A : Type 0} (around : Surroundings) (quiet : IsUndisturbed around) (ask : ℕ → Verdict A)
    (a : A) (conf : List ℕ)
    (agree : (j server : ℕ)
      → get_elem? conf j ≡ some server
      → AsksNext (ask server) ⊎ (ask server ≡ stop a))
    (i server : ℕ) (at : get_elem? conf i ≡ some server) (stops : ask server ≡ stop a)
    (lt : i < length conf) where
  one_stop :
      (n now : ℕ) (last : A) (p : Peers) (s : ℕ)
      → p.curr_conf ≡ conf
      → get_elem? conf p.last_known_leader ≡ some s
      → ask s ≡ stop a
      → (p' : Peers) × (poll around (λ time s. ask s) last now (suc n) p ≡ polled a p')
  unfolding poll
  one_stop n now last p s c at q =
      let (c1, k1) = quiet.before now p in
      let asked : potential_leader (around.before_call now p) ≡ some s = rw (c1, k1, c) at in
      (around.during_call now (around.before_call now p), rw (poll, quiet.alive now, asked, q) refl)

  one_next :
      (n now : ℕ) (last b : A) (p : Peers) (s : ℕ)
      → p.curr_conf ≡ conf
      → p.last_known_leader < length conf
      → get_elem? conf p.last_known_leader ≡ some s
      → ask s ≡ ask_next b
      → (p3 : Peers) × (p3.curr_conf ≡ conf)
        × (p3.last_known_leader ≡ next_of (length conf) p.last_known_leader)
        × (poll around (λ time s. ask s) last now (suc n) p
            ≡ poll around (λ time s. ask s) b (suc now) n p3)
  unfolding poll
  one_next n now last b p s c r at q =
      let p1 = around.before_call now p in
      let p2 = around.during_call now p1 in
      let (c1, k1) = quiet.before now p in
      let (c2, k2) = quiet.during now p1 in
      let cc2 : p2.curr_conf ≡ conf = c2 ∙ c1 ∙ c in
      let kk2 : p2.last_known_leader ≡ p.last_known_leader = k2 ∙ k1 in
      let same : length p2.curr_conf ≡ length conf = ap length cc2 in
      let asked : potential_leader p1 ≡ some s = rw (c1, k1, c) at in
      elim (Bool-cases (p.last_known_leader + 1 == length conf)) [
        | inl f ↦
            let step = first-eq p2 (ground arith) in
            (
              record p2 { last_known_leader = 0 },
              cc2,
              ground arith,
              rw (poll, quiet.alive now, asked, q, step) refl,
            )
        | inr f ↦
            let step = next-eq p2 (ground arith) in
            (
              record p2 { last_known_leader = p2.last_known_leader + 1 },
              cc2,
              ground arith,
              rw (poll, quiet.alive now, asked, q, step) refl,
            )
      ]

  -- `d` is how many servers come before the one that answers.
  poll_reaches :
      (d n now : ℕ) (last : A) (p : Peers)
      → p.curr_conf ≡ conf
      → d < n
      → p.last_known_leader < length conf
      → (p.last_known_leader + d ≡ i) ⊎ (p.last_known_leader + d ≡ i + length conf)
      → (p' : Peers) × (poll around (λ time s. ask s) last now n p ≡ polled a p')
  poll_reaches d zero now last p c h r e = absurd (omega arith)
  poll_reaches zero (suc n) now last p c h r e =
      let here : p.last_known_leader ≡ i = omega arith in
      one_stop n now last p server c (rw here at) stops
  poll_reaches (suc d) (suc n) now last p c h r e =
      let (s, asked) = get_elem?-some conf p.last_known_leader r in
      elim (agree p.last_known_leader s asked) [
        | inr q ↦ one_stop n now last p s c asked q
        | inl q ↦
            let (b, v) = AsksNext-cases (ask s) q in
            let (p3, c3, k3, eq) = one_next n now last b p s c r asked v in
            let (p', ends) =
              poll_reaches d n (suc now) b p3 c3 (omega arith) (ground arith) (ground arith) in
            (p', eq ∙ ends)
      ]

  -- If the servers of the configuration answer the same at all times, some of them so that the loop
  -- ends with the result `a` and the others so that it asks the next one, the server that is asked
  -- first is one of them, and the loop is not disturbed, then it ends with `a` after at most as many
  -- calls as there are servers.
  pub poll_ends :
      (now : ℕ) (last : A) (p : Peers)
      → p.curr_conf ≡ conf
      → p.last_known_leader < length conf
      → (p' : Peers) × (poll around (λ time s. ask s) last now (length conf) p ≡ polled a p')
  poll_ends now last p c r = elim (Bool-cases (ltb i p.last_known_leader)) [
    | inl e ↦
        poll_reaches (i + length conf - p.last_known_leader) (length conf) now last p c
          (ground arith) r (ground arith)
    | inr e ↦
        poll_reaches (i - p.last_known_leader) (length conf) now last p c (ground arith) r
          (ground arith)
  ]

abbrev pub NoneEmpty : List PeerEvent → Type 0
NoneEmpty [] = Unit
NoneEmpty (configured [] ∷ es) = ⊥
NoneEmpty (e ∷ es) = NoneEmpty es

module _ (debug : Bool) (server_id : ℕ) where
  configured-IsInRange :
      (p : Peers) (x : ℕ × Bool) (conf : Configuration)
      → (p' : Peers) × (on_configuration debug server_id (x ∷ conf) p ≡ some p') × IsInRange p'
  unfolding on_configuration
  configured-IsInRange p x conf =
      let p' : Peers = record (flags_for (find server_id (x ∷ conf)) p) {
        curr_conf = map_to_slice (x ∷ conf);
        last_known_leader = 0;
      } in
      (p', ground arith, omega arith)

  update_leader-IsInRange :
      (p : Peers) → IsInRange p → (p' : Peers) × (update_leader p ≡ some p') × IsInRange p'
  update_leader-IsInRange p r = elim (Bool-cases (p.last_known_leader + 1 == length p.curr_conf)) [
    | inl e ↦ (record p { last_known_leader = 0 }, first-eq p (ground arith), ground arith)
    | inr e ↦ (
      record p { last_known_leader = p.last_known_leader + 1 },
      next-eq p (ground arith),
      ground arith,
    )
  ]

  peers-IsInRange :
      (es : List PeerEvent) (p : Peers)
      → NoneEmpty es
      → IsInRange p
      → (p' : Peers) × (run_peers debug server_id (some p) es ≡ some p') × IsInRange p'
  peers-IsInRange [] p n r = (p, refl, r)
  peers-IsInRange (configured [] ∷ es) p n r = absurd n
  peers-IsInRange (configured (x ∷ conf) ∷ es) p n r =
      let (p1, e, r1) = configured-IsInRange p x conf in
      let (p', eq, r') = peers-IsInRange es p1 n r1 in
      (p', ap (λ o. run_peers debug server_id o es) e ∙ eq, r')
  peers-IsInRange (call_failed ∷ es) p n r =
      let (p1, e, r1) = update_leader-IsInRange p r in
      let (p', eq, r') = peers-IsInRange es p1 n r1 in
      (p', ap (λ o. run_peers debug server_id o es) e ∙ eq, r')
  peers-IsInRange (starts_leaving ∷ es) p n r = peers-IsInRange es (record p { leaving = true }) n r

  -- A client that starts with at least one server, and is sent no empty configuration, never panics in
  -- choosing a server: whatever configurations come and calls fail, in whatever order, with the
  -- assertions or without, the index of the server to ask stays within the list of servers.
  pub run_peers-IsInRange :
      (server : ℕ) (seed : List ℕ) (es : List PeerEvent)
      → NoneEmpty es
      → (p : Peers) × (run_peers debug server_id (new_peers debug (server ∷ seed)) es ≡ some p)
        × IsInRange p
  unfolding new_peers
  run_peers-IsInRange server seed es n =
      let p : Peers = record {
        active = false;
        leaving = false;
        curr_conf = server ∷ seed;
        last_known_leader = 0;
      } in
      let start : new_peers debug (server ∷ seed) ≡ some p = ground arith in
      let (p', eq, r') = peers-IsInRange es p n (omega arith) in
      (p', ap (λ o. run_peers debug server_id o es) start ∙ eq, r')
