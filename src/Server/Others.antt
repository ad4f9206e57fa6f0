-- ===== src/Server/Others.antt =====
-- What an event does to the tables of a server of anonbcast/server.go.
use eggscrambler.Base.{ℕ, ◌≡◌, refl, Bool, true, false, some, arith, inl, inr, Option-cases}
use eggscrambler.StateMachine.Ops.{Op}
use eggscrambler.StateMachine.Machine.{apply}
use eggscrambler.Server.RespChannels.{get}
use eggscrambler.Server.Core.{
  Server, response, send_copies, send_state_machine_update, command, raft_update, snapshot,
  configuration, no_message, apply_msg, get_upd_ch, close_upd_ch, send_configuration_update,
}
use eggscrambler.Server.System.{
  Event, submits, receives, opens, closes, System, happen, deliver_all,
}

module _ {C : Type 0} where
  abbrev pub IsOther : Event C → Type 0
  IsOther (submits op start) = ⊥
  IsOther (receives (command t i op)) = ⊥
  IsOther (receives (raft_update false)) = ⊥
  IsOther (receives (raft_update true)) = Unit
  IsOther (receives snapshot) = Unit
  IsOther (receives (configuration conf)) = Unit
  IsOther (receives no_message) = Unit
  IsOther opens = Unit
  IsOther (closes i) = Unit

  -- All is as it was but for the channels for updates.
  abbrev pub KeepsTables : System C → System C → Type 0
  KeepsTables sys sys' =
      (sys'.server.sm ≡ sys.server.sm)
      × (sys'.server.resps ≡ sys.server.resps)
      × (sys'.server.next_channel ≡ sys.server.next_channel)
      × (sys'.pending ≡ sys.pending)
      × (sys'.answers ≡ sys.answers)

  pub other-KeepsTables :
      (debug : Bool) (e : Event C) (sys sys' : System C)
      → IsOther e
      → happen debug sys e ≡ some sys'
      → KeepsTables sys sys'
  unfolding happen apply_msg send_configuration_update get_upd_ch close_upd_ch deliver_all
  other-KeepsTables debug (submits op start) sys sys' o h = absurd o
  other-KeepsTables debug (receives (command t i op)) sys sys' o h = absurd o
  other-KeepsTables debug (receives (raft_update false)) sys sys' o h = absurd o
  other-KeepsTables debug (receives (raft_update true)) sys sys' o h = ground arith
  other-KeepsTables debug (receives snapshot) sys sys' o h = ground arith
  other-KeepsTables debug (receives (configuration conf)) sys sys' o h = ground arith
  other-KeepsTables debug (receives no_message) sys sys' o h = ground arith
  other-KeepsTables debug opens sys sys' o h = ground arith
  other-KeepsTables debug (closes i) sys sys' o h = ground arith

module _ {C : Type 0} (debug : Bool) (sys sys' : System C) where
  -- What is done with a command: it is applied, and then its response is delivered.
  pub record Commits (t i : ℕ) (op : Op C) : Type 0 where
    pub server : Server C
    pub updated : Bool
    pub applies : apply sys.server.sm op ≡ some (server.sm, updated)
    pub same_resps : server.resps ≡ sys.server.resps
    pub same_channels : server.next_channel ≡ sys.server.next_channel
    pub delivers :
        deliver_all (record sys { server = server }) (response (get sys.server.resps t i))
        ≡ some sys'

  pub command-Commits :
      (t i : ℕ) (op : Op C)
      → happen debug sys (receives (command t i op)) ≡ some sys'
      → Commits t i op
  unfolding happen apply_msg send_state_machine_update
  command-Commits t i op h = elim (Option-cases (apply sys.server.sm op)) [
    | inl e ↦ absurd (ground arith)
    | inr ((sm', false), e) ↦ record {
      server = record (sys.server) { sm = sm' };
      updated = false;
      applies = e;
      same_resps = refl;
      same_channels = refl;
      delivers = ground arith;
    }
    | inr ((sm', true), e) ↦ elim (Option-cases (send_copies sm' sys.server.upd_chs)) [
      | inl f ↦ absurd (ground arith)
      | inr (chs, f) ↦ record {
        server = record (sys.server) { sm = sm'; upd_chs = chs };
        updated = true;
        applies = e;
        same_resps = refl;
        same_channels = refl;
        delivers = ground arith;
      }
    ]
  ]
