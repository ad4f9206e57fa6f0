-- ===== src/Apps/Confessions.antt =====
-- confessions/confessions.go: the loop of `main` over the rounds. What it sees of the client and of the
-- user comes as events.
use eggscrambler.Base.{ℕ, suc, ltb, if◌then◌else◌, Bool, false, none, List, [], ◌∷◌, pos, ◌==ℤ◌}
use eggscrambler.Client.Results.{RoundResult}

-- Where the loop stands: at its head; in the loop that waits until the client takes part, before and
-- after the timer; before the outer `select`; in `Start`; after a `Start` that failed; in the inner
-- `select`, and there after the tick; and after the end of the loop, or of the program.
pub data LoopPlace : Type 0 where
  at_head waiting after_timer at_select in_start after_failure at_results after_tick : LoopPlace
  stopped fatal : LoopPlace

pub data LoopEvent : Type 0 where
  -- `GetLastStateMachine`: its round, and whether the client takes part in it.
  sees : ℕ → Bool → LoopEvent
  timer_fires : LoopEvent
  interrupted : LoopEvent
  enters : LoopEvent
  start_returns : Bool → LoopEvent
  gets : RoundResult → LoopEvent
  ticks : LoopEvent

pub record Loop : Type 0 where
  pub index : ℕ
  pub place : LoopPlace
  -- The results that are printed, the last one first.
  pub printed : List RoundResult

abbrev pub new_loop : Loop
new_loop = record { index = 0; place = at_head; printed = [] }

abbrev pub go_to : Loop → LoopPlace → Loop
go_to l p = record l { place = p }

abbrev pub next_index : Loop → Loop
next_index l = record l { index = suc l.index; place = at_head }

-- The declaration `var r anonbcast.RoundResult`.
abbrev pub zero_result : RoundResult
zero_result = record { round = pos 0; succeeded = false; messages = []; malicious_error = none }

-- The lines after the outer `select`.
abbrev pub conclude : Loop → RoundResult → Loop
conclude l r =
    if r.round ==ℤ pos l.index
    then record (next_index l) { printed = r ∷ l.printed }
    else go_to l fatal

-- The state machine is at a later round, or the client takes part, or it has to wait.
abbrev pub on_seen : Loop → ℕ → Bool → Loop
on_seen l round me =
    if ltb l.index round then next_index l else go_to l (if me then at_select else waiting)

-- An event that has nothing to do with the place changes nothing.
unfoldable pub loop_step : Loop → LoopPlace → LoopEvent → Loop
loop_step l at_head (sees round me) = on_seen l round me
loop_step l waiting timer_fires = go_to l after_timer
loop_step l waiting interrupted = go_to l stopped
loop_step l after_timer (sees round me) = on_seen l round me
loop_step l at_select enters = go_to l in_start
loop_step l at_select (gets r) = conclude l r
loop_step l at_select interrupted = go_to l stopped
loop_step l in_start (start_returns b) = go_to l (if b then at_results else after_failure)
loop_step l after_failure (sees round me) =
    if ltb l.index round then next_index l else go_to l at_head
loop_step l at_results (gets r) = conclude l r
loop_step l at_results interrupted = go_to l stopped
loop_step l at_results ticks = go_to l after_tick
loop_step l after_tick (sees round me) =
    if ltb l.index round then conclude l zero_result else go_to l at_results
loop_step l place e = l

unfoldable pub run_loop : Loop → List LoopEvent → Loop
run_loop l [] = l
run_loop l (e ∷ es) = run_loop (loop_step l l.place e) es
