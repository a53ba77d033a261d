-- ===== src/Agent/Dispatcher.antt =====
-- cmd/mantler/start.go, commandDispatcher: the goroutines that execute the commands. An event is one step
-- of one goroutine from one point at which it waits to the next; in a state in which that goroutine
-- cannot make the step, the event changes nothing.
pub mod Counted
pub mod Ordered
use mantlerd.Base.{
  ℕ, zero, suc, ◌+◌, ◌-◌, Bool, true, false, String, List, [], ◌∷◌, ◌++◌, Option, none, some,
  length, ltb, ◌==◌, if◌then◌else◌,
}
use mantlerd.Commands.Lanes.{AgentCommand, Lane, heavy, light, command_lane}

abbrev pub heavy_command_queue_size : ℕ
heavy_command_queue_size = 64

pub record Dispatcher : Type 0 where
  pub active_count : ℕ
  -- d.ctx.Done()
  pub cancelled : Bool
  pub light_concurrency : ℕ
  -- the command that enqueue is handing to the heavy queue
  pub blocked : Option AgentCommand
  pub heavy_queue : List AgentCommand
  pub heavy_running : Option AgentCommand
  pub worker_returned : Bool
  pub light_waiting : List AgentCommand
  pub light_running : List AgentCommand
  -- the heavy commands that were handed to enqueue and that were executed, in order
  pub submitted : List AgentCommand
  pub executed : List AgentCommand

unfoldable pub new_command_dispatcher : ℕ → Dispatcher
new_command_dispatcher light_concurrency = record {
  active_count = 0;
  cancelled = false;
  light_concurrency = if ltb light_concurrency 1 then 1 else light_concurrency;
  blocked = none;
  heavy_queue = [];
  heavy_running = none;
  worker_returned = false;
  light_waiting = [];
  light_running = [];
  submitted = [];
  executed = [];
}

-- enqueue, up to the point at which it waits for the heavy queue.
unfoldable pub begin_enqueue : Lane → AgentCommand → Dispatcher → Dispatcher
begin_enqueue heavy c d = record d {
  active_count = d.active_count + 1;
  blocked = some c;
  submitted = d.submitted ++ c ∷ [];
}
begin_enqueue light c d = record d {
  active_count = d.active_count + 1;
  light_waiting = d.light_waiting ++ c ∷ [];
}

unfoldable pub enqueue : Option AgentCommand → AgentCommand → Dispatcher → Dispatcher
enqueue none c d = begin_enqueue (command_lane c.command_type) c d
enqueue (some other) c d = d

unfoldable pub send_heavy : Option AgentCommand → Dispatcher → Dispatcher
send_heavy none d = d
send_heavy (some c) d =
    if ltb (length d.heavy_queue) heavy_command_queue_size
    then record d { blocked = none; heavy_queue = d.heavy_queue ++ c ∷ [] }
    else d

unfoldable pub give_up_heavy : Option AgentCommand → Dispatcher → Dispatcher
give_up_heavy none d = d
give_up_heavy (some c) d =
    if d.cancelled then record d { blocked = none; active_count = d.active_count - 1 } else d

-- runHeavyWorker, at its select.
unfoldable pub take_heavy : Option AgentCommand → List AgentCommand → Dispatcher → Dispatcher
take_heavy none (c ∷ queue) d =
    if d.worker_returned then d else record d { heavy_running = some c; heavy_queue = queue }
take_heavy _ _ d = d

unfoldable pub return_worker : Option AgentCommand → Dispatcher → Dispatcher
return_worker none d = if d.cancelled then record d { worker_returned = true } else d
return_worker (some c) d = d

unfoldable pub finish_heavy : Option AgentCommand → Dispatcher → Dispatcher
finish_heavy none d = d
finish_heavy (some c) d = record d {
  heavy_running = none;
  active_count = d.active_count - 1;
  executed = d.executed ++ c ∷ [];
}

-- The command at a place, and the others.
unfoldable pub pick : ℕ → List AgentCommand → Option (AgentCommand × List AgentCommand)
pick n [] = none
pick zero (c ∷ cs) = some (c, cs)
pick (suc n) (c ∷ cs) = elim (pick n cs) [ none ↦ none | some (x, rest) ↦ some (x, c ∷ rest) ]

-- runLight, at its select.
unfoldable pub acquire_light : Option (AgentCommand × List AgentCommand) → Dispatcher → Dispatcher
acquire_light none d = d
acquire_light (some (c, waiting)) d =
    if ltb (length d.light_running) d.light_concurrency
    then record d { light_waiting = waiting; light_running = c ∷ d.light_running }
    else d

unfoldable pub abandon_light : Option (AgentCommand × List AgentCommand) → Dispatcher → Dispatcher
abandon_light none d = d
abandon_light (some (c, waiting)) d =
    if d.cancelled
    then record d { light_waiting = waiting; active_count = d.active_count - 1 }
    else d

unfoldable pub finish_light : Option (AgentCommand × List AgentCommand) → Dispatcher → Dispatcher
finish_light none d = d
finish_light (some (c, running)) d = record d {
  light_running = running;
  active_count = d.active_count - 1;
}

pub data Event : Type 0 where
  enqueuing : AgentCommand → Event
  sending giving_up taking returning finishing_heavy cancelling : Event
  acquiring abandoning finishing_light : ℕ → Event

unfoldable pub step : Event → Dispatcher → Dispatcher
step (enqueuing c) d = enqueue d.blocked c d
step sending d = send_heavy d.blocked d
step giving_up d = give_up_heavy d.blocked d
step taking d = take_heavy d.heavy_running d.heavy_queue d
step returning d = return_worker d.heavy_running d
step finishing_heavy d = finish_heavy d.heavy_running d
step cancelling d = record d { cancelled = true }
step (acquiring n) d = acquire_light (pick n d.light_waiting) d
step (abandoning n) d = abandon_light (pick n d.light_waiting) d
step (finishing_light n) d = finish_light (pick n d.light_running) d

unfoldable pub run : List Event → Dispatcher → Dispatcher
run [] d = d
run (e ∷ events) d = run events (step e d)

unfoldable pub has_active_work : Dispatcher → Bool
has_active_work d = ltb 0 d.active_count
