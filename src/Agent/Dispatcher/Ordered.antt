-- ===== src/Agent/Dispatcher/Ordered.antt =====
-- The heavy commands are executed in the order in which they were enqueued.
use mathlib.Core.List.{append_assoc, append-nil}
use mantlerd.Base.{
  ℕ, ◌-◌, ◌≡◌, refl, ap, ◌∙◌, Bool, true, false, List, [], ◌∷◌, ◌++◌, Option, none, some, length,
  ltb, if◌then◌else◌,
}
use mantlerd.Commands.Lanes.{AgentCommand, Lane, heavy, light, command_lane}
use mantlerd.Agent.Dispatcher.{
  Dispatcher, heavy_command_queue_size, new_command_dispatcher, begin_enqueue, enqueue, send_heavy,
  give_up_heavy, take_heavy, return_worker, finish_heavy, pick, acquire_light, abandon_light,
  finish_light, Event, enqueuing, sending, giving_up, taking, returning, finishing_heavy,
  cancelling, acquiring, abandoning, finishing_light, step, run,
}

abbrev as_list : Option AgentCommand → List AgentCommand
as_list none = []
as_list (some c) = c ∷ []

-- Until the agent is told to stop, the heavy commands that were handed over are those that were executed,
-- the one that is being executed, those in the queue and the one that waits for the queue.
abbrev pub InOrder : Dispatcher → Type 0
InOrder d =
    d.cancelled ≡ false
    → d.submitted ≡ d.executed ++ as_list d.heavy_running ++ d.heavy_queue ++ as_list d.blocked

if-InOrder :
    (t : Bool) (c d : Dispatcher)
    → (t ≡ true → InOrder c)
    → (t ≡ false → InOrder d)
    → InOrder (if t then c else d)
if-InOrder true c d u v = u refl
if-InOrder false c d u v = v refl

begin_enqueue-InOrder :
    (lane : Lane) (c : AgentCommand) (d : Dispatcher)
    → d.blocked ≡ none
    → InOrder d
    → InOrder (begin_enqueue lane c d)
unfolding begin_enqueue
begin_enqueue-InOrder heavy c d free v =
    λ h. ap (λ l. l ++ c ∷ []) (v h) ∙ rw free (simp (append_assoc, append-nil))
begin_enqueue-InOrder light c d free v = v

send_heavy-InOrder :
    (o : Option AgentCommand) (d : Dispatcher)
    → d.blocked ≡ o
    → InOrder d
    → InOrder (send_heavy o d)
unfolding send_heavy
send_heavy-InOrder none d e v = v
send_heavy-InOrder (some c) d e v =
    if-InOrder (ltb (length d.heavy_queue) heavy_command_queue_size)
      (record d { blocked = none; heavy_queue = d.heavy_queue ++ c ∷ [] }) d
      (λ room h. v h ∙ rw e (simp (append_assoc, append-nil))) (λ full. v)

give_up_heavy-InOrder :
    (o : Option AgentCommand) (d : Dispatcher)
    → d.blocked ≡ o
    → InOrder d
    → InOrder (give_up_heavy o d)
unfolding give_up_heavy
give_up_heavy-InOrder none d e v = v
give_up_heavy-InOrder (some c) d e v =
    if-InOrder d.cancelled (record d { blocked = none; active_count = d.active_count - 1 }) d
      (λ stopped h. absurd (cc (h, stopped))) (λ runs. v)

take_heavy-InOrder :
    (o : Option AgentCommand) (q : List AgentCommand) (d : Dispatcher)
    → d.heavy_running ≡ o
    → d.heavy_queue ≡ q
    → InOrder d
    → InOrder (take_heavy o q d)
unfolding take_heavy
take_heavy-InOrder none [] d e f v = v
take_heavy-InOrder none (c ∷ q) d e f v =
    if-InOrder d.worker_returned d (record d { heavy_running = some c; heavy_queue = q })
      (λ returned. v) (λ waits h. v h ∙ rw (e, f) (simp (append_assoc, append-nil)))
take_heavy-InOrder (some x) [] d e f v = v
take_heavy-InOrder (some x) (c ∷ q) d e f v = v

return_worker-InOrder :
    (o : Option AgentCommand) (d : Dispatcher) → InOrder d → InOrder (return_worker o d)
unfolding return_worker
return_worker-InOrder none d v =
    if-InOrder d.cancelled (record d { worker_returned = true }) d
      (λ stopped h. absurd (cc (h, stopped))) (λ runs. v)
return_worker-InOrder (some c) d v = v

finish_heavy-InOrder :
    (o : Option AgentCommand) (d : Dispatcher)
    → d.heavy_running ≡ o
    → InOrder d
    → InOrder (finish_heavy o d)
unfolding finish_heavy
finish_heavy-InOrder none d e v = v
finish_heavy-InOrder (some c) d e v = λ h. v h ∙ rw e (simp (append_assoc, append-nil))

acquire_light-InOrder :
    (o : Option (AgentCommand × List AgentCommand)) (d : Dispatcher)
    → InOrder d
    → InOrder (acquire_light o d)
unfolding acquire_light
acquire_light-InOrder none d v = v
acquire_light-InOrder (some (c, rest)) d v =
    if-InOrder (ltb (length d.light_running) d.light_concurrency)
      (record d { light_waiting = rest; light_running = c ∷ d.light_running }) d (λ room. v)
      (λ full. v)

abandon_light-InOrder :
    (o : Option (AgentCommand × List AgentCommand)) (d : Dispatcher)
    → InOrder d
    → InOrder (abandon_light o d)
unfolding abandon_light
abandon_light-InOrder none d v = v
abandon_light-InOrder (some (c, rest)) d v =
    if-InOrder d.cancelled (record d { light_waiting = rest; active_count = d.active_count - 1 }) d
      (λ stopped h. absurd (cc (h, stopped))) (λ runs. v)

finish_light-InOrder :
    (o : Option (AgentCommand × List AgentCommand)) (d : Dispatcher)
    → InOrder d
    → InOrder (finish_light o d)
unfolding finish_light
finish_light-InOrder none d v = v
finish_light-InOrder (some (c, rest)) d v = v

enqueue-InOrder :
    (o : Option AgentCommand) (c : AgentCommand) (d : Dispatcher)
    → d.blocked ≡ o
    → InOrder d
    → InOrder (enqueue o c d)
unfolding enqueue
enqueue-InOrder none c d e v = begin_enqueue-InOrder (command_lane c.command_type) c d e v
enqueue-InOrder (some x) c d e v = v

step-InOrder : (e : Event) (d : Dispatcher) → InOrder d → InOrder (step e d)
unfolding step
step-InOrder (enqueuing c) d v = enqueue-InOrder d.blocked c d refl v
step-InOrder sending d v = send_heavy-InOrder d.blocked d refl v
step-InOrder giving_up d v = give_up_heavy-InOrder d.blocked d refl v
step-InOrder taking d v = take_heavy-InOrder d.heavy_running d.heavy_queue d refl refl v
step-InOrder returning d v = return_worker-InOrder d.heavy_running d v
step-InOrder finishing_heavy d v = finish_heavy-InOrder d.heavy_running d refl v
step-InOrder cancelling d v = λ h. absurd (cc h)
step-InOrder (acquiring n) d v = acquire_light-InOrder (pick n d.light_waiting) d v
step-InOrder (abandoning n) d v = abandon_light-InOrder (pick n d.light_waiting) d v
step-InOrder (finishing_light n) d v = finish_light-InOrder (pick n d.light_running) d v

run-InOrder : (events : List Event) (d : Dispatcher) → InOrder d → InOrder (run events d)
unfolding run
run-InOrder [] d v = v
run-InOrder (e ∷ events) d v = run-InOrder events (step e d) (step-InOrder e d v)

-- Until the agent is told to stop, the heavy commands are executed one after another in the order in which
-- they were enqueued, and none is lost: those that were enqueued are, in this order, those that have
-- finished, the one that is being executed, those in the queue and the one that waits for a place in it.
pub run-new-InOrder :
    (light_concurrency : ℕ) (events : List Event)
    → InOrder (run events (new_command_dispatcher light_concurrency))
unfolding new_command_dispatcher
run-new-InOrder n events = run-InOrder events (new_command_dispatcher n) (λ h. refl)
