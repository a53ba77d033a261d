-- ===== src/Agent/Dispatcher/Counted.antt =====
-- The counter of active commands, and the bounds on the lanes.
use mantlerd.Base.{
  ℕ, zero, suc, ◌+◌, ◌≤◌, ◌≡◌, refl, ap, List, [], ◌∷◌, Option, none, some, length, length-append,
  arith,
}
use mantlerd.Commands.Lanes.{AgentCommand, Lane, heavy, light, command_lane}
use mantlerd.Agent.Dispatcher.{
  Dispatcher, heavy_command_queue_size, new_command_dispatcher, begin_enqueue, enqueue, send_heavy,
  give_up_heavy, take_heavy, return_worker, finish_heavy, pick, acquire_light, abandon_light,
  finish_light, Event, enqueuing, sending, giving_up, taking, returning, finishing_heavy,
  cancelling, acquiring, abandoning, finishing_light, step, run,
}

abbrev pub one_if : Option AgentCommand → ℕ
one_if none = 0
one_if (some c) = 1

-- The counter is the number of the commands that were enqueued and have neither finished nor given up,
-- and no lane is beyond its size.
pub record Inv (d : Dispatcher) : Type 0 where
  pub counted :
      d.active_count
      ≡ one_if d.blocked
        + length d.heavy_queue
        + one_if d.heavy_running
        + length d.light_waiting
        + length d.light_running
  pub queue_bounded : length d.heavy_queue ≤ heavy_command_queue_size
  pub light_bounded : length d.light_running ≤ d.light_concurrency

begin_enqueue-Inv :
    (lane : Lane) (c : AgentCommand) (d : Dispatcher)
    → d.blocked ≡ none
    → Inv d
    → Inv (begin_enqueue lane c d)
unfolding begin_enqueue
begin_enqueue-Inv heavy c d free v = ground arith
begin_enqueue-Inv light c d free v = ground (arith, length-append d.light_waiting (c ∷ []))

enqueue-Inv :
    (o : Option AgentCommand) (c : AgentCommand) (d : Dispatcher)
    → d.blocked ≡ o
    → Inv d
    → Inv (enqueue o c d)
unfolding enqueue
enqueue-Inv none c d e v = begin_enqueue-Inv (command_lane c.command_type) c d e v
enqueue-Inv (some x) c d e v = v

send_heavy-Inv :
    (o : Option AgentCommand) (d : Dispatcher) → d.blocked ≡ o → Inv d → Inv (send_heavy o d)
unfolding send_heavy
send_heavy-Inv none d e v = v
send_heavy-Inv (some c) d e v = ground (arith, length-append d.heavy_queue (c ∷ []))

give_up_heavy-Inv :
    (o : Option AgentCommand) (d : Dispatcher) → d.blocked ≡ o → Inv d → Inv (give_up_heavy o d)
unfolding give_up_heavy
give_up_heavy-Inv none d e v = v
give_up_heavy-Inv (some c) d e v = ground arith

take_heavy-Inv :
    (o : Option AgentCommand) (q : List AgentCommand) (d : Dispatcher)
    → d.heavy_running ≡ o
    → d.heavy_queue ≡ q
    → Inv d
    → Inv (take_heavy o q d)
unfolding take_heavy
take_heavy-Inv none [] d e f v = v
take_heavy-Inv none (c ∷ q) d e f v = ground arith
take_heavy-Inv (some x) [] d e f v = v
take_heavy-Inv (some x) (c ∷ q) d e f v = v

return_worker-Inv : (o : Option AgentCommand) (d : Dispatcher) → Inv d → Inv (return_worker o d)
unfolding return_worker
return_worker-Inv none d v = ground arith
return_worker-Inv (some c) d v = v

finish_heavy-Inv :
    (o : Option AgentCommand) (d : Dispatcher)
    → d.heavy_running ≡ o
    → Inv d
    → Inv (finish_heavy o d)
unfolding finish_heavy
finish_heavy-Inv none d e v = v
finish_heavy-Inv (some c) d e v = ground arith

-- What a picked command leaves.
abbrev Leaves : Option (AgentCommand × List AgentCommand) → List AgentCommand → Type 0
Leaves none cs = Unit
Leaves (some (c, rest)) cs = length cs ≡ suc (length rest)

pick-Leaves : (n : ℕ) (cs : List AgentCommand) → Leaves (pick n cs) cs
unfolding pick
pick-Leaves n [] = tt
pick-Leaves zero (c ∷ cs) = refl
pick-Leaves (suc n) (c ∷ cs) = go (pick n cs) (pick-Leaves n cs)
  where
    go :
        (o : Option (AgentCommand × List AgentCommand))
        → Leaves o cs
        → Leaves (elim o [ none ↦ none | some (x, rest) ↦ some (x, c ∷ rest) ]) (c ∷ cs)
    go none l = tt
    go (some (x, rest)) l = ap suc l

acquire_light-Inv :
    (o : Option (AgentCommand × List AgentCommand)) (d : Dispatcher)
    → Leaves o d.light_waiting
    → Inv d
    → Inv (acquire_light o d)
unfolding acquire_light
acquire_light-Inv none d l v = v
acquire_light-Inv (some (c, rest)) d l v = ground arith

abandon_light-Inv :
    (o : Option (AgentCommand × List AgentCommand)) (d : Dispatcher)
    → Leaves o d.light_waiting
    → Inv d
    → Inv (abandon_light o d)
unfolding abandon_light
abandon_light-Inv none d l v = v
abandon_light-Inv (some (c, rest)) d l v = ground arith

finish_light-Inv :
    (o : Option (AgentCommand × List AgentCommand)) (d : Dispatcher)
    → Leaves o d.light_running
    → Inv d
    → Inv (finish_light o d)
unfolding finish_light
finish_light-Inv none d l v = v
finish_light-Inv (some (c, rest)) d l v = ground arith

step-Inv : (e : Event) (d : Dispatcher) → Inv d → Inv (step e d)
unfolding step
step-Inv (enqueuing c) d v = enqueue-Inv d.blocked c d refl v
step-Inv sending d v = send_heavy-Inv d.blocked d refl v
step-Inv giving_up d v = give_up_heavy-Inv d.blocked d refl v
step-Inv taking d v = take_heavy-Inv d.heavy_running d.heavy_queue d refl refl v
step-Inv returning d v = return_worker-Inv d.heavy_running d v
step-Inv finishing_heavy d v = finish_heavy-Inv d.heavy_running d refl v
step-Inv cancelling d v = ground arith
step-Inv (acquiring n) d v =
    acquire_light-Inv (pick n d.light_waiting) d (pick-Leaves n d.light_waiting) v
step-Inv (abandoning n) d v =
    abandon_light-Inv (pick n d.light_waiting) d (pick-Leaves n d.light_waiting) v
step-Inv (finishing_light n) d v =
    finish_light-Inv (pick n d.light_running) d (pick-Leaves n d.light_running) v

run-Inv : (events : List Event) (d : Dispatcher) → Inv d → Inv (run events d)
unfolding run
run-Inv [] d v = v
run-Inv (e ∷ events) d v = run-Inv events (step e d) (step-Inv e d v)

-- In every state that the dispatcher reaches, in whatever order its goroutines make their steps, the
-- counter is the number of the commands that were enqueued and have neither finished nor given up, the
-- heavy queue holds at most 64 commands, and no more light commands run at once than are allowed.
pub run-new-Inv :
    (light_concurrency : ℕ) (events : List Event)
    → Inv (run events (new_command_dispatcher light_concurrency))
unfolding new_command_dispatcher
run-new-Inv n events =
    run-Inv events (new_command_dispatcher n)
      (record { counted = refl; queue_bounded = omega arith; light_bounded = omega arith })
