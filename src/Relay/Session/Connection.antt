-- ===== src/Relay/Session/Connection.antt =====
-- The flag `connected`, and the switch that closes the proxy.
use mantlerd.Base.{
  ℕ, ◌≡◌, refl, Bool, true, false, List, [], ◌∷◌, inl, inr, none, some, str_eq, trim_space,
  Bool-cases, arith, if◌then◌else◌, All,
}
use mantlerd.Relay.Session.{
  Incoming, relay_ping, relay_pong, proxy_request, pipeline_stage_request, other, Task, proxy,
  hello, Client, with_task, set_connected, handle_message, Turn, cancelled, ping_due, received,
  read_failed, take_turn, loop, run_once,
}

handle_message-connected :
    (now : ℕ) (m : Incoming) (sends : Bool) (c : Client)
    → (handle_message now m sends c).0.connected ≡ c.connected
unfolding handle_message
handle_message-connected now (relay_ping sent_at) sends c = refl
handle_message-connected now (relay_pong none) sends c = refl
handle_message-connected now (relay_pong (some t)) sends c = refl
handle_message-connected now (proxy_request none) sends c = refl
handle_message-connected now (proxy_request (some r)) sends c = ground arith
handle_message-connected now (pipeline_stage_request none) sends c = refl
handle_message-connected now (pipeline_stage_request (some r)) sends c = refl
handle_message-connected now other sends c = refl

take_turn-connected :
    (t : Turn) (c : Client) → c.connected ≡ true → (take_turn t c).0.connected ≡ (take_turn t c).1
unfolding take_turn
take_turn-connected cancelled c h = refl
take_turn-connected (ping_due true) c h = h
take_turn-connected (ping_due false) c h = refl
take_turn-connected (received now m sends late) c h =
    ground (arith, handle_message-connected now m sends c)
take_turn-connected (read_failed late) c h = ground arith

loop-connected :
    (ts : List Turn) (c : Client) → c.connected ≡ true → (loop ts c).0.connected ≡ (loop ts c).1
unfolding loop
loop-connected [] c h = h
loop-connected (t ∷ ts) c h = go (take_turn t c) (take_turn-connected t c h) (loop-connected ts)
  where
    after : Client × Bool → Client × Bool
    after r = elim r.1 [ true ↦ loop ts r.0 | false ↦ (r.0, false) ]

    go :
        (r : Client × Bool)
        → r.0.connected ≡ r.1
        → ((d : Client) → d.connected ≡ true → (loop ts d).0.connected ≡ (loop ts d).1)
        → (after r).0.connected ≡ (after r).1
    go (d, true) e k = k d e
    go (d, false) e k = e

-- The client counts as connected exactly while runOnce has not returned: also when it returns for a
-- failed dial or greeting, a ping or pong that is not sent, a failed read, or a cancelled context.
pub run_once-connected :
    (dials greets : Bool) (turns : List Turn) (c : Client)
    → (run_once dials greets turns c).0.connected ≡ (run_once dials greets turns c).1
unfolding run_once
run_once-connected true true turns c =
    loop-connected turns (with_task hello (set_connected true c)) refl
run_once-connected true false turns c = refl
run_once-connected false greets turns c = refl

-- Not a request to the proxy.
abbrev pub NoProxy : Task → Type 0
NoProxy (proxy r) = ⊥
NoProxy _ = Unit

-- The proxy is closed, and none of the tasks is one of the proxy's.
pub record IsClosed (c : Client) : Type 0 where
  pub closed : c.disable_relay_proxy ≡ true
  pub none_started : All NoProxy c.tasks

handle_message-IsClosed :
    (now : ℕ) (m : Incoming) (sends : Bool) (c : Client)
    → IsClosed c
    → IsClosed (handle_message now m sends c).0
unfolding handle_message
handle_message-IsClosed now (relay_ping sent_at) sends c v = record {
  closed = v.closed;
  none_started = (tt, v.none_started);
}
handle_message-IsClosed now (relay_pong none) sends c v = v
handle_message-IsClosed now (relay_pong (some t)) sends c v = record {
  closed = v.closed;
  none_started = v.none_started;
}
handle_message-IsClosed now (proxy_request none) sends c v = v
handle_message-IsClosed now (proxy_request (some r)) sends c v =
    rw v.closed (elim (Bool-cases (str_eq (trim_space r.request_id) "")) [
      | inl e ↦ rw e (record { closed = refl; none_started = v.none_started })
      | inr e ↦ rw e (record { closed = refl; none_started = (tt, v.none_started) })
    ])
handle_message-IsClosed now (pipeline_stage_request none) sends c v = v
handle_message-IsClosed now (pipeline_stage_request (some r)) sends c v = record {
  closed = v.closed;
  none_started = (tt, v.none_started);
}
handle_message-IsClosed now other sends c v = v

take_turn-IsClosed : (t : Turn) (c : Client) → IsClosed c → IsClosed (take_turn t c).0
unfolding take_turn
take_turn-IsClosed cancelled c v = record { closed = v.closed; none_started = v.none_started }
take_turn-IsClosed (ping_due true) c v = record {
  closed = v.closed;
  none_started = (tt, v.none_started);
}
take_turn-IsClosed (ping_due false) c v = record {
  closed = v.closed;
  none_started = (tt, v.none_started);
}
take_turn-IsClosed (received now m sends late) c v =
    go (handle_message now m sends c) late (handle_message-IsClosed now m sends c v)
  where
    after : Client × Bool → Bool → Client × Bool
    after r late =
        if r.1 then (r.0, true) else if late then (r.0, true) else (set_connected false r.0, false)

    go : (r : Client × Bool) (late : Bool) → IsClosed r.0 → IsClosed (after r late).0
    go (d, true) late w = w
    go (d, false) true w = w
    go (d, false) false w = record { closed = w.closed; none_started = w.none_started }
take_turn-IsClosed (read_failed true) c v = v
take_turn-IsClosed (read_failed false) c v = record {
  closed = v.closed;
  none_started = v.none_started;
}

loop-IsClosed : (ts : List Turn) (c : Client) → IsClosed c → IsClosed (loop ts c).0
unfolding loop
loop-IsClosed [] c v = v
loop-IsClosed (t ∷ ts) c v = go (take_turn t c) (take_turn-IsClosed t c v) (loop-IsClosed ts)
  where
    after : Client × Bool → Client × Bool
    after r = elim r.1 [ true ↦ loop ts r.0 | false ↦ (r.0, false) ]

    go :
        (r : Client × Bool)
        → IsClosed r.0
        → ((d : Client) → IsClosed d → IsClosed (loop ts d).0)
        → IsClosed (after r).0
    go (d, true) w k = k d w
    go (d, false) w k = w

-- With DisableRelayProxy, whatever the server sends, no connection starts the handler of a proxy request.
pub run_once-IsClosed :
    (dials greets : Bool) (turns : List Turn) (c : Client)
    → IsClosed c
    → IsClosed (run_once dials greets turns c).0
unfolding run_once
run_once-IsClosed true true turns c v =
    loop-IsClosed turns (with_task hello (set_connected true c))
      (record { closed = v.closed; none_started = (tt, v.none_started) })
run_once-IsClosed true false turns c v = record {
  closed = v.closed;
  none_started = (tt, v.none_started);
}
run_once-IsClosed false greets turns c v = record {
  closed = v.closed;
  none_started = v.none_started;
}
