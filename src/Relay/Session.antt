-- ===== src/Relay/Session.antt =====
-- internal/relay/client.go, runOnce and readAndHandle: one connection to the server, as the sequence of
-- what its loop meets.
pub mod Connection
use mantlerd.Base.{
  ℕ, ◌≡◌, Bool, true, false, String, List, [], ◌∷◌, Option, none, some, str_eq, trim_space, ◌-◌,
  if◌then◌else◌,
}
use mantlerd.Relay.Proxy.{ProxyRequest}

pub record StageRequest : Type 0 where
  pub request_id : String
  pub timeout_ms : ℕ
  pub body_base64 : String

-- A message of the server. The payload of a request is `none` where it cannot be decoded; a pong tells
-- when its ping was sent, in milliseconds, where this can be parsed.
pub data Incoming : Type 0 where
  relay_ping : String → Incoming
  relay_pong : Option ℕ → Incoming
  proxy_request : Option ProxyRequest → Incoming
  pipeline_stage_request : Option StageRequest → Incoming
  other : Incoming

-- What the client does about a message: it starts a handler's goroutine, or sends.
pub data Task : Type 0 where
  proxy : ProxyRequest → Task
  stage : StageRequest → Task
  pong : String → Task
  disabled : String → Task
  hello : Task
  ping : Task

pub record Client : Type 0 where
  pub disable_relay_proxy : Bool
  pub connected : Bool
  pub last_relay_latency : ℕ
  -- newest first
  pub tasks : List Task

abbrev pub with_task : Task → Client → Client
with_task t c = record c { tasks = t ∷ c.tasks }

abbrev pub set_connected : Bool → Client → Client
set_connected b c = record c { connected = b }

-- readAndHandle behind the read, at a time in milliseconds. The flag tells whether a pong is sent.
unfoldable pub handle_message : ℕ → Incoming → Bool → Client → Client × Bool
handle_message now (relay_ping sent_at) sends c = (with_task (pong sent_at) c, sends)
handle_message now (relay_pong none) sends c = (c, true)
handle_message now (relay_pong (some sent_at)) sends c =
    (record c { last_relay_latency = now - sent_at }, true)
handle_message now (proxy_request none) sends c = (c, true)
handle_message now (proxy_request (some r)) sends c =
    if c.disable_relay_proxy
    then (if str_eq (trim_space r.request_id) ""
        then (c, true)
        else (with_task (disabled r.request_id) c, true))
    else (with_task (proxy r) c, true)
handle_message now (pipeline_stage_request none) sends c = (c, true)
handle_message now (pipeline_stage_request (some r)) sends c = (with_task (stage r) c, true)
handle_message now other sends c = (c, true)

-- One pass of the loop: the context is done; a ping is due, and is sent or not; a read of a message, of
-- which the flags tell whether a pong is sent and whether the read's deadline is then past; or a read
-- that failed, by its deadline or not.
pub data Turn : Type 0 where
  cancelled : Turn
  ping_due : Bool → Turn
  received : ℕ → Incoming → Bool → Bool → Turn
  read_failed : Bool → Turn

-- A pass, and whether the loop goes on.
unfoldable pub take_turn : Turn → Client → Client × Bool
take_turn cancelled c = (set_connected false c, false)
take_turn (ping_due true) c = (with_task ping c, true)
take_turn (ping_due false) c = (set_connected false (with_task ping c), false)
take_turn (received now m sends late) c =
    let (c', ok) = handle_message now m sends c in
    if ok then (c', true) else if late then (c', true) else (set_connected false c', false)
take_turn (read_failed late) c = if late then (c, true) else (set_connected false c, false)

-- The loop over these passes, and whether it is still going on behind them.
unfoldable pub loop : List Turn → Client → Client × Bool
loop [] c = (c, true)
loop (t ∷ ts) c =
    let (c', goes_on) = take_turn t c in elim goes_on [ true ↦ loop ts c' | false ↦ (c', false) ]

-- Whether the dial and the first message succeed, and the passes.
unfoldable pub run_once : Bool → Bool → List Turn → Client → Client × Bool
run_once dials greets turns c =
    let greeted = with_task hello (set_connected true c) in
    if dials
    then (if greets then loop turns greeted else (set_connected false greeted, false))
    else (set_connected false c, false)
