-- ===== src/Relay/Examples.antt =====
-- A client with two runtimes, and requests at which the theorems on the relay apply.
use mantlerd.Base.{
  ◌≡◌, refl, ◌⊎◌, inr, true, false, List, [], ◌∷◌, Memᴰ, none, some, str_eq, trim_space, to_lower,
  to_upper, elem, has_prefix,
}
use mantlerd.Relay.Target.{
  Inventory, resolve, first_of, or_else, runtime_for, rooted, path_for, local_url_for_request,
  validate_proxy_path,
}
use mantlerd.Relay.Proxy.{
  ProxyRequest, response_start, response_chunk, response_end, Upstream, Event, sent, forwarded,
  more, last, Response, Net, is_withheld, method_of, response_headers, join_values, send,
  send_chunk, copy_body, relay_response, forward, body_of, forward_to, handle_proxy_request,
}
use mantlerd.Relay.Proxy.Replies.{messages, IsAnswered, handle_proxy_request-IsAnswered}
use mantlerd.Relay.Proxy.Content.{relay_response-messages}
use mantlerd.Relay.Proxy.Forwarding.{IsAllowed, handle_proxy_request-IsAllowed}
use mantlerd.Relay.Session.{Incoming, Client, Turn, received, read_failed, ping_due}

abbrev response : Response
response = record {
  status = 200;
  headers = ("Content-Type", "text/plain" ∷ "utf-8" ∷ []) ∷ ("Trailer", []) ∷ [];
  body = more "ab" (more "" (last "c" none));
}

-- It sends everything, and reads of every URL that its path is that of a chat.
abbrev net : Net
net = record {
  urls = record { path_of = λ url. some "/v1/chat/completions"; decimal = λ n. "11434" };
  send_ok = λ trace m. true;
  do_request = λ trace u. inr response;
  new_request_ok = λ method url. true;
  decode = λ s. some s;
  encode = λ s. s;
}

abbrev inventory : Inventory
inventory = record { ready = "Ollama" ∷ []; installed = "ollama" ∷ "vllm" ∷ [] }

abbrev request : ProxyRequest
request = record {
  request_id = "r1";
  method = " post ";
  path = "v1/chat/completions";
  runtime = "";
  headers = ("Cookie", "s") ∷ ("Accept", "text/plain") ∷ [];
  body_base64 = "";
  timeout_ms = 0;
}

abbrev upstream : Upstream
upstream = record {
  method = "POST";
  url = "http://127.0.0.1:11434/v1/chat/completions";
  body = none;
  headers = ("Accept", "text/plain") ∷ [];
  timeout_ms = 45000;
}

abbrev trace : List Event
trace =
    sent (response_end "r1") true
    ∷ sent (response_chunk "r1" "c") true
    ∷ sent (response_chunk "r1" "ab") true
    ∷ sent (response_start "r1" 200 (("Content-Type", "text/plain, utf-8") ∷ [])) true
    ∷ forwarded upstream
    ∷ []

handled : handle_proxy_request net inventory request [] ≡ trace
unfolding handle_proxy_request forward_to forward relay_response copy_body send_chunk send body_of
    method_of response_headers join_values is_withheld elem local_url_for_request path_for rooted
    runtime_for or_else first_of resolve validate_proxy_path has_prefix trim_space to_lower to_upper
handled = refl

handle_proxy_request-IsAllowed_example : IsAllowed net.urls request upstream
handle_proxy_request-IsAllowed_example =
    handle_proxy_request-IsAllowed net inventory request upstream
      (rw handled (Memᴰ.tail (Memᴰ.tail (Memᴰ.tail (Memᴰ.tail (Memᴰ.head refl))))))

handle_proxy_request-IsAnswered_example :
    ((trim_space request.request_id ≡ "") × (handle_proxy_request net inventory request [] ≡ []))
    ⊎ ((str_eq (trim_space request.request_id) "" ≡ false)
        × IsAnswered request.request_id (handle_proxy_request net inventory request []))
handle_proxy_request-IsAnswered_example = handle_proxy_request-IsAnswered net inventory request

relay_response-messages_example :
    messages (relay_response net "r1" response [])
    ≡ response_end "r1"
      ∷ response_chunk "r1" "c"
      ∷ response_chunk "r1" "ab"
      ∷ response_start "r1" 200 (("Content-Type", "text/plain, utf-8") ∷ [])
      ∷ []
unfolding response_headers join_values
relay_response-messages_example = relay_response-messages net "r1" (λ t m. refl) response []

abbrev client : Client
client = record {
  disable_relay_proxy = true;
  connected = false;
  last_relay_latency = 0;
  tasks = [];
}

abbrev turns : List Turn
turns =
    received 5 (Incoming.proxy_request (some request)) true false
    ∷ read_failed true
    ∷ ping_due false
    ∷ []
