-- ===== src/Relay/Proxy.antt =====
-- internal/relay/client.go, handleProxyRequest: one request of the server to a local runtime. The trace
-- holds, newest first, every attempt to send a message and every request that is put to a runtime.
pub mod Replies
pub mod Content
pub mod Forwarding
use Prim.Native.String.{◌++◌ as concat}
use mantlerd.Base.{
  ℕ, ◌≡◌, Bool, true, false, not, String, List, [], ◌∷◌, Option, none, some, ◌⊎◌, inl, inr, str_eq,
  trim_space, to_lower, to_upper, is_empty, ◌==◌, elem, keep, ◌||◌, if◌then◌else◌,
}
use mantlerd.Relay.Target.{Urls, Inventory, local_url_for_request, validate_proxy_path}

pub record ProxyRequest : Type 0 where
  pub request_id : String
  pub method : String
  pub path : String
  pub runtime : String
  pub headers : List (String × String)
  pub body_base64 : String
  -- 0 where TimeoutMs is not positive
  pub timeout_ms : ℕ

pub data Fault : Type 0 where
  method_not_allowed : String → Fault
  path_not_allowed : String → Fault
  undecodable_body bad_request : Fault
  upstream_failed read_failed : String → Fault

pub data Message : Type 0 where
  response_start : String → ℕ → List (String × String) → Message
  response_chunk : String → String → Message
  response_end : String → Message
  response_error : String → Fault → Message

-- A request to a runtime. The headers are those that Header.Set is called with.
pub record Upstream : Type 0 where
  pub method : String
  pub url : String
  pub body : Option String
  pub headers : List (String × String)
  pub timeout_ms : ℕ

pub data Event : Type 0 where
  sent : Message → Bool → Event
  forwarded : Upstream → Event

-- What the reads of a response's body return: bytes, and with the last of them the end of the body or an
-- error.
pub data Body : Type 0 where
  more : String → Body → Body
  last : String → Option String → Body

pub record Response : Type 0 where
  pub status : ℕ
  pub headers : List (String × List String)
  pub body : Body

-- The network, which may answer by all that has happened: whether a message is sent, and what a runtime
-- answers; and whether http.NewRequest accepts a method and a URL, and package base64.
pub record Net : Type 0 where
  pub urls : Urls
  pub send_ok : List Event → Message → Bool
  pub do_request : List Event → Upstream → String ⊎ Response
  pub new_request_ok : String → String → Bool
  pub decode : String → Option String
  pub encode : String → String

abbrev pub default_request_timeout_ms : ℕ
default_request_timeout_ms = 45000

abbrev pub allowed_proxy_methods : List String
allowed_proxy_methods = "GET" ∷ "POST" ∷ "PUT" ∷ "PATCH" ∷ "DELETE" ∷ "HEAD" ∷ "OPTIONS" ∷ []

-- The headers of one hop, and blockedProxyHeaders.
abbrev pub withheld_headers : List String
withheld_headers =
    "host" ∷ "content-length" ∷ "connection" ∷ "authorization" ∷ "cookie" ∷ "set-cookie"
    ∷ "x-forwarded-for" ∷ "x-real-ip" ∷ []

unfoldable pub is_withheld : String → Bool
is_withheld key = elem (to_lower (trim_space key)) withheld_headers

abbrev pub is_forwarded_header : String × String → Bool
is_forwarded_header h = not (is_withheld h.0)

unfoldable pub method_of : String → String
method_of method = let m = to_upper (trim_space method) in if str_eq m "" then "POST" else m

-- strings.Join(values, ", ")
unfoldable pub join_values : String → List String → String
join_values v [] = v
join_values v (w ∷ ws) = concat v (concat ", " (join_values w ws))

unfoldable pub response_headers : List (String × List String) → List (String × String)
response_headers [] = []
response_headers ((key, []) ∷ hs) = response_headers hs
response_headers ((key, v ∷ vs) ∷ hs) = (key, join_values v vs) ∷ response_headers hs

module _ (net : Net) where
  unfoldable pub send : Message → List Event → List Event × Bool
  send m trace = let ok = net.send_ok trace m in (sent m ok ∷ trace, ok)

  unfoldable pub send_chunk : String → String → List Event → List Event × Bool
  send_chunk id bytes trace =
      if is_empty bytes then (trace, true) else send (response_chunk id (net.encode bytes)) trace

  abbrev pub finish : String → Option String → List Event → List Event
  finish id none trace = (send (response_end id) trace).0
  finish id (some e) trace = (send (response_error id (read_failed e)) trace).0

  unfoldable pub copy_body : String → Body → List Event → List Event
  copy_body id (more bytes rest) trace =
      let (trace', ok) = send_chunk id bytes trace in
      elim ok [ true ↦ copy_body id rest trace' | false ↦ trace' ]
  copy_body id (last bytes e) trace =
      let (trace', ok) = send_chunk id bytes trace in
      elim ok [ true ↦ finish id e trace' | false ↦ trace' ]

  unfoldable pub send_proxy_error : String → Fault → List Event → List Event
  send_proxy_error id fault trace = (send (response_error id fault) trace).0

  unfoldable pub relay_response : String → Response → List Event → List Event
  relay_response id response trace =
      let (trace', ok) =
        send (response_start id response.status (response_headers response.headers)) trace in
      elim ok [ true ↦ copy_body id response.body trace' | false ↦ trace' ]

  unfoldable pub forward : String → Upstream → List Event → List Event
  forward id u trace = elim (net.do_request trace u) [
    | inl e ↦ send_proxy_error id (upstream_failed e) (forwarded u ∷ trace)
    | inr response ↦ relay_response id response (forwarded u ∷ trace)
  ]

  unfoldable pub body_of : String → Option (Option String)
  body_of body_base64 =
      if str_eq (trim_space body_base64) ""
      then some none
      else elim (net.decode body_base64) [ none ↦ none | some bytes ↦ some (some bytes) ]

  abbrev pub timeout_of : ProxyRequest → ℕ
  timeout_of r = if r.timeout_ms == 0 then default_request_timeout_ms else r.timeout_ms

  unfoldable pub forward_to :
      ProxyRequest → String → String → Option (Option String) → List Event → List Event
  forward_to r method url none trace = send_proxy_error r.request_id undecodable_body trace
  forward_to r method url (some body) trace =
      if net.new_request_ok method url
      then forward r.request_id
          (record {
            method = method;
            url = url;
            body = body;
            headers = keep is_forwarded_header r.headers;
            timeout_ms = timeout_of r;
          })
          trace
      else send_proxy_error r.request_id bad_request trace

  unfoldable pub handle_proxy_request : Inventory → ProxyRequest → List Event → List Event
  handle_proxy_request inventory r trace =
      let url = local_url_for_request net.urls inventory r.runtime r.path in
      let method = method_of r.method in
      if str_eq (trim_space r.request_id) ""
      then trace
      else if not (elem method allowed_proxy_methods)
      then send_proxy_error r.request_id (method_not_allowed method) trace
      else if not (validate_proxy_path net.urls url)
      then send_proxy_error r.request_id (path_not_allowed url) trace
      else forward_to r method url (body_of r.body_base64) trace
