-- ===== src/Relay/Proxy/Forwarding.antt =====
-- What a local runtime is asked.
use mantlerd.Base.{
  ◌≡◌, ◌⊎◌, inl, inr, Bool, true, false, String, List, [], ◌∷◌, Memᴰ, Option, none, some, str_eq,
  arith, trim_space, is_empty, elem, elem-Memᴰ, Bool-cases, All, All-Memᴰ, has_prefix, keep,
  keep-Memᴰ,
}
use mantlerd.Relay.Target.{
  Urls, Inventory, local_url_for_request, validate_proxy_path, allowed_proxy_path_prefixes,
}
use mantlerd.Relay.Target.Local.{IsLocal, resolved-IsLocal, validated}
use mantlerd.Relay.Proxy.{
  ProxyRequest, Fault, method_not_allowed, path_not_allowed, undecodable_body, bad_request,
  upstream_failed, response_start, Upstream, Event, sent, forwarded, Body, more, last, Response,
  Net, allowed_proxy_methods, method_of, response_headers, send, send_chunk, finish, copy_body,
  send_proxy_error, relay_response, forward, body_of, forward_to, handle_proxy_request, is_withheld,
  is_forwarded_header,
}

pub record IsAllowed (urls : Urls) (r : ProxyRequest) (u : Upstream) : Type 0 where
  pub local : IsLocal urls u.url
  pub path : String
  pub prefix : String
  pub parsed : urls.path_of u.url ≡ some path
  pub listed : Memᴰ prefix allowed_proxy_path_prefixes
  pub below : has_prefix path prefix ≡ true
  pub method : Memᴰ u.method allowed_proxy_methods
  pub headers :
      (h : String × String) → Memᴰ h u.headers → Memᴰ h r.headers × (is_withheld h.0 ≡ false)

-- What the trace may hold: messages, and requests that are allowed.
abbrev pub IsSafe : Urls → ProxyRequest → Event → Type 0
IsSafe urls r (sent m ok) = Unit
IsSafe urls r (forwarded u) = IsAllowed urls r u

module _ (net : Net) (r : ProxyRequest) where
  abbrev Safe : List Event → Type 0
  Safe = All (IsSafe net.urls r)

  send_chunk-Safe :
      (bytes : String) (trace : List Event)
      → Safe trace
      → Safe (send_chunk net r.request_id bytes trace).0
  unfolding send_chunk send
  send_chunk-Safe bytes trace s = elim (Bool-cases (is_empty bytes)) [
    | inl e ↦ rw e s
    | inr e ↦ rw e (tt, s)
  ]

  finish-Safe :
      (e : Option String) (trace : List Event) → Safe trace → Safe (finish net r.request_id e trace)
  unfolding send
  finish-Safe none trace s = (tt, s)
  finish-Safe (some e) trace s = (tt, s)

  continued :
      (f : List Event → List Event) (p : List Event × Bool)
      → ((trace : List Event) → Safe trace → Safe (f trace))
      → Safe p.0
      → Safe (elim p.1 [ true ↦ f p.0 | false ↦ p.0 ])
  continued f (trace, true) k s = k trace s
  continued f (trace, false) k s = s

  copy_body-Safe :
      (body : Body) (trace : List Event) → Safe trace → Safe (copy_body net r.request_id body trace)
  unfolding copy_body
  copy_body-Safe (more bytes rest) trace s =
      continued (copy_body net r.request_id rest) (send_chunk net r.request_id bytes trace)
        (copy_body-Safe rest) (send_chunk-Safe bytes trace s)
  copy_body-Safe (last bytes e) trace s =
      continued (finish net r.request_id e) (send_chunk net r.request_id bytes trace)
        (finish-Safe e) (send_chunk-Safe bytes trace s)

  send_proxy_error-Safe :
      (fault : Fault) (trace : List Event)
      → Safe trace
      → Safe (send_proxy_error net r.request_id fault trace)
  unfolding send_proxy_error send
  send_proxy_error-Safe fault trace s = (tt, s)

  relay_response-Safe :
      (response : Response) (trace : List Event)
      → Safe trace
      → Safe (relay_response net r.request_id response trace)
  unfolding relay_response send
  relay_response-Safe response trace s =
      let m = response_start r.request_id response.status (response_headers response.headers) in
      let ok = net.send_ok trace m in
      continued (copy_body net r.request_id response.body) (sent m ok ∷ trace, ok)
        (copy_body-Safe response.body) (tt, s)

  forward-Safe :
      (u : Upstream) (trace : List Event)
      → IsAllowed net.urls r u
      → Safe trace
      → Safe (forward net r.request_id u trace)
  unfolding forward
  forward-Safe u trace allowed s = go (net.do_request trace u)
    where
      go :
          (o : String ⊎ Response)
          → Safe (elim o [
            | inl e ↦ send_proxy_error net r.request_id (upstream_failed e) (forwarded u ∷ trace)
            | inr response ↦ relay_response net r.request_id response (forwarded u ∷ trace)
          ])
      go (inl e) = send_proxy_error-Safe (upstream_failed e) (forwarded u ∷ trace) (allowed, s)
      go (inr response) = relay_response-Safe response (forwarded u ∷ trace) (allowed, s)

  kept_headers :
      (h : String × String)
      → Memᴰ h (keep is_forwarded_header r.headers)
      → Memᴰ h r.headers × (is_withheld h.0 ≡ false)
  kept_headers h m = let (k, e) = keep-Memᴰ is_forwarded_header r.headers m in (k, ground arith)

  forward_to-Safe :
      (method url : String) (body : Option (Option String)) (trace : List Event)
      → IsLocal net.urls url
      → elem method allowed_proxy_methods ≡ true
      → validate_proxy_path net.urls url ≡ true
      → Safe trace
      → Safe (forward_to net r method url body trace)
  unfolding forward_to
  forward_to-Safe method url none trace local m v s = send_proxy_error-Safe undecodable_body trace s
  forward_to-Safe method url (some body) trace local m v s =
      elim (Bool-cases (net.new_request_ok method url)) [
        | inr e ↦ rw e (send_proxy_error-Safe bad_request trace s)
        | inl e ↦
            let (path, prefix, parsed, listed, below) = validated net.urls url v in
            rw e (
              forward-Safe _ trace
                (record {
                  local = local;
                  path = path;
                  prefix = prefix;
                  parsed = parsed;
                  listed = listed;
                  below = below;
                  method = elem-Memᴰ method allowed_proxy_methods m;
                  headers = kept_headers;
                })
                s)
      ]

-- Every request that handleProxyRequest puts to a runtime is for a runtime's port of this machine, has an
-- allowed method and a path with an allowed prefix, and has headers of the server's request only, none of
-- which is withheld.
pub handle_proxy_request-IsAllowed :
    (net : Net) (inventory : Inventory) (r : ProxyRequest) (u : Upstream)
    → Memᴰ (forwarded u) (handle_proxy_request net inventory r [])
    → IsAllowed net.urls r u
unfolding handle_proxy_request
handle_proxy_request-IsAllowed net inventory r u =
    All-Memᴰ (IsSafe net.urls r) (handle_proxy_request net inventory r []) safe
  where
    url : String
    url = local_url_for_request net.urls inventory r.runtime r.path

    method : String
    method = method_of r.method

    safe : All (IsSafe net.urls r) (handle_proxy_request net inventory r [])
    safe = elim (Bool-cases (str_eq (trim_space r.request_id) "")) [
      | inl blank ↦ rw blank tt
      | inr named ↦ elim (Bool-cases (elem method allowed_proxy_methods)) [
        | inr bad ↦ rw (named, bad) (send_proxy_error-Safe net r (method_not_allowed method) [] tt)
        | inl good ↦ elim (Bool-cases (validate_proxy_path net.urls url)) [
          | inr bad ↦
              rw (named, good, bad) (send_proxy_error-Safe net r (path_not_allowed url) [] tt)
          | inl valid ↦
              rw (named, good, valid)
                (forward_to-Safe net r method url (body_of net r.body_base64) []
                  (resolved-IsLocal net.urls inventory r.runtime r.path) good valid tt)
        ]
      ]
    ]
