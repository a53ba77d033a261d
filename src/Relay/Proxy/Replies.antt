-- ===== src/Relay/Proxy/Replies.antt =====
-- What the server receives for one request.
use mantlerd.Base.{
  eq_iff, ◌≡◌, refl, sym, subst, ◌⊎◌, inl, inr, Bool, true, false, String, List, [], ◌∷◌, Option,
  none, some, str_eq, trim_space, is_empty, elem, Bool-cases,
}
use mantlerd.Relay.Target.{Inventory, local_url_for_request, validate_proxy_path}
use mantlerd.Relay.Proxy.{
  ProxyRequest, Fault, method_not_allowed, path_not_allowed, undecodable_body, bad_request,
  upstream_failed, Message, response_start, response_chunk, response_end, response_error, Upstream,
  Event, sent, forwarded, Body, more, last, Response, Net, allowed_proxy_methods, method_of,
  response_headers, send, send_chunk, finish, copy_body, send_proxy_error, relay_response, forward,
  body_of, forward_to, handle_proxy_request,
}

-- The messages of a trace, newest first, whether their sending succeeded or not.
abbrev pub messages : List Event → List Message
messages [] = []
messages (sent m ok ∷ trace) = m ∷ messages trace
messages (forwarded u ∷ trace) = messages trace

-- A reply to the request of this ID that has begun and has not ended: its start and then chunks.
abbrev pub IsOpen : String → List Message → Type 0
IsOpen id [] = ⊥
IsOpen id (response_start i status headers ∷ ms) = (i ≡ id) × (ms ≡ [])
IsOpen id (response_chunk i chunk ∷ ms) = (i ≡ id) × IsOpen id ms
IsOpen id (response_end i ∷ ms) = ⊥
IsOpen id (response_error i fault ∷ ms) = ⊥

-- A complete reply: an end behind an open one, or an error behind an open one or behind nothing.
abbrev pub IsReply : String → List Message → Type 0
IsReply id (response_end i ∷ ms) = (i ≡ id) × IsOpen id ms
IsReply id (response_error i fault ∷ ms) = (i ≡ id) × ((ms ≡ []) ⊎ IsOpen id ms)
IsReply id _ = ⊥

-- The newest event is a message that could not be sent.
abbrev pub LastFailed : List Event → Type 0
LastFailed (sent m false ∷ trace) = Unit
LastFailed _ = ⊥

abbrev pub IsAnswered : String → List Event → Type 0
IsAnswered id trace = IsReply id (messages trace) ⊎ (IsOpen id (messages trace) × LastFailed trace)

module _ (net : Net) (id : String) where
  -- A chunk leaves the reply open; if it was not sent, then it is the last event.
  send_chunk_lem :
      (bytes : String) (trace : List Event)
      → IsOpen id (messages trace)
      → IsOpen id (messages (send_chunk net id bytes trace).0)
        × ((send_chunk net id bytes trace).1 ≡ false → LastFailed (send_chunk net id bytes trace).0)
  unfolding send_chunk send
  send_chunk_lem bytes trace o = elim (Bool-cases (is_empty bytes)) [
    | inl e ↦ rw e (o, λ h. absurd (cc h))
    | inr e ↦ rw e (
      (refl, o),
      λ h.
          subst (λ b. LastFailed (sent (response_chunk id (net.encode bytes)) b ∷ trace)) (sym h)
            tt,
    )
  ]

  finish_lem :
      (e : Option String) (trace : List Event)
      → IsOpen id (messages trace)
      → IsReply id (messages (finish net id e trace))
  unfolding send
  finish_lem none trace o = (refl, o)
  finish_lem (some e) trace o = (refl, inr o)

  -- What is done behind a chunk, by whether it was sent.
  continued :
      (f : List Event → List Event) (r : List Event × Bool)
      → ((trace : List Event) → IsOpen id (messages trace) → IsAnswered id (f trace))
      → IsOpen id (messages r.0)
      → (r.1 ≡ false → LastFailed r.0)
      → IsAnswered id (elim r.1 [ true ↦ f r.0 | false ↦ r.0 ])
  continued f (trace, true) k o l = k trace o
  continued f (trace, false) k o l = inr (o, l refl)

  copy_body_lem :
      (body : Body) (trace : List Event)
      → IsOpen id (messages trace)
      → IsAnswered id (copy_body net id body trace)
  unfolding copy_body
  copy_body_lem (more bytes rest) trace o =
      let (p, l) = send_chunk_lem bytes trace o in
      continued (copy_body net id rest) (send_chunk net id bytes trace) (copy_body_lem rest) p l
  copy_body_lem (last bytes e) trace o =
      let (p, l) = send_chunk_lem bytes trace o in
      continued (finish net id e) (send_chunk net id bytes trace) (λ t q. inl (finish_lem e t q)) p
        l

  failed_lem :
      (fault : Fault) (trace : List Event)
      → messages trace ≡ []
      → IsAnswered id (send_proxy_error net id fault trace)
  unfolding send_proxy_error send
  failed_lem fault trace e = inl (refl, inl e)

  relay_response_lem :
      (response : Response) (trace : List Event)
      → messages trace ≡ []
      → IsAnswered id (relay_response net id response trace)
  unfolding relay_response send
  relay_response_lem response trace e =
      let m = response_start id response.status (response_headers response.headers) in
      let ok = net.send_ok trace m in
      continued (copy_body net id response.body) (sent m ok ∷ trace, ok)
        (copy_body_lem response.body) (refl, e)
        (λ h. subst (λ b. LastFailed (sent m b ∷ trace)) (sym h) tt)

  forward_lem :
      (u : Upstream) (trace : List Event)
      → messages trace ≡ []
      → IsAnswered id (forward net id u trace)
  unfolding forward
  forward_lem u trace e = go (net.do_request trace u)
    where
      go :
          (r : String ⊎ Response)
          → IsAnswered id (elim r [
            | inl e ↦ send_proxy_error net id (upstream_failed e) (forwarded u ∷ trace)
            | inr response ↦ relay_response net id response (forwarded u ∷ trace)
          ])
      go (inl x) = failed_lem (upstream_failed x) (forwarded u ∷ trace) e
      go (inr response) = relay_response_lem response (forwarded u ∷ trace) e

forward_to_lem :
    (net : Net) (r : ProxyRequest) (method url : String) (body : Option (Option String))
    → IsAnswered r.request_id (forward_to net r method url body [])
unfolding forward_to
forward_to_lem net r method url none = failed_lem net r.request_id undecodable_body [] refl
forward_to_lem net r method url (some body) = elim (Bool-cases (net.new_request_ok method url)) [
  | inl e ↦ rw e (forward_lem net r.request_id _ [] refl)
  | inr e ↦ rw e (failed_lem net r.request_id bad_request [] refl)
]

-- A request with a blank ID is dropped in silence. Any other is answered, under its ID, either by an
-- error, or by a start and chunks and then an end or an error; or the sending of a start or a chunk failed,
-- and then nothing more is sent.
pub handle_proxy_request-IsAnswered :
    (net : Net) (inventory : Inventory) (r : ProxyRequest)
    → ((trim_space r.request_id ≡ "") × (handle_proxy_request net inventory r [] ≡ []))
      ⊎ ((str_eq (trim_space r.request_id) "" ≡ false)
          × IsAnswered r.request_id (handle_proxy_request net inventory r []))
unfolding handle_proxy_request
handle_proxy_request-IsAnswered net inventory r =
    let url = local_url_for_request net.urls inventory r.runtime r.path in
    let method = method_of r.method in
    elim (Bool-cases (str_eq (trim_space r.request_id) "")) [
      | inl blank ↦ inl ((eq_iff _ _).0 blank, rw blank refl)
      | inr named ↦ inr (
        named,
        elim (Bool-cases (elem method allowed_proxy_methods)) [
          | inr bad ↦
              rw (named, bad) (failed_lem net r.request_id (method_not_allowed method) [] refl)
          | inl good ↦ elim (Bool-cases (validate_proxy_path net.urls url)) [
            | inr bad ↦
                rw (named, good, bad) (failed_lem net r.request_id (path_not_allowed url) [] refl)
            | inl valid ↦
                rw (named, good, valid)
                  (forward_to_lem net r method url (body_of net r.body_base64))
          ]
        ],
      )
    ]
