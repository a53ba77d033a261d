-- ===== src/Relay/Proxy/Content.antt =====
-- What the replies contain when every message can be sent.
use mantlerd.Base.{
  ◌≡◌, refl, ap, ◌∙◌, inl, inr, Bool, true, false, String, List, [], ◌∷◌, Option, none, some,
  is_empty, Bool-cases, if◌then◌else◌,
}
use mantlerd.Relay.Proxy.{
  read_failed, Message, response_start, response_chunk, response_end, response_error, Event, sent,
  Body, more, last, Response, Net, response_headers, send, send_chunk, finish, copy_body,
  relay_response,
}
use mantlerd.Relay.Proxy.Replies.{messages}

-- The pieces that a body's reads give, and whether it ends without an error.
abbrev pub with_piece : String → List String → List String
with_piece bytes ps = if is_empty bytes then ps else bytes ∷ ps

abbrev pub pieces : Body → List String
pieces (more bytes rest) = with_piece bytes (pieces rest)
pieces (last bytes e) = with_piece bytes []

abbrev pub error_of : Body → Option String
error_of (more bytes rest) = error_of rest
error_of (last bytes e) = e

abbrev pub ended : String → Option String → Message
ended id none = response_end id
ended id (some e) = response_error id (read_failed e)

module _ (net : Net) (id : String) where
  -- The chunks of these pieces, in their order, in front of the messages sent before.
  abbrev pub in_chunks : List String → List Message → List Message
  in_chunks [] ms = ms
  in_chunks (p ∷ ps) ms = in_chunks ps (response_chunk id (net.encode p) ∷ ms)

  module _ (sends : (trace : List Event) (m : Message) → net.send_ok trace m ≡ true) where
    finish-messages :
        (e : Option String) (trace : List Event)
        → messages (finish net id e trace) ≡ ended id e ∷ messages trace
    unfolding send
    finish-messages none trace = refl
    finish-messages (some e) trace = refl

    send_chunk-sent :
        (bytes : String) (trace : List Event) → (send_chunk net id bytes trace).1 ≡ true
    unfolding send_chunk send
    send_chunk-sent bytes trace = elim (Bool-cases (is_empty bytes)) [
      | inl e ↦ rw e refl
      | inr e ↦ rw e (sends trace (response_chunk id (net.encode bytes)))
    ]

    send_chunk-messages :
        (bytes : String) (ps : List String) (trace : List Event)
        → in_chunks ps (messages (send_chunk net id bytes trace).0)
          ≡ in_chunks (with_piece bytes ps) (messages trace)
    unfolding send_chunk send
    send_chunk-messages bytes ps trace = elim (Bool-cases (is_empty bytes)) [
      | inl e ↦ rw e refl
      | inr e ↦ rw e refl
    ]

    passed :
        (f : List Event → List Event) (r : List Event × Bool)
        → r.1 ≡ true
        → (elim r.1 [ true ↦ f r.0 | false ↦ r.0 ]) ≡ f r.0
    passed f (trace, true) h = refl
    passed f (trace, false) h = absurd (cc h)

    copy_body-messages :
        (body : Body) (trace : List Event)
        → messages (copy_body net id body trace)
          ≡ ended id (error_of body) ∷ in_chunks (pieces body) (messages trace)
    unfolding copy_body
    copy_body-messages (more bytes rest) trace =
        let r = send_chunk net id bytes trace in
        ap messages (passed (copy_body net id rest) r (send_chunk-sent bytes trace))
        ∙ copy_body-messages rest r.0
        ∙ ap (λ ms. ended id (error_of rest) ∷ ms) (send_chunk-messages bytes (pieces rest) trace)
    copy_body-messages (last bytes x) trace =
        let r = send_chunk net id bytes trace in
        ap messages (passed (finish net id x) r (send_chunk-sent bytes trace))
        ∙ finish-messages x r.0
        ∙ ap (λ ms. ended id x ∷ ms) (send_chunk-messages bytes [] trace)

    -- While every message can be sent, a runtime's response is passed on whole: its status and headers,
    -- each piece of its body that is not empty, encoded, in order, and then the end, or the error that
    -- ended the body.
    pub relay_response-messages :
        (response : Response) (trace : List Event)
        → messages (relay_response net id response trace)
          ≡ ended id (error_of response.body)
            ∷ in_chunks (pieces response.body) (
                response_start id response.status (response_headers response.headers)
                ∷ messages trace)
    unfolding relay_response send
    relay_response-messages response trace =
        let m = response_start id response.status (response_headers response.headers) in
        let ok = net.send_ok trace m in
        ap messages
          (passed (copy_body net id response.body) (sent m ok ∷ trace, ok) (sends trace m))
        ∙ copy_body-messages response.body (sent m ok ∷ trace)
