-- ===== src/Shore/Requests.antt =====
-- A request and its reply over the socket.
use dock.Base.{
  ◌≡◌, ◌≢◌, ◌∙◌, ap, sym, refl, true, false, [], ◌∷◌, ◌++◌, none, some, arith, Bytes, Bytes_eq,
  lookup, insert, delete, length, get_elem?, set, get_elem?-append_last, get_elem?-set_self,
  lookup-insert_self, lookup-delete_self, lookup-delete_ne, lookup-insert_ne,
}
use dock.Protocol.{HttpRequestMessage, HttpResponseMessage, http_request}
use dock.Shore.Channel.{make}
use dock.Shore.{ShoreConnection, write_json, send_http_request, deliver_response}

-- The state after a request has been written.
abbrev sent_state : ShoreConnection → HttpRequestMessage → ShoreConnection
sent_state s msg = record s {
  pending = insert msg.id (length s.replies) s.pending;
  replies = s.replies ++ make 1 ∷ [];
  outbox = s.outbox ++ http_request msg ∷ [];
}

send_http_request-sent :
    (s : ShoreConnection) (msg : HttpRequestMessage)
    → s.hung_up ≡ false
    → send_http_request s msg true ≡ (sent_state s msg, some (length s.replies))
unfolding send_http_request write_json
send_http_request-sent s msg up = ground arith

-- The state after the reply.
abbrev answered : ShoreConnection → HttpRequestMessage → HttpResponseMessage → ShoreConnection
answered s msg resp = record s {
  pending = delete resp.id (insert msg.id (length s.replies) s.pending);
  replies =
      set (s.replies ++ make 1 ∷ []) (length s.replies)
        (record { buffer = resp ∷ []; cap = 1; closed = false });
  outbox = s.outbox ++ http_request msg ∷ [];
}

deliver-sent :
    (s : ShoreConnection) (msg : HttpRequestMessage) (resp : HttpResponseMessage)
    → resp.id ≡ msg.id
    → deliver_response (sent_state s msg) resp ≡ some (answered s msg resp)
unfolding deliver_response make
deliver-sent s msg resp same = ground (
  arith,
  lookup-insert_self msg.id (length s.replies) s.pending,
  get_elem?-append_last s.replies (make 1),
)

ignored :
    (t : ShoreConnection) (r : HttpResponseMessage)
    → lookup r.id t.pending ≡ none
    → deliver_response t r ≡ some t
unfolding deliver_response
ignored t r gone = ground arith

-- On a socket that is up, the request is written last, and the first response with the request's id
-- lands in the channel that the caller waits on; it takes the id out of `pending`, so any further
-- response with that id changes nothing.
pub send-deliver :
    (s : ShoreConnection) (msg : HttpRequestMessage) (resp again : HttpResponseMessage)
    → s.hung_up ≡ false
    → resp.id ≡ msg.id
    → again.id ≡ msg.id
    → ((send_http_request s msg true).1 ≡ some (length s.replies))
      × ((send_http_request s msg true).0.outbox ≡ s.outbox ++ http_request msg ∷ [])
      × ((t : ShoreConnection) × (deliver_response (send_http_request s msg true).0 resp ≡ some t)
          × (get_elem? t.replies (length s.replies)
              ≡ some (record { buffer = resp ∷ []; cap = 1; closed = false }))
          × (deliver_response t again ≡ some t))
send-deliver s msg resp again up same same' = rw (send_http_request-sent s msg up) (
  refl,
  refl,
  (
    answered s msg resp,
    deliver-sent s msg resp same,
    get_elem?-set_self (s.replies ++ make 1 ∷ []) (length s.replies) _ (make 1)
        (get_elem?-append_last s.replies (make 1)),
    ignored (answered s msg resp) again (
        ap (λ k. lookup k (answered s msg resp).pending) (same' ∙ sym same)
        ∙ lookup-delete_self resp.id _),
  ),
)

-- A request whose write fails leaves no trace in `pending`: its id is gone, the other ids are as they
-- were, nothing is written, and the caller gets an error.
pub send-failed :
    (s : ShoreConnection) (msg : HttpRequestMessage) (j : Bytes)
    → msg.id ≢ j
    → ((send_http_request s msg false).1 ≡ none)
      × ((send_http_request s msg false).0.outbox ≡ s.outbox)
      × (lookup msg.id (send_http_request s msg false).0.pending ≡ none)
      × (lookup j (send_http_request s msg false).0.pending ≡ lookup j s.pending)
unfolding send_http_request write_json
send-failed s msg j ne = (
  refl,
  refl,
  lookup-delete_self msg.id _,
  lookup-delete_ne msg.id j _ ne ∙ lookup-insert_ne msg.id j (length s.replies) s.pending ne,
)
