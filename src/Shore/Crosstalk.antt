-- ===== src/Shore/Crosstalk.antt =====
-- No request gets the answer to another, and no stream the frames of another, in any run of a Shore's
-- operations.
use dock.Base.{
  ℕ, ◌⊎◌, ◌≡◌, refl, sym, subst, inl, inr, true, false, List, [], ◌∷◌, ◌++◌, Option, some, arith,
  Bytes, Bytes_eq, lookup, get_elem?, All, Option-cases, Bool-cases, append-nil, append_assoc,
}
use dock.Protocol.{HttpResponseMessage, StreamFrameMessage}
use dock.Shore.Channel.{Chan}
use dock.Shore.Addressed.{delete-Addressed}
use dock.Shore.Actions.{
  Action, sends, responds, opens, delivers, ends, cancels, reads, pings, closes, act, act_all,
}
use dock.Shore.{ShoreConnection, cancel_pending_request, close, new_connection}
use dock.Shore.Routing.{
  for_reply, IsRouted, send_http_request-IsRouted, open_stream-IsRouted, deliver_response-IsRouted,
  deliver_frame-IsRouted, after_read-IsRouted, close_stream-IsRouted,
}

-- The ids of the requests and of the streams of a run, in order: the n-th made the n-th channel.
abbrev pub requested : Action → List Bytes
requested (sends msg sent) = msg.id ∷ []
requested _ = []

abbrev pub opened : Action → List Bytes
opened (opens msg sent) = msg.id ∷ []
opened _ = []

pub all_requested : List Action → List Bytes
all_requested [] = []
all_requested (a ∷ acts) = requested a ++ all_requested acts

pub all_opened : List Action → List Bytes
all_opened [] = []
all_opened (a ∷ acts) = opened a ++ all_opened acts

module _ (s s' : ShoreConnection) (ids fids : List Bytes) where
  same_ids : IsRouted s' ids fids → IsRouted s' (ids ++ []) (fids ++ [])
  same_ids v =
      subst (IsRouted s' (ids ++ [])) (sym (append-nil fids))
        (subst (λ l. IsRouted s' l fids) (sym (append-nil ids)) v)

  becomes :
      (t : ShoreConnection) (l m : List Bytes)
      → ◌≡◌ {A = Option ShoreConnection} (some t) (some s')
      → IsRouted t l m
      → IsRouted s' l m
  becomes t l m h v = let same : t ≡ s' = ground arith in subst (λ x. IsRouted x l m) same v

  act-IsRouted :
      (a : Action)
      → IsRouted s ids fids
      → act s a ≡ some s'
      → IsRouted s' (ids ++ requested a) (fids ++ opened a)
  unfolding act
  act-IsRouted (sends msg sent) v h =
      subst (IsRouted s' (ids ++ msg.id ∷ [])) (sym (append-nil fids))
        (becomes _ (ids ++ msg.id ∷ []) fids h (send_http_request-IsRouted s ids fids v msg sent))
  act-IsRouted (opens msg sent) v h =
      subst (λ l. IsRouted s' l (fids ++ msg.id ∷ [])) (sym (append-nil ids))
        (becomes _ ids (fids ++ msg.id ∷ []) h (open_stream-IsRouted s ids fids v msg sent))
  act-IsRouted (responds resp) v h = same_ids (deliver_response-IsRouted s ids fids v resp s' h)
  act-IsRouted (delivers frame) v h = same_ids (deliver_frame-IsRouted s ids fids v frame s' h)
  act-IsRouted (ends id) v h = same_ids (close_stream-IsRouted s ids fids id s' v h)
  act-IsRouted (cancels id) v h = same_ids (
      becomes (cancel_pending_request s id) ids fids h (
        unfold cancel_pending_request in
        record {
          replies = delete-Addressed for_reply id ids s.pending s.replies v.replies;
          frames = v.frames;
        }))
  act-IsRouted (reads ref) v h =
      same_ids (becomes _ ids fids h (after_read-IsRouted s ids fids v ref))
  act-IsRouted (pings now) v h =
      same_ids (becomes _ ids fids h (record { replies = v.replies; frames = v.frames }))
  act-IsRouted closes v h = same_ids (becomes (close s) ids fids h (closing (Bool-cases s.done)))
    where
      closing : (s.done ≡ true) ⊎ (s.done ≡ false) → IsRouted (close s) ids fids
      closing (inl again) =
          unfold close in rw again (record { replies = v.replies; frames = v.frames })
      closing (inr first) =
          unfold close in rw first (record { replies = v.replies; frames = v.frames })

act_all-IsRouted :
    (s t : ShoreConnection) (ids fids : List Bytes) (acts : List Action)
    → IsRouted s ids fids
    → act_all s acts ≡ some t
    → IsRouted t (ids ++ all_requested acts) (fids ++ all_opened acts)
unfolding act_all all_requested all_opened
act_all-IsRouted s t ids fids [] v h = same_ids s t ids fids (becomes s t ids fids s ids fids h v)
act_all-IsRouted s t ids fids (a ∷ acts) v h = elim (Option-cases (act s a)) [
  | inl panics ↦ ground arith
  | inr (s', e) ↦
      let w =
        act_all-IsRouted s' t (ids ++ requested a) (fids ++ opened a) acts
          (act-IsRouted s s' ids fids a v e) (rw (act_all, e) at h) in
      subst (IsRouted t (ids ++ all_requested (a ∷ acts)))
        (append_assoc fids (opened a) (all_opened acts))
        (subst (λ l. IsRouted t l ((fids ++ opened a) ++ all_opened acts))
          (append_assoc ids (requested a) (all_requested acts)) w)
]

new_connection-IsRouted :
    (name owner : Bytes) (services : List Bytes) (addr : Bytes) (now : ℕ)
    → IsRouted (new_connection name owner services addr now) [] []
unfolding new_connection lookup
new_connection-IsRouted name owner services addr now = record {
  replies = record { known = λ id ref h. cc; contents = λ ref ch h. cc; as_many = refl };
  frames = record { known = λ id ref h. cc; contents = λ ref ch h. cc; as_many = refl };
}

module _ (name owner : Bytes) (services : List Bytes) (addr : Bytes) (now : ℕ) (acts : List Action)
    (t : ShoreConnection) (ref : ℕ) where
  -- Answers are not mixed up. After any run of operations on a new connection, what is in the channel
  -- of the n-th request that was made of the Shore is an answer with that request's id, whatever the
  -- Shore has sent and in whatever order.
  pub replies-own :
      (ch : Chan HttpResponseMessage)
      → act_all (new_connection name owner services addr now) acts ≡ some t
      → get_elem? t.replies ref ≡ some ch
      → All (λ resp. get_elem? (all_requested acts) ref ≡ some resp.id) ch.buffer
  replies-own ch run there =
      (act_all-IsRouted (new_connection name owner services addr now) t [] [] acts
          (new_connection-IsRouted name owner services addr now) run).replies.contents
        ref ch there

  -- The same for the n-th event stream and its frames.
  pub frames-own :
      (ch : Chan StreamFrameMessage)
      → act_all (new_connection name owner services addr now) acts ≡ some t
      → get_elem? t.frames ref ≡ some ch
      → All (λ frame. get_elem? (all_opened acts) ref ≡ some frame.id) ch.buffer
  frames-own ch run there =
      (act_all-IsRouted (new_connection name owner services addr now) t [] [] acts
          (new_connection-IsRouted name owner services addr now) run).frames.contents
        ref ch there
