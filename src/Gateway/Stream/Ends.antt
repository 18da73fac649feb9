-- ===== src/Gateway/Stream/Ends.antt =====
-- How an event stream ends, for its Shore and for its client.
use dock.Base.{
  ℕ, zero, suc, ◌≤◌, ◌≡◌, refl, sym, ap, ◌∙◌, List, [], ◌∷◌, ◌++◌, none, some, arith, Bytes,
  Bytes_eq, length, All, append_assoc, append-nil,
}
use dock.Protocol.{StreamFrameMessage}
use dock.Shore.{ShoreConnection, find_stream, deliver_frame, close_stream}
use dock.Shore.Streams.{Holds}
use dock.Shore.Reader.{IsEnded, receive_frame-IsEnded, receive_frame-last, close_stream-Holds}
use dock.Http.Writer.{Writer}
use dock.Gateway.Stream.Order.{text_of, accepted, IsFor, Head, write-sent, turns-Streamed}
use dock.Gateway.Stream.{
  Chosen, frame_ready, client_gone, again, returns, frame_round, leave_round, stream_round,
  stream_loop, Turn, turns,
}

-- `n` rounds, each of which takes what the channel gives
pub taking : ℕ → List Chosen
taking zero = []
taking (suc n) = frame_ready ∷ taking n

loop-again :
    (s s1 : ShoreConnection) (ref : ℕ) (id : Bytes) (w w1 : Writer) (c : Chosen) (cs : List Chosen)
    → stream_round s ref id w c ≡ again s1 w1
    → stream_loop s ref id w (c ∷ cs) ≡ stream_loop s1 ref id w1 cs
unfolding stream_loop
loop-again s s1 ref id w w1 c cs e = rw (stream_loop, e) refl

loop-returns :
    (s s1 : ShoreConnection) (ref : ℕ) (id : Bytes) (w w1 : Writer) (c : Chosen) (cs : List Chosen)
    → stream_round s ref id w c ≡ returns s1 w1
    → stream_loop s ref id w (c ∷ cs) ≡ returns s1 w1
unfolding stream_loop
loop-returns s s1 ref id w w1 c cs e = rw (stream_loop, e) refl

module _ (id : Bytes) (ref : ℕ) (head : Head) where
  -- A closed channel is read to its end.
  drains :
      (s : ShoreConnection) (w : Writer) (q : List StreamFrameMessage)
      → w.sent ≡ some head
      → IsEnded s ref q
      → (t : ShoreConnection) × (w' : Writer) × (stream_loop s ref id w (taking (suc (length q)))
          ≡ returns t w')
        × (w'.body ≡ w.body ++ text_of q)
  unfolding taking stream_round frame_round
  drains s w [] sent v =
      let (t, e) = receive_frame-last s ref v in
      (
        t,
        w,
        loop-returns s t ref id w w frame_ready [] (ap (frame_round w) e),
        sym (append-nil w.body),
      )
  drains s w (f ∷ q) sent v =
      let (s1, e, h) = receive_frame-IsEnded s ref f q v in
      let w1 : Writer = record w { body = w.body ++ f.text } in
      let (t, w', runs, text) = drains s1 w1 q sent h in
      (
        t,
        w',
        loop-again s s1 ref id w w1 frame_ready (taking (suc (length q)))
              (ap (frame_round w) e ∙ ap (again s1) (write-sent w f.text head sent))
            ∙ runs,
        text ∙ append_assoc w.body f.text (text_of q),
      )

  -- A stream that its Shore ends. While it is open, frames arrive and the handler takes them, in any
  -- order of turns; then the Shore ends the stream. Nothing panics, the handler returns after 33 more
  -- rounds at most, and the client has got the text of what had waited before and of every frame
  -- that found one of the channel's 32 places, in the order in which they came and once each.
  pub stream-ended :
      (s : ShoreConnection) (w : Writer) (b : List StreamFrameMessage) (ts : List Turn)
      → w.sent ≡ some head
      → All (IsFor id) ts
      → length b ≤ 32
      → Holds s id ref b
      → (s' : ShoreConnection) × (w' : Writer) × (t : ShoreConnection) × (n : ℕ)
        × (t' : ShoreConnection) × (w'' : Writer) × (turns s ref id w ts ≡ some (s', w'))
        × (close_stream s' id ≡ some t)
        × (n ≤ 33)
        × (stream_loop t ref id w' (taking n) ≡ returns t' w'')
        × (w''.body ≡ w.body ++ text_of (b ++ accepted (length b) ts))
  stream-ended s w b ts sent ids le v =
      let r = turns-Streamed id ref head s w b ts sent ids le v in
      let (t, closes, ended, _) = close_stream-Holds r.shore id ref r.waiting r.holds in
      let (t', w'', returned, text) = drains t r.writer r.waiting (r.same ∙ sent) ended in
      (
        r.shore,
        r.writer,
        t,
        suc (length r.waiting),
        t',
        w'',
        r.runs,
        closes,
        omega (arith, r.fits),
        returned,
        text ∙ r.all,
      )

  -- A client that goes away, after any turns: the handler returns without a panic and writes nothing
  -- more, the Shore's connection forgets the stream, and a frame that comes for it later changes
  -- nothing.
  pub client_gone-forgets :
      (s : ShoreConnection) (w : Writer) (b : List StreamFrameMessage) (ts : List Turn)
      (late : StreamFrameMessage)
      → w.sent ≡ some head
      → All (IsFor id) ts
      → length b ≤ 32
      → Holds s id ref b
      → late.id ≡ id
      → (s' : ShoreConnection) × (w' : Writer) × (t : ShoreConnection) × (turns s ref id w ts
          ≡ some (s', w'))
        × (stream_round s' ref id w' client_gone ≡ returns t w')
        × (find_stream t id ≡ none)
        × (deliver_frame t late ≡ some t)
  unfolding stream_round leave_round deliver_frame
  client_gone-forgets s w b ts late sent ids le v mine =
      let r = turns-Streamed id ref head s w b ts sent ids le v in
      let (t, closes, _, gone) = close_stream-Holds r.shore id ref r.waiting r.holds in
      (
        r.shore,
        r.writer,
        t,
        r.runs,
        ap (leave_round r.writer) closes,
        gone,
        rw (deliver_frame, mine, gone) refl,
      )
