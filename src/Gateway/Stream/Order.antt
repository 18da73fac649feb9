-- ===== src/Gateway/Stream/Order.antt =====
-- Frames arrive for an event stream and are taken, by turns: what has been written, with what waits, is
-- the text of all that found a place.
use dock.Base.{
  ℕ, ◌+◌, ◌-◌, ◌≤◌, ◌≡◌, refl, sym, ap, ◌∙◌, inl, inr, true, false, List, [], ◌∷◌, ◌++◌, none, some,
  arith, Bytes, Bytes_eq, length, take, take_all, take-append_full, length-append, All, Bool-cases,
  ltb, append_assoc, append-nil, if◌then◌else◌, Map, subst,
}
use dock.Protocol.{StreamFrameMessage}
use dock.Shore.{ShoreConnection, receive_frame, deliver_frame}
use dock.Shore.Streams.{Holds, deliver_frame-Holds}
use dock.Shore.Reader.{receive_frame-Holds, receive_frame-empty}
use dock.Http.Writer.{Writer, Cookie, write, write_header}
use dock.Gateway.Stream.{
  frame_round, stream_round, Turn, arrives, takes, after_take, after_arrival, turn, turns,
}

abbrev pub text_of : List StreamFrameMessage → Bytes
text_of [] = []
text_of (f ∷ fs) = f.text ++ text_of fs

-- The frames that find a place, where `n` places of 32 are taken: the others are dropped.
abbrev pub accepted : ℕ → List Turn → List StreamFrameMessage
accepted n [] = []
accepted n (arrives f ∷ ts) =
    let kept = f ∷ accepted (n + 1) ts in
    let dropped = accepted n ts in if ltb n 32 then kept else dropped
accepted n (takes ∷ ts) = accepted (n - 1) ts

abbrev pub IsFor : Bytes → Turn → Type 0
IsFor id (arrives f) = f.id ≡ id
IsFor id takes = Unit

accepted-room :
    (n : ℕ) (f : StreamFrameMessage) (ts : List Turn)
    → ltb n 32 ≡ true
    → accepted n (arrives f ∷ ts) ≡ f ∷ accepted (n + 1) ts
accepted-room n f ts h = rw h refl

accepted-full :
    (n : ℕ) (f : StreamFrameMessage) (ts : List Turn)
    → ltb n 32 ≡ false
    → accepted n (arrives f ∷ ts) ≡ accepted n ts
accepted-full n f ts h = rw h refl

text_of-append : (b c : List StreamFrameMessage) → text_of (b ++ c) ≡ text_of b ++ text_of c
text_of-append [] c = refl
text_of-append (f ∷ b) c =
    ap (λ x. f.text ++ x) (text_of-append b c) ∙ sym (append_assoc f.text (text_of b) (text_of c))

abbrev pub Head : Type 0
Head = ℕ × Map Bytes Bytes × List Cookie

pub write-sent :
    (w : Writer) (b : Bytes) (head : Head)
    → w.sent ≡ some head
    → write w b ≡ record w { body = w.body ++ b }
unfolding write write_header
write-sent w b head h = rw h refl

-- After some turns: `out` has been written and `q` waits.
pub record Streamed (s : ShoreConnection) (id : Bytes) (ref : ℕ) (w : Writer)
    (b : List StreamFrameMessage) (ts : List Turn) : Type 0 where
  pub shore : ShoreConnection
  pub writer : Writer
  pub waiting : List StreamFrameMessage
  pub runs : turns s ref id w ts ≡ some (shore, writer)
  pub holds : Holds shore id ref waiting
  pub fits : length waiting ≤ 32
  pub same : writer.sent ≡ w.sent
  pub all : writer.body ++ text_of waiting ≡ w.body ++ text_of (b ++ accepted (length b) ts)

step :
    (s s1 : ShoreConnection) (id : Bytes) (ref : ℕ) (w w1 : Writer) (b b1 : List StreamFrameMessage)
    (t : Turn) (ts : List Turn)
    → turn s ref id w t ≡ some (s1, w1)
    → w1.sent ≡ w.sent
    → w1.body ++ text_of (b1 ++ accepted (length b1) ts)
      ≡ w.body ++ text_of (b ++ accepted (length b) (t ∷ ts))
    → Streamed s1 id ref w1 b1 ts
    → Streamed s id ref w b (t ∷ ts)
unfolding turns
step s s1 id ref w w1 b b1 t ts one sent text v = record {
  shore = v.shore;
  writer = v.writer;
  waiting = v.waiting;
  runs = rw (turns, one) v.runs;
  holds = v.holds;
  fits = v.fits;
  same = v.same ∙ sent;
  all = v.all ∙ text;
}

takes-some :
    (s s1 : ShoreConnection) (id : Bytes) (ref : ℕ) (w : Writer) (f : StreamFrameMessage)
    → receive_frame s ref ≡ some (some f, s1)
    → turn s ref id w takes ≡ some (s1, write w f.text)
unfolding turn stream_round frame_round after_take
takes-some s s1 id ref w f e = rw (turn, stream_round, e) refl

takes-none :
    (s : ShoreConnection) (id : Bytes) (ref : ℕ) (w : Writer)
    → receive_frame s ref ≡ none
    → turn s ref id w takes ≡ some (s, w)
unfolding turn stream_round frame_round after_take
takes-none s id ref w e = rw (turn, stream_round, e) refl

arrives-some :
    (s s1 : ShoreConnection) (id : Bytes) (ref : ℕ) (w : Writer) (f : StreamFrameMessage)
    → deliver_frame s f ≡ some s1
    → turn s ref id w (arrives f) ≡ some (s1, w)
unfolding turn after_arrival
arrives-some s s1 id ref w f e = rw (turn, e) refl

module _ (id : Bytes) (ref : ℕ) (head : Head) where
  pub turns-Streamed :
      (s : ShoreConnection) (w : Writer) (b : List StreamFrameMessage) (ts : List Turn)
      → w.sent ≡ some head
      → All (IsFor id) ts
      → length b ≤ 32
      → Holds s id ref b
      → Streamed s id ref w b ts
  unfolding turns
  turns-Streamed s w b [] sent ids le v = record {
    shore = s;
    writer = w;
    waiting = b;
    runs = refl;
    holds = v;
    fits = le;
    same = refl;
    all = ap (λ x. w.body ++ text_of x) (sym (append-nil b));
  }
  turns-Streamed s w b (arrives f ∷ ts) sent (mine, ids) le v =
      let (t, e, h) = deliver_frame-Holds s id ref b f mine le v in
      elim (Bool-cases (ltb (length b) 32)) [
        | inl room ↦
            let longer : length (b ++ f ∷ []) ≡ length b + 1 = length-append b (f ∷ []) in
            let le' : length (b ++ f ∷ []) ≤ 32 = ground arith in
            let kept : take 32 (b ++ f ∷ []) ≡ b ++ f ∷ [] = take_all 32 (b ++ f ∷ []) le' in
            step s t id ref w w b (b ++ f ∷ []) (arrives f) ts (arrives-some s t id ref w f e) refl
              (ap (λ x. w.body ++ text_of x)
                (append_assoc b (f ∷ []) (accepted (length (b ++ f ∷ [])) ts)
                  ∙ ap (λ n. b ++ f ∷ accepted n ts) longer
                  ∙ ap (λ x. b ++ x) (sym (accepted-room (length b) f ts room))))
              (turns-Streamed t w (b ++ f ∷ []) ts sent ids le' (subst (Holds t id ref) kept h))
        | inr full ↦
            let kept : take 32 (b ++ f ∷ []) ≡ b = take-append_full 32 b (f ∷ []) (ground arith) in
            step s t id ref w w b b (arrives f) ts (arrives-some s t id ref w f e) refl
              (ap (λ x. w.body ++ text_of (b ++ x)) (sym (accepted-full (length b) f ts full)))
              (turns-Streamed t w b ts sent ids le (subst (Holds t id ref) kept h))
      ]
  turns-Streamed s w [] (takes ∷ ts) sent (_, ids) le v =
      step s s id ref w w [] [] takes ts (takes-none s id ref w (receive_frame-empty s id ref v))
        refl refl (turns-Streamed s w [] ts sent ids le v)
  turns-Streamed s w (f ∷ q) (takes ∷ ts) sent (_, ids) le v =
      let (s1, e, h) = receive_frame-Holds s id ref f q v in
      let w1 : Writer = record w { body = w.body ++ f.text } in
      step s s1 id ref w w1 (f ∷ q) q takes ts
        (takes-some s s1 id ref w f e ∙ ap (λ x. some (s1, x)) (write-sent w f.text head sent)) refl
        (append_assoc w.body f.text (text_of (q ++ accepted (length q) ts))
          ∙ ap (λ n. w.body ++ (f.text ++ text_of (q ++ accepted n ts))) one_less)
        (turns-Streamed s1 w1 q ts sent ids (omega arith) h)
    where
      one_less : length q ≡ length (f ∷ q) - 1
      one_less = omega arith
