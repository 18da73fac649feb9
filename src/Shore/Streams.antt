-- ===== src/Shore/Streams.antt =====
-- Frames of a stream: what reaches the reader, and what a close in between does.
use dock.Base.{
  ℕ, ◌≤◌, ◌≡◌, refl, sym, ap, ◌∙◌, subst, inl, inr, true, false, List, [], ◌∷◌, ◌++◌, Option, none,
  some, arith, Bytes, Bytes_eq, delete, length, take, length-append, get_elem?, set,
  get_elem?-set_self, All, Bool-cases, ltb, take_all, take-take-append, take-append_full,
  length-take-le, append_assoc, append-nil, Option-cases,
}
use dock.Protocol.{StreamFrameMessage}
use dock.Shore.Channel.{Chan, try_send}
use dock.Shore.{ShoreConnection, find_stream, send_frame, deliver_frame, close_stream}

-- `DeliverFrame` for each of a list of frames: none for a panic.
pub deliver_frames : ShoreConnection → List StreamFrameMessage → Option ShoreConnection
deliver_frames s [] = some s
deliver_frames s (f ∷ fs) = elim (deliver_frame s f) [ none ↦ none | some t ↦ deliver_frames t fs ]

-- The stream `id` has the open channel `ref`, and `buffer` waits in it.
pub record Holds (s : ShoreConnection) (id : Bytes) (ref : ℕ) (buffer : List StreamFrameMessage)
    : Type 0 where
  pub known : find_stream s id ≡ some ref
  pub stored : get_elem? s.frames ref ≡ some (record { buffer = buffer; cap = 32; closed = false })

try_send-take :
    (b : List StreamFrameMessage) (f : StreamFrameMessage)
    → length b ≤ 32
    → try_send (record { buffer = b; cap = 32; closed = false }) f
      ≡ some (record { buffer = take 32 (b ++ f ∷ []); cap = 32; closed = false })
unfolding try_send
try_send-take b f h = elim (Bool-cases (ltb (length b) 32)) [
  | inl room ↦
      let all : take 32 (b ++ f ∷ []) ≡ b ++ f ∷ [] =
        take_all 32 (b ++ f ∷ []) (ground (arith, length-append {0} b (f ∷ []))) in
      ground arith
  | inr full ↦
      let same : take 32 (b ++ f ∷ []) ≡ b = take-append_full 32 b (f ∷ []) (ground arith) in
      ground arith
]

pub deliver_frame-Holds :
    (s : ShoreConnection) (id : Bytes) (ref : ℕ) (b : List StreamFrameMessage)
    (f : StreamFrameMessage)
    → f.id ≡ id
    → length b ≤ 32
    → Holds s id ref b
    → (t : ShoreConnection) × (deliver_frame s f ≡ some t) × Holds t id ref (take 32 (b ++ f ∷ []))
unfolding deliver_frame find_stream
deliver_frame-Holds s id ref b f same h v =
    let ch : Chan StreamFrameMessage = record {
      buffer = take 32 (b ++ f ∷ []);
      cap = 32;
      closed = false;
    } in
    (
      record s { frames = set s.frames ref ch },
      ground (arith, try_send-take b f h),
      record { known = v.known; stored = get_elem?-set_self s.frames ref ch _ v.stored },
    )

deliver_frames-Holds :
    (s : ShoreConnection) (id : Bytes) (ref : ℕ) (b fs : List StreamFrameMessage)
    → All (λ f. f.id ≡ id) fs
    → length b ≤ 32
    → Holds s id ref b
    → (t : ShoreConnection) × (deliver_frames s fs ≡ some t) × Holds t id ref (take 32 (b ++ fs))
unfolding deliver_frames
deliver_frames-Holds s id ref b [] ids h v =
    (s, refl, subst (Holds s id ref) (sym (ap (take 32) (append-nil b) ∙ take_all 32 b h)) v)
deliver_frames-Holds s id ref b (f ∷ fs) (same, ids) h v =
    let (t, one, w) = deliver_frame-Holds s id ref b f same h v in
    let (u, rest, x) =
      deliver_frames-Holds t id ref (take 32 (b ++ f ∷ [])) fs ids (length-take-le 32 (b ++ f ∷ []))
        w in
    (
      u,
      ground arith,
      subst (Holds u id ref)
          (take-take-append 32 (b ++ f ∷ []) fs ∙ ap (take 32) (append_assoc b (f ∷ []) fs)) x,
    )

-- The frames that arrive for an open stream whose channel holds `b`, at most 32 of them, go to the
-- end of the channel in their order; those for which its 32 places do not suffice are dropped, and
-- nothing panics.
pub deliver_frames-bounded :
    (s : ShoreConnection) (id : Bytes) (ref : ℕ) (b fs : List StreamFrameMessage)
    → All (λ f. f.id ≡ id) fs
    → length b ≤ 32
    → Holds s id ref b
    → (t : ShoreConnection) × (deliver_frames s fs ≡ some t)
      × (get_elem? t.frames ref
          ≡ some (record { buffer = take 32 (b ++ fs); cap = 32; closed = false }))
deliver_frames-bounded s id ref b fs ids h v =
    let (t, e, w) = deliver_frames-Holds s id ref b fs ids h v in (t, e, w.stored)

-- `DeliverFrame` looks the channel up under the lock and sends after it has let go of it. If the
-- stream is closed in between, as when the browser goes away, the send panics: whatever the Shore's
-- state, the id and the frame.
pub deliver_close_race :
    (s t : ShoreConnection) (id : Bytes) (ref : ℕ) (frame : StreamFrameMessage)
    → find_stream s id ≡ some ref
    → close_stream s id ≡ some t
    → send_frame t ref frame ≡ none
unfolding find_stream close_stream send_frame try_send
deliver_close_race s t id ref frame found closes = elim (Option-cases (get_elem? s.frames ref)) [
  | inl missing ↦ ground arith
  | inr (ch, there) ↦ elim (Bool-cases ch.closed) [
    | inl already ↦ ground arith
    | inr open_ch ↦
        let ch' : Chan StreamFrameMessage = record ch { closed = true } in
        let after : get_elem? (set s.frames ref ch') ref ≡ some ch' =
          get_elem?-set_self s.frames ref ch' ch there in
        let same : t ≡ record s { streams = delete id s.streams; frames = set s.frames ref ch' } =
          ground arith in
        rw same (ground arith)
  ]
]
