-- ===== src/Shore/Channel.antt =====
-- Go channels with a buffer, as registry.go uses them.
use dock.Base.{
  ℕ, Bool, true, false, List, [], ◌∷◌, ◌++◌, Option, none, some, length, ltb, if◌then◌else◌,
}

pub record Chan {ℓ} (A : Type ℓ) : Type ℓ where
  pub buffer : List A
  pub cap : ℕ
  pub closed : Bool

module _ {ℓ} {A : Type ℓ} where
  -- `make(chan A, n)`
  unfoldable pub make : ℕ → Chan A
  make n = record { buffer = []; cap = n; closed = false }

  -- `select { case ch <- a: default: }`: the value is dropped if the buffer is full. A send on a
  -- closed channel panics: none.
  unfoldable pub try_send : Chan A → A → Option (Chan A)
  try_send ch a =
      if ch.closed
      then none
      else if ltb (length ch.buffer) ch.cap
      then some (record ch { buffer = ch.buffer ++ a ∷ [] })
      else some ch

  -- `close(ch)`: to close a closed channel panics.
  unfoldable pub close_chan : Chan A → Option (Chan A)
  close_chan ch = if ch.closed then none else some (record ch { closed = true })

  unfoldable pub receive_from : Chan A → List A → Option (Option A × Chan A)
  receive_from ch [] = if ch.closed then some (none, ch) else none
  receive_from ch (a ∷ rest) = some (some a, record ch { buffer = rest })

  -- `a, ok := <-ch`: none where it would block; `some (none, _)` on a closed channel that is empty.
  unfoldable pub receive : Chan A → Option (Option A × Chan A)
  unfolding receive_from
  receive ch = receive_from ch ch.buffer
