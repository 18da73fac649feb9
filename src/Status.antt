-- ===== src/Status.antt =====
-- main.go: `statusHandler` and `apiShoresHandler`, the reply at /status and /api/shores. Services that
-- are nil and services that are an empty slice are one list here, and the text that encoding/json makes
-- of the reply is a function of it.
pub mod Reply
mod Tests
use dock.Base.{ℕ, Bool, List, [], ◌∷◌, Bytes, codes, length, bytes_lt, map}
use dock.Shore.{ShoreConnection}
use dock.Registry.{ShoreRegistry, list_by_owner}
use dock.Http.{Request}
use dock.Http.Writer.{Writer, set_header, write}

-- `shoreStatus`, with the names of its fields in JSON
pub record ShoreStatus : Type 0 where
  pub name : Bytes
  pub owner : Bytes
  pub services : List Bytes
  pub connected : ℕ
  pub last_ping : ℕ
  pub remote_addr : Bytes

-- The map that is encoded.
pub record StatusReply : Type 0 where
  pub shores : List ShoreStatus
  pub count : ℕ
  pub user : Bytes

unfoldable pub shore_status : ShoreConnection → ShoreStatus
shore_status s = record {
  name = s.name;
  owner = s.owner;
  services = s.services;
  connected = s.connected;
  last_ping = s.last_ping;
  remote_addr = s.remote_addr;
}

-- The order that is handed to `sort.Slice`.
unfoldable pub name_less : ShoreConnection → ShoreConnection → Bool
name_less s t = bytes_lt s.name t.name

-- The loop that fills `out`.
unfoldable pub statuses : List ShoreConnection → List ShoreStatus
unfolding shore_status
statuses shores = map shore_status shores

-- `sort.Slice` is a function of the order and the slice.
module _
    (sort_slice : (ShoreConnection → ShoreConnection → Bool)
      → List ShoreConnection
      → List ShoreConnection) where
  unfoldable pub status_reply : ShoreRegistry → Bytes → StatusReply
  unfolding statuses name_less
  status_reply r user =
      let out = statuses (sort_slice name_less (list_by_owner r user)) in
      record { shores = out; count = length out; user = user }

  -- `encode` is what the JSON encoder writes.
  module _ (encode : StatusReply → Bytes) where
    -- `statusHandler`
    unfoldable pub status_handler : ShoreRegistry → Request → Writer → Writer
    unfolding status_reply
    status_handler r req w =
        write (set_header w (codes "Content-Type") (codes "application/json"))
          (encode (status_reply r req.user))

    -- `apiShoresHandler`
    unfoldable pub api_shores_handler : ShoreRegistry → Request → Writer → Writer
    unfolding status_handler
    api_shores_handler r req w = status_handler r req w
