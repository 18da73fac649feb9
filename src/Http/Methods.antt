-- ===== src/Http/Methods.antt =====
-- main.go: which methods the writers have that the handlers are given.
use dock.Base.{Bool, true, false, List, [], ◌∷◌, ◌++◌}

-- The methods of writers that the handlers ask for.
pub data Method : Type 0 where
  header write write_header flush hijack : Method

-- The writer that a handler gets: net/http's own for HTTP/1.1, or the `statusResponseWriter` that
-- `loggingMiddleware` puts around it.
pub data Handed : Type 0 where
  plain : Handed
  logged : Handed

-- The interface `http.ResponseWriter`
abbrev pub response_writer : List Method
response_writer = header ∷ write ∷ write_header ∷ []

-- A struct has the methods of the interface that it embeds, whatever else the value in it has, and the
-- ones that are declared on it.
abbrev pub method_set : Handed → List Method
method_set plain = response_writer ++ flush ∷ hijack ∷ []
method_set logged = response_writer ++ write_header ∷ write ∷ hijack ∷ []

abbrev has_flush : List Method → Bool
has_flush [] = false
has_flush (flush ∷ ms) = true
has_flush (_ ∷ ms) = has_flush ms

abbrev has_hijack : List Method → Bool
has_hijack [] = false
has_hijack (hijack ∷ ms) = true
has_hijack (_ ∷ ms) = has_hijack ms

-- `w.(http.Flusher)`
unfoldable pub is_flusher : Handed → Bool
is_flusher kind = has_flush (method_set kind)

-- `w.(http.Hijacker)`
unfoldable pub is_hijacker : Handed → Bool
is_hijacker kind = has_hijack (method_set kind)
