-- ===== src/Logging/Tests.antt =====
-- Tests and witnesses for the logging middleware.
use dock.Base.{ℕ, ◌≡◌, refl, Bool, true, false, [], none, some, arith, Bytes_eq, codes}
use mathlib.Core.Option
use dock.Http.{Request}
use dock.Http.Writer.{Writer, new_writer, write_status, first_status, write, write_header}
use dock.Http.Methods.{is_flusher, is_hijacker}
use dock.Logging.{
  Handler, returns, does, asks_flusher, hijacks, writes_header, writes, handle, logged_handle, call,
  logging_middleware,
}
use dock.Logging.Transparent.{client_status, unflushed, line_of, logging_middleware_lem}
use dock.Logging.Informational.{log-informational}

abbrev a_req : Request
a_req = record {
  method = codes "GET";
  path = codes "/a";
  raw_query = [];
  header = [];
  cookies = [];
  remote_addr = codes "1.2.3.4:5";
  body = none;
  user = [];
}

-- It would stream to a Flusher, and sends an error where there is none.
abbrev an_error : Handler
an_error =
    asks_flusher (does (writes (codes "data")) returns)
      (does (writes_header 500) (does (writes (codes "x")) (does (writes_header 404) returns)))

logging_middleware_lem_example :
    logging_middleware a_req new_writer an_error
    ≡ Option.map
        (λ (o : Writer × Bool). (o.0, o.1, line_of a_req (client_status o.0)))
        (handle new_writer (unflushed an_error))
logging_middleware_lem_example =
    logging_middleware_lem a_req new_writer an_error refl (omega arith, (tt, (omega arith, tt)))

-- The client gets the error with the middleware, and the stream without it.
an_error_status :
    (Option.map (λ (o : Writer × Bool). o.0.body) (handle new_writer (unflushed an_error))
      ≡ some (codes "x"))
    × (Option.map (λ (o : Writer × Bool). o.0.body) (handle new_writer an_error)
        ≡ some (codes "data"))
unfolding handle is_flusher call write_status first_status write write_header
an_error_status = (refl, refl)

-- A connection that is taken over is logged with 200, though the client has got 101.
upgraded :
    logging_middleware a_req new_writer (hijacks returns)
    ≡ some (new_writer, true, line_of a_req 200)
unfolding logging_middleware dock.Logging.audit logged_handle is_hijacker
    dock.Logging.new_status_response_writer
upgraded = refl

-- The client gets 200, and the log says 103.
log-informational_example :
    (◌≡◌ {A = ℕ} 103 103)
    × (handle new_writer (does (writes (codes "x")) returns)
        ≡ some (write new_writer (codes "x"), false))
unfolding handle call logging_middleware logged_handle dock.Logging.audit dock.Logging.logged_call
    dock.Logging.logged_write_header dock.Logging.logged_write
    dock.Logging.new_status_response_writer write_status first_status write write_header
log-informational_example =
    log-informational a_req new_writer 103 (does (writes (codes "x")) returns)
      (write new_writer (codes "x")) false (line_of a_req 103) (omega arith) (omega arith)
      (omega arith) refl refl
