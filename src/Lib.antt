-- ===== src/Lib.antt =====
-- Dock, a gateway that lets a user's browser reach the user's own Shores. A Shore connects to Dock by a
-- WebSocket and stays connected; Dock signs users in, and passes each request of a browser to the Shore
-- that its path or its cookie names, as a message on that WebSocket, and the Shore's answer back.
--
-- The files, and what they are about:
--   Base        shared types and lemmas: byte strings, maps as association lists, lists measured by
--               native numbers, and the routines of the standard library that the code relies on
--               (strings.Cut, LastIndex, TrimPrefix, TrimSpace, Sprintf and Sscanf with %d, hex, base64)
--   Session     main.go: loadSessionSecret, createSessionToken, extractSessionUser. Session/Secret and
--               Session/Token hold the theorems
--   Protocol    protocol.go: the messages between Dock and a Shore
--   Shore       registry.go, ShoreConnection: SendHTTPRequest, DeliverResponse, OpenStream,
--               DeliverFrame, CloseStream, CancelPendingRequest, Close and WriteJSON. Shore/Channel
--               holds Go's buffered channels, Shore/Linked and Shore/Invariant the well-formed tables,
--               Shore/Actions runs of the methods, Shore/Requests and Shore/Streams their effects,
--               Shore/Addressed to Shore/Crosstalk the channels that the messages of a run get into,
--               and Shore/Kept what no method but Close changes
--   Registry    registry.go, ShoreRegistry: Register, Unregister, Get, List, Default, ListByOwner,
--               GetByOwner and reap; what runShoreReadLoop of shore_handler.go defers. Registry/Lifecycle
--               has connecting, ending and reaping as events, with the states they reach, and
--               Registry/Silence the reaper's ticks among them (runReaper); Registry/Channels has the
--               Shores' own tables in all of that
--   Http        net/http as the handlers see it: a request and its headers, flattenHeaders of gateway.go,
--               extractClientIP of main.go, in Http/Writer a response being written,
--               and in Http/Methods which methods its writers have
--   Gateway     gateway.go: resolveShore (Gateway/Resolve), the path (Gateway/Path) and the headers
--               (Gateway/Forwarded) that routeToShore forwards, the handler routeToShore itself up to its
--               wait, with the start of handleSSERequest (Gateway/Route, Gateway/Routed), and the end of
--               the wait with writeHTTPResponse (Gateway/Answer). Gateway/Stream is the loop of
--               handleSSERequest, and Gateway/Untouched says which Shores a request leaves alone
--   Users       users.go: the user store, with the table's invariant in Users/Table and the queries in
--               Users/Queries
--   Auth        main.go: /login, /register, /logout and requireSession; Auth/Pick has the loop for a free
--               username, Auth/OAuth the routes under /auth/, Auth/Register and Auth/SignedIn what a
--               browser can do after it has signed in, with the names whose cookies come back as they were
--               set in Auth/Octets
--   Connect     shore_handler.go: shoreConnectHandler up to the read loop, Connect/Identity for who
--               gets into the registry, Connect/ReadLoop for runShoreReadLoop,
--               and Connect/Messages for the decoding of what a Shore sends
--   Json        JSON values and how encoding/json reads them into structs; Protocol/Codec has what it
--               makes of the messages of protocol.go, and Protocol/Trip the way back
--   Logging     main.go: statusResponseWriter and loggingMiddleware
--   Status      main.go: statusHandler and apiShoresHandler
--   Certificates
--               main.go: parseCACert, pemValueOrFile, loadServerCert and the listeners of main;
--               shore_handler.go: buildTLSConfig
--   Startup     main.go: what main makes of the environment, generateID; version.go
--   Server      main.go: the mux of main, /healthz, the landing page and the routes behind requireSession,
--               in Server/Serve all routes over the registry and the user table (Server/Serve/Protected
--               has the paths meant for everybody), and in
--               Server/Running their requests among the rounds of read loops, what handlers do later
--               and the reaper's ticks
--
-- How they interact. A handler behind requireSession sees the user's name, which Gateway hands to
-- the registry's GetByOwner and to the forwarded headers. The registry holds pointers into a heap of
-- Shores, so that a Shore that has been replaced or unregistered can still be closed and written to.
-- A Shore holds its channels by reference for the same reason: the handler that waits for an answer
-- and the read loop that delivers it share a channel. Sign-in handlers thread the user store and the
-- response writer through their calls.
--
-- Numbers and bounds. Strings are lists of bytes. Times are natural numbers of seconds or of
-- nanoseconds after 1970; a duration that is negative in Go is 0 here, and one too long is Go's largest.
-- The int64 that Sscanf reads is kept within its range. A pool of Shores, headers and accounts
-- has no bound. A send on a closed channel and a second close panic, written as none. The loop for a
-- username has fuel: one round more than there are accounts is enough while the database answers. The loop of
-- parseCACert has fuel for as many blocks as the text has bytes and one more, which is enough since each
-- block takes a byte at least.
--
-- What is a parameter: the way a wait for a Shore ends, HMAC-SHA256, bcrypt's hash and comparison, the
-- random bytes, the OAuth provider's answer, x509's verification under a pool, pem.Decode and the packages
-- x509 and tls, the environment and the file system, sort.Slice (with what it promises), the text that
-- encoding/json writes, the valid UTF-8 that it
-- makes of a string, what becomes of a cookie's value on its way to a browser and back, the socket's
-- success at a write, and the database engine's at a statement.
-- Concurrency: each method that holds a mutex is one step; DeliverFrame and CloseStream, which let go of
-- it, are two steps each in Shore, and one where Server/Running puts the parts together. SendHTTPRequest,
-- DeliverResponse and OpenStream let go of the mutex before they write or send, and the read loop's end
-- unregisters the Shore and closes it under two locks: each of these is one step here.
--
-- What is not modelled: the WebSocket and TLS layers, the text of JSON and of log lines, the serving of
-- static files, responses to HEAD, how net/http accepts requests and how the mux redirects paths, and
-- the deployment files.
pub mod Base
pub mod Session
pub mod Protocol
pub mod Shore
pub mod Registry
pub mod Http
pub mod Gateway
pub mod Users
pub mod Auth
pub mod Connect
pub mod Logging
pub mod Json
pub mod Status
pub mod Certificates
pub mod Startup
pub mod Server
