-- ===== src/Lib.antt =====
-- The room server of Secure Scuttlebutt, go-ssb-room: its storage services, the live side of the
-- room, and the pages of its web server, with the theorems that make them correct.
--
-- Parts, and how they interact. The storage services (roomdb, roomdb/sqlite) keep members, aliases,
-- invites, denied keys, sessions, passwords, notices and settings in one SQL database. The listener
-- (roomsrv/init_network.go) asks them whether a connection may come in. A peer that is in calls the
-- muxrpc handlers: those of the tunnel (muxrpc/handlers/tunnel/server) keep the room state
-- (roomstate/roomstate.go), whose changes go out to watchers (internal/broadcasts); those of aliases
-- (muxrpc/handlers/alias) and of sign-in (muxrpc/handlers/signinwithssb) check a signature and write
-- to the storage. A browser is signed in by a cookie with a token (web/handlers/auth/withssb.go),
-- which puts a member into the context of its requests (web/members/helper.go); the pages
-- (web/handlers, web/handlers/admin) ask what that member may do, and call the storage services.
--
-- Files.
--   Base: the names and the tests that all modules share.
--   Roomdb: roomdb/types.go, roles, privacy modes and errors (check_role is Role.IsValid).
--   Sqlite/Rows, Sqlite/Db, Sqlite/Schema: tables as lists of rows, the constraints of
--     roomdb/sqlite/migrations, and transact of roomdb/sqlite/new.go. Sqlite/Tables, Sqlite/Keeps,
--     Sqlite/Atomic, Sqlite/Invariant, Sqlite/Select carry the lemmas and the rules for search.
--   Sqlite/Members, Invites, Aliases, Denied, Config, Sessions, Fallback, Notices: a file each, with
--     every function named after the Go method, which its comment gives. In the folder of each,
--     Invariant has what a call keeps, and Laws what it does; Invites/Creation and Fallback/Resets
--     follow a token from its making to its use, and Sqlite/Liveness says when the making succeeds.
--     Sqlite/Service puts all calls together, as one step of the database.
--   Room/Broadcasts: internal/broadcasts. Room/State: roomstate/roomstate.go,
--     with Refinement to a map by key.
--   Room/Tunnel: muxrpc/handlers/tunnel/server, with Watching on what a watcher is told.
--   Room/Network: roomsrv/init_network.go and the first tracker of internal/network/conntracker.go.
--     Room/Trackers: the second, which is the default, and that of conntracker_acceptAll.go.
--   Room/Aliases: muxrpc/handlers/alias and internal/aliases.
--   Room/SignIn: muxrpc/handlers/signinwithssb and internal/signinwithssb.
--   Room/Actions: web/members/helper.go.
--   Web/Errors: web/errors. Web/Request: what the handlers read of a request and how they answer,
--     with the rules that search applies to handlers in Guards and Answers.
--   Web/Admin: web/handlers/admin, with a file for each of its Go files that writes to the database.
--     Its Guards, Answers and Translations have the theorems;
--     Performed says which call each form stands for, and Handling takes the handlers one by one.
--     Web/Admin/Dashboard: dashboard.go, and the pages on one member. Web/Endpoint: the addresses of
--     internal/network/interface.go.
--   Web/Invites, Aliases, Password, Notices: the files of web/handlers of these names (Password is
--     members_password.go). Web/Banning is about a page for denied keys and one for invites together.
--   Web/Login: web/handlers/auth/withssb.go and the middleware of web/members/helper.go.
--   Web/Secrets: LoadOrCreateCookieSecrets and LoadOrCreateCSRFSecret of web/utils.go.
--   Tests: a small room, and the theorems on it.
--
-- Conventions. A call of a service is a function from a database to a result and a database. The
-- engine may refuse any of its statements: the argument of type Faults says which, by number, so
-- all error branches can be taken. Time and random bytes are arguments too. Numbers are natural
-- numbers; ids and times do not wrap, and times are whole seconds. A text is its list of code
-- points, a feed reference is the text that it prints as. Code of other repositories (signatures,
-- base64, SHA-256, bcrypt, the parser of references) stands in the records Codec and Library, about
-- which nothing is assumed but what a theorem names. An error that the source wraps is the error it
-- wraps.
--
-- Pages. A handler is a function from a database to what it writes to the response and a database.
-- A redirect in a defer statement comes last. Handlers that return data for a template return that
-- data, or the error that the renderer answers. `req.ParseForm` may fail; `req.FormValue` is a
-- function of the name. Errors keep the nesting that errors.Is and errors.As look through.
--
-- Bounds and fuel. The loops that try a hundred tokens run on the number of tries that are left. The
-- loop of RegisterSession has no bound in the source; it runs on fuel, which is enough where one of
-- the draws within it is unused. The loop over the file of cookie keys runs on the length of the
-- file, which is enough since each round takes 64 bytes off it. Everything else is structural.
--
-- Concurrency. A mutex that covers a whole call makes it one step. AddEndpoint and Remove tell the
-- watchers after they have unlocked; the model does both in one step, so updates of two calls that
-- overtake each other are not seen. Where OnAccept of the default tracker locks twice, what others do
-- in between is an argument. Transactions are serial, as SQLite's are.
--
-- Not modelled. Sockets, handshakes, the copying of tunnelled bytes, JSON, templates, QR codes,
-- markdown, routing, pagination, translations and the token against forged requests (I/O and glue);
-- the event stream of the sign-in and the page that starts it; a session store that fails while a
-- flash message is saved, which panics; row ids below zero, which no row has; code that the SQL
-- mapper generates, whose queries are read as the statements that they stand for.
pub mod Base
pub mod Roomdb
pub mod Sqlite
pub mod Room
pub mod Web
pub mod Tests
