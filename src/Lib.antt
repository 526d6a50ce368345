-- ===== src/Lib.antt =====
-- A verification library for cache-22-server, a Go server that keeps a library of PS2 disc
-- images, their uploads, the players' accounts and their memory cards.
--
-- The parts and their files. Paths are from the root of the repository.
--   * Prelude: shared helpers over the native naturals: Boolean tests, lists, equality of bytes,
--     association lists. Go: the functions of Go's library that the code uses, translated from
--     their documented behaviour (strings, strconv, sort, unicode/utf8, path/filepath), over lists of bytes.
--   * Entity: internal/entity. World: the state that everything works on, which is the rows of
--     the tables, the files, the folder .uploads, the clock, the random source and a schedule of
--     faults. An operation is a function from a world to a result and a world; each call of the
--     system or the database takes one entry of the schedule and fails if it is true, so a
--     statement about every world is one about every way of failing. A failing write gets `torn`
--     bytes through.
--   * External: SHA-1, SHA-256, bcrypt and the order of titles, as parameters. Samples: a stand-in for
--     them in the tests.
--   * Db: internal/infra/db, one module for each repository, and Db.Schema for
--     the constraints of db.go. Disk: the calls of package os that
--     the parts share. Remote: what the service of covers is sent and answers.
--   * Scanner: internal/infra/scanner. Config: internal/config.
--   * Serial: sanitizeSerial. Upload: internal/handler/http/upload_chunked.go and finalizeUpload
--     of upload.go. Upload.Ranges is mergeRange, Upload.Store the files of a session,
--     Upload.Finalize the move into the library, Upload.Init and Upload.Chunked the handlers, and Upload.Single
--     the upload of a whole file in one request.
--   * Auth: internal/app/usecase/auth. Guard: internal/handler/http/auth.go.
--   * Saves: internal/app/usecase/save, and Saves.Handlers internal/handler/http/saves.go.
--   * Accounts: internal/handler/http/admin.go and the routes of accounts in handler.go. Games:
--     internal/app/usecase/game, and the handlers of games and files in handler.go and files.go.
--   * Http: the status and body of an answer.
--   * Web: internal/handler/web/handler.go, with Web.Routes for its routes, and Web.Sizes
--     internal/web/helpers.go. Cors: withCORS of internal/xmodule/xmodule.go.
--   * Fakes: internal/testutil/fakes.go, the doubles of the repositories of users and sessions.
--   * Igdb: internal/infra/igdb. Covers: internal/app/usecase/cover, and the handler of the
--     backfill.
--   * Server: Routes of internal/handler/http/handler.go, and the step relation of the whole
--     server: requests of the API, pages, and what happens around it. Apart, and the modules of
--     that name below the parts, are about what leaves the accounts alone.
--
-- How the parts interact: a handler goes through Guard, which asks Auth for the user of the
-- token; Auth, Saves, Scanner and Upload.Finalize work on the tables through Db; Upload.Chunked
-- collects a file in .uploads and hands it to Upload.Finalize, which asks Scanner for its record;
-- Covers asks Igdb for the images of the games that Db has no cover of.
--
-- Numbers are natural numbers. Where Go's int64 can wrap or saturate in what is modelled, the
-- model says so: strconv.ParseInt with its limits (Go.Number), and the end of a chunk
-- (`past_end`). A size is at most 9 GiB and a chunk 64 MiB by the handlers' own tests. Every loop
-- is a recursion over the list it runs through but that of CleanTitle, which has fuel for each
-- byte of the text (Igdb.Titles), and that of FormatBytes, which has the size itself as its fuel
-- (Web.Sizes); each round makes both shorter.
--
-- A handler is one step. Upload.Chunked.Tasks has the chunk handler call by call,
-- Upload.Chunked.Locks the mutexes of uploadLock, and Upload.Chunked.Interleaved the chunk requests of
-- one session that run at the same time, each of which may make its next call whenever the mutex lets
-- it. While they run, no request drops the lock of the session (abort, complete and init do). In the
-- handler as one step (Upload.Store) only the entry of the table of locks is kept.
-- Other interleavings of handlers, but for a login before the last call of ResetPassword (Auth.Race),
-- two deletions of accounts (Accounts.Race) and two uploads of one game (Upload.Finalize.Race),
-- and a crash in the middle of one are not modelled, but a fault can end a handler at any call.
--
-- Not modelled: JSON, HTTP headers and cookies beyond the token, Range requests, page templates,
-- the backfills of covers that run beside other requests, the wiring in cmd and internal/xmodule,
-- and the SQL driver. Letters and spaces are the ASCII ones where a text is lowered or trimmed.
mod Prelude
pub mod Go
pub mod Entity
pub mod Remote
pub mod World
pub mod Disk
pub mod Upload
pub mod Db
pub mod Fakes
pub mod External
mod Samples
pub mod Config
pub mod Serial
pub mod Http
pub mod Scanner
pub mod Igdb
pub mod Covers
pub mod Web
pub mod Apart
pub mod Server
pub mod Cors
pub mod Auth
pub mod Accounts
pub mod Saves
pub mod Guard
pub mod Games
