-- ===== src/Lib.antt =====
-- The parts of the server that keep state or decide about data, and what holds of them.
--
-- Jobs wait in a durable queue. The API enqueues and cancels them, workers lease, settle and
-- give them back, and a worker that is lost leaves a stale lease that another one takes over.
-- Queue.Types has the job and the errors of internal/platform/queue/queue.go, Queue.Table the
-- table of migrations/sqlite/000001_init.up.sql and what the SQL statements do to its rows,
-- Queue.Sqlite the methods of internal/platform/queue/sqlitequeue/queue.go: Enqueue is enqueue,
-- Dequeue dequeue, and so on. A call's clock, lease token, driver errors and the row that SQLite
-- prefers among equals are the record Call.
--
-- Challenge models internal/platform/browser/challenge.go, the short-lived tokens under which a
-- person takes over a browser session. Challenge.Manager has a function for each method; a method
-- that looks a challenge up is with_challenge (lookupLocked) applied to the method's body.
-- Challenge.Wait has Wait in two halves, before and after its select.
--
-- Challenge.Http has the endpoints of internal/jobs/challenge_handler.go over the manager;
-- completeChallenge takes what others do while the browser is asked as a list of calls. Challenge.Input
-- is InputEvent.Valid of internal/platform/browser/browser.go and the loop of serveWS.
--
-- Events models internal/platform/events/hub.go, which tells clients of the progress of a job and
-- replays what a client missed. A channel is an index into buffers of at most 100 entries. Publish
-- sends after it has released the lock; the model takes it as one step.
--
-- Json models the repair of a language model's output, extractAndRepairJSON, stripTrailingCommas
-- and repairTruncated of internal/extraction/nuextract/provider.go. json.Unmarshal is a parameter.
--
-- Chunker models internal/extraction/nuextract/chunker.go over bytes: contextBudget, splitUTF8,
-- splitOversizedBlock, markdownBlocks and splitSemanticMarkdown, with what they use of the
-- packages strings and unicode/utf8. SHA-256 is a parameter.
--
-- Worker models internal/worker/worker.go. Worker.Pool is written over the interface of a queue, what
-- the worker calls of queue.Provider; Worker.Settling states what it needs of a queue, and
-- Worker.Sqlite shows that the SQLite queue gives it. The ticker's goroutine and the handler are a
-- list of ticks, between which other clients may change the store, and the handler's answer.
--
-- Queue.Valkey has the methods of internal/platform/queue/valkeyqueue/queue.go over the commands of the
-- Redis client, which are a parameter: a record of functions on the server's state. Queue.Valkey.Calls
-- states what their documentation says of the status keys, a SET that fails and keys that expire
-- included.
--
-- Browser models internal/platform/browser/chromedp: Browser.Sessions the sessions and the leases of
-- the domain profiles in provider.go, where a Navigate for a login is two steps between which other
-- calls may run; Browser.Pages classifyUserAction, waitForAutomaticChallenge and Snapshot, with the
-- pages that Chromium renders and the answers of FlareSolverr given; Browser.Cookies mergeSolverCookies
-- and the choice of cookies in FetchAsset of solver.go.
--
-- Extract models internal/jobs/extract.go. Extract.Visit is the opening of one page in the
-- loop of NewExtractHandler, from Navigate to CloseSession, with the challenge that the page may
-- pose: the answers of the browser and of Wait are given, the calls made are the result.
-- Extract.Merge is the merging of the pages' results and the deduplication of their lists.
--
-- Extract.Paging is the choice of the next page and the loop over the pages. Extract.Job is the whole
-- handler: page_turn is one turn of its loop, Extract.Job.Persist the storing of the result and the
-- browser sessions of the import of its chapters; what a job leaves is the calls, the events and the
-- error.
--
-- Api models JobStatus, CancelJob, EnqueueExtract and JobEvents of internal/jobs/http.go over the
-- queue and the hub, and Validate of internal/jobs/extract.go. The comments that keep an event stream
-- alive are left out. Api.Redact is redactSensitivePath of internal/platform/httpserver/server.go.
--
-- Library models internal/library: the handlers of http.go over the methods of the SQLite
-- repository, sqlite/repository.go and sqlite/features.go. The tables are lists of rows, with the
-- primary keys, unique columns and references of migrations/sqlite; Prelude.Rows has what SELECT,
-- UPDATE and ORDER BY do to rows, Prelude.Tables what they keep. Library.Media, Library.Chapters,
-- Library.Features and Library.Settings have a function for each method, Library.Http a function
-- handle_... for each handler. A call's clock, its ULID and the errors of its first and its later
-- statements are the record Call of Library.Types.
--
-- Storage models internal/platform/storage: Storage.Interface the interface of storage.go with what
-- its comments promise, Storage.Local the provider of localfs/localfs.go over a map from paths to
-- files, Storage.Paths what that uses of path/filepath. The handlers of the library delete through
-- the interface.
--
-- Import models internal/jobs/chapter_import.go: readExtractedUnits is read_units, saveChapterImages
-- save_images and importExtractedUnits import_units, over the repository of Library and the interface
-- of Storage. What a page or a source of an image gives is an argument. Routes has
-- selectRouteTemplate from its templates on, normalizeUnitNumber and enrichExtractedUnitURLs of
-- internal/jobs/unit_urls.go.
--
-- Config models Load and Validate of internal/platform/config/config.go; config_with is the
-- settings that Load assigns one after the other.
--
-- The loop of splitUTF8 has the length of its value as fuel, which is enough since each turn takes
-- a byte at least; without fuel it would lose text. The loops over the pages have fuel, too:
-- crawl needs one turn more than there are URLs, and the whole job, which may begin with a login,
-- two. The other loops are recursions on a list. A uint64 counter wraps at 2 ^ 64; a client that
-- follows the cursors of a listing has one request more than there are rows; times and other Go
-- integers are natural numbers here and do not overflow.
--
-- Not modelled: the PostgreSQL repositories, which have the same statements as those of SQLite; the
-- finding of images, videos and the URLs of chapters in a page and the cleaning of its HTML, which walk
-- a parser's tree; the driving of Chromium, the installation of FlareSolverr, the language model's
-- client and the opening of databases, which are calls of other systems; and the wiring of the parts.
pub mod Prelude
pub mod Queue
pub mod Challenge
pub mod Browser
pub mod Events
pub mod Json
pub mod Chunker
pub mod Worker
pub mod Extract
pub mod Api
pub mod Library
pub mod Import
pub mod Routes
pub mod Storage
pub mod Config
