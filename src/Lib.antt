-- ===== src/Lib.antt =====
-- hydrus-go: a daemon (cmd/hydrusd) that serves a Hydrus database over HTTP, and a desktop client
-- (cmd/hydrus-desktop) for it. Every theorem is about the definitions that stand here, which are
-- translated from the Go sources by hand.
--
-- How the parts interact. internal/app builds the daemon: the database bundle (internal/db/hydrusdb),
-- the managed files (internal/storage/clientfiles), the sync with the public tag repository
-- (internal/ptrsync) and the router (internal/api/httpapi), whose handlers ask the access control
-- before they call any of them. Tags that come in over HTTP or from the repository are cleaned by
-- internal/core/tags. The desktop client (internal/desktop/fyneapp) holds a queue of files that a
-- goroutine uploads to the daemon.
--
-- Files, and how they correspond to the code:
-- - Base: what all models share. Base.Strings is Go's strings and unicode packages on lists of code
--   points, Base.Paths is path/filepath on slash-separated paths, Base.Maps is a map with string keys,
--   Base.Int is int64 as far as it is compared and printed, Base.Results is a pair (value, error).
-- - Access (internal/api/httpapi/access.go): the record AccessControl is the struct of that name
--   without its mutex, since every method that changes it holds the mutex to its end; new_session,
--   authenticate and authorize return the answer and the new state. A method that reads the clock or
--   the random source takes what it read as an argument, once for each reading. Access.Events runs
--   sequences of calls, and Access.Renewal the uses of one session key.
-- - Tags (internal/core/tags/tags.go): clean, split, combine, strip_text_of_gumpf and the checks; the
--   regular expressions are functions on the text.
-- - ImportQueue (internal/desktop/fyneapp/import_queue.go, import_queue_widget.go and the queue
--   functions of app.go): Queue holds what queueMu guards, ImportQueue.Processor has a function for each
--   locked section, and ImportQueue.System is a step function on the queue and the state of the
--   goroutine, so that every interleaving of the user with the goroutine is a list of events.
-- - ClientFiles (internal/storage/clientfiles/layout.go, place.go): layouts, hash prefixes and the paths that
--   they resolve to. ClientFiles.Placing puts a file there: a file system gives every path what stands there,
--   and World says which calls fail and what other processes do before the link; links are followed, and
--   none dangles.
-- - Gallery (internal/desktop/fyneapp/app.go, searchpane.go): the pages of files that the desktop client has
--   put together, and the steps from file to file in its viewer.
-- - PtrSync (internal/db/hydrusdb/ptrsync.go, internal/core/ptrsync/types.go, the transaction of tx.go and
--   parts of internal/ptrsync/manager.go): Store is the part of the database that the sync reads and
--   writes, one field for a table. PtrSync.Tables has the SQL statements on lists of rows. PtrSync.Lease has
--   one function for each statement on main.ptr_sync_state, PtrSync.Services finds and inserts the rows of
--   main.services, PtrSync.Report computes the status, PtrSync.Bundle composes them into the calls of the
--   write bundle, each an immediate transaction that an error rolls back, and PtrSync.Calls runs
--   sequences of calls: the write gate lets in one transaction at a time, so a sequence is an
--   interleaving of any number of callers. PtrSync.Mappings, PtrSync.Metadata and PtrSync.Pending are the
--   statements that a content update, a slice of metadata and the commit of staged mappings run.
--   PtrSync.Processing applies a content update under the lease, with the processed table and the counters.
--   PtrSync.Pending.Refinement reads these statements as changes of one abstract store, in which a mapping
--   only stands somewhere. PtrSync.Retry is what a run does about a busy server, and PtrSync.Runs how
--   runStartedSync ends, its deferred function included. PtrSync.Manager is the Manager of
--   internal/ptrsync/manager.go with its database: beginSync, Trigger, Status, the wake-ups and the
--   end of the goroutine of a run, each what happens while runMu is held; PtrSync.Manager.Steps interleaves
--   them with the calls of everybody else.
-- - Ids (internal/db/hydrusdb/tag_ids.go, metadata_create_ids.go): the tables of tags and hashes of the
--   master database. Ids.Table is a table with an integer primary key and a unique key, Ids.Tags the ids
--   of tags with the tag schema, Ids.Hashes the ids of hashes. The ids that SQLite gives to new rows are a
--   parameter, of which the code relies on one law: no row of the table has the id.
-- - Wire (internal/ptrsync/wire.go): the values that the repository sends and receives. Value is what
--   encoding/json decodes into an any, with the Hydrus serialisable objects read from it;
--   Wire.Serialisable and its Dictionary decode them, Wire.Updates the definition and content updates,
--   Wire.Responses the responses, and Wire.Requests writes the request bodies.
-- - Catalog (internal/core/services/catalog.go, provider.go): the order of the discovery catalog as a stable
--   insertion sort, which has the result of sort.SliceStable, the lookups and the grouping.
-- Theorems stand in child modules that are named for what they prove; Examples and TableExamples run the
-- theorems on concrete inputs.
--
-- Bounds and fuel. The loops are structural recursion on the lists that the code walks. Base.Int prints a
-- number by at most 20 digits, which is enough for 64 bits. Code points, ids, sizes and counts are natural
-- numbers; an int64 that can be negative is a signed number. The one product that can wrap around on int64,
-- the bytes per second of a status, is reduced modulo 2 ^ 64; the other numbers are moved and compared, not
-- computed with, or grow by one for each row of a table.
--
-- Assumptions. Unicode's case table is data of the Go release: the record Casing has the laws that are
-- used of it, and Base.Strings has a table that satisfies them. strings.EqualFold and the row ids that
-- SQLite gives are arguments without a law. The tables exist and have the columns that the code creates; a
-- statement on them fails only as the code expects, and the errors of the driver are not modelled. The
-- repository's own tables are those of the one daemon service, and its key is stored once. zlib, the text
-- form of JSON and floating point numbers are fields of the record Codec of Wire, whose laws are hypotheses
-- of the theorems that use them.
--
-- Not modelled: the HTTP handlers with their JSON, the other tables of the database bundle, the HTTP client of the repository, the downloader,
-- file import and thumbnails, configuration, bootstrap and logging, and the widgets of the desktop
-- client other than the queue and the pages of the gallery. They are input and output, calls of third-party packages, or are
-- left for later; PROJECT.json lists them one by one.
mod Base
pub mod Access
pub mod Tags
pub mod ImportQueue
pub mod ClientFiles
pub mod PtrSync
pub mod Wire
pub mod Catalog
pub mod Ids
pub mod Gallery
