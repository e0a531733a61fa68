-- ===== src/Lib.antt =====
-- Verification of the asset API: uploads, the scan, the outboxes and the purge of assets, and of the
-- recording pipeline the wake queue, broadcast ranges, captures, package inventories, playlists and
-- fragments.
--
-- The service stores the assets of a church and its recordings. A client uploads an asset to a staging
-- object and completes the upload, which checks the object and writes a scan request to an outbox; a
-- dispatcher sends the requests to a queue, and a worker deletes the objects of assets that have gone.
-- Audited changes leave an event in another outbox. A client uploads a recording as a
-- capture: it declares objects, uploads and confirms them, and seals the capture into a package. While
-- it uploads, a broadcast range says which segments the public may play, and a recovery clock ends the
-- broadcast when no further segment arrives in all renditions. Three lanes of workers (live, processing
-- and preview) are woken through a table of dispatched events and a queue. Workers scan each uploaded
-- asset for malware, and claim it by an attempt number. A package is its inventory of files with a master
-- playlist and one media playlist per rendition, whose text is checked against the inventory.
--
-- Base            names of the libraries, Boolean tests, lists, texts, association lists and tables
-- Errors          the sentinel errors (internal/assets/types.go) and the result of an operation
-- Wakes           internal/postgres/recording_event.go and internal/recordingqueue/job.go
--   Table         a row of recording_event_wakes and the conditional UPDATE
--   Dispatch      ClaimDispatch, from the admission to the commit
--   Lease         Sent, SendFailed, Begin, Renew, Finish and Sweep
--   Fencing, Keyed, Exclusive, Capacity, LiveFirst  statements in any order, and what they keep
--   Job           Decode and Job.Run; the queue's and the clock's answers are a schedule
-- Broadcast       internal/assets/recording_broadcast_range.go
--   Range         RecordingBroadcastRange and ValidateBroadcastRangeChange
--   Projection    BroadcastProjection
-- Capture         internal/assets/recording_capture.go, recording_recovery.go and
--                 recording_capture_signal.go
--   Model         RecordingCapture and its parts
--   Objects       object paths, validCaptureObject and capturePaths
--   Mutate        captureOwner and mutate;  Declare, Confirm, Seal (with Abort): its callers
--   Recovery      confirmedCaptureEnd, ArmCaptureRecovery, closeExpiredCaptureRecovery and
--                 advanceCaptureRecovery;  Signal: BroadcastSignal
--   Run           the transactions on one capture in any order, and what all of them keep
--   Store         updateCapture of internal/postgres/recording_capture.go, around any callback
--   Receipts, Offline, States, Sealing, Counters, Watermark, Cutoff, Expiry, Lengths, Bounds
--                 proofs, by subject
-- Statuses        the states of an upload, a scan and a processing (internal/assets/types.go)
-- Scans           the scan statements of internal/postgres/store.go and internal/scanqueue/job.go
--   Table         the scan columns of an asset, and one function for each statement
--   Requeue       ClaimPendingScan, ScheduleScanRetry and RequeueFailedScan
--   Steps, Verdicts, Overtaken  statements of several workers in any order, and what they keep
--   Job           ScanJob.RunOnce, with the answers of the blob store, the scanner and the queue as data;
--                 Unclean, Clean, Accounts and Acked: what it releases and acknowledges
-- Audit           internal/auditclient/client.go, with the outbox of audit events
--   Model, Shapes, Checks  the event, its ids and its validation
--   Event         its canonical text and NewEvent;  Client: EnqueueTx
--   Outbox        the rows and the conditional UPDATEs;  Worker: ProcessOnce of the delivery loop
--   Steps, Fenced, Enqueued, Counting, Settled, Rounds, Drained  workers in any order, and what they keep
-- Requests        internal/scanqueue/dispatcher.go and internal/derivativequeue/dispatcher.go
--   Table         the statements over both outboxes (internal/postgres/store.go);  Dispatch: DispatchOnce
--   Delivery      what the queue has got
-- Uploads         CreateUploadSession and completeUpload of internal/assets/service.go, with their statements
--   Policy        internal/assets/policy.go;  Store: CreateUpload, CompleteUpload and FailUpload on one upload
--   Steps         these and the statements of other calls on it, RequeueFailedScan among them
--   Checks        the checks of a staged blob;  Complete: completeUpload and rejectUpload
--   Checked, Requested, Rescans, Requests, Stays, Repeats  proofs, by subject
--   Names         extensionAllowed of internal/assets/media_validation.go, and sanitizeFileName
--   Create        CreateUploadSession and replayUpload on all uploads;  Replays, Created: a creation repeated
-- Lifecycle       internal/lifecycle/worker.go
--   Model, Table  ClaimPurge, CompletePurge, RetryPurge and DeleteExpiredPurge
--   Worker        ProcessOne;  Keys, Kept, Deleting, Purged: what is deleted before an asset counts as purged
-- Packages        ValidateRecordingInventory of internal/assets/recording_package.go
--   Renditions    the renditions and their paths;  Inventory: the check
--   Complete      the check against a declarative description
-- Playlists       internal/assets/recording_playlist.go
--   Floats        the float64 operations that the code uses, and the decimal numbers it parses
--   Text          recordingPlaylistLines and recordingAttributes
--   Media, Master the two playlist validators;  Bitrates: RecordingPlaylistBitrates
--   Package       ValidateRecordingPlaylists, which reads the inventory and then every playlist
--   Uris, Attributes, Segments, Counting, Variants, Expected, Closed  proofs, by subject
-- Fragments       internal/recordingvalidation/fragment_durations.go
--   Boxes, Durations  the box parser and the durations of samples;  Tiling, RoundTrip, Bounds: proofs
-- Each part has a module Tests with runs at concrete inputs.
--
-- State is passed explicitly: a table is a list of rows, and a transaction on a capture takes it and
-- gives the one that it commits. Transactions on one capture are serial, since each locks its row, so
-- any interleaving of clients is a list of steps; dispatchers and workers that lose a claim go on with the
-- ticket that they hold. Times are natural numbers, nanoseconds since Go's zero time, microseconds in the
-- wake table and seconds in a scan. The loop of confirmedCaptureEnd has the 4320 rounds of the source, the
-- parser of boxes its budget of 4096, recordingAttributes a round for each byte of its text, of which
-- an attribute takes several, a decimal number more rounds than it has digits, and every other loop is
-- structural. In a file name a character counts as one byte.
--
-- Parameters: the digest of an operation's input, SHA-256 and the JSON codec of an audit event, and the
-- answers of queues, blob storage, the scanner, the audit service and readiness queries. A decoded frame
-- rate is one of the two that the code tells apart. The float64 operations of the playlists are a record
-- of functions that the validators take.
--
-- Not modelled here: JSON and SQL encodings, live segments, the creation and the reads of captures, the
-- tables of packages, sources, covers, read grants, the mark of a replay on a poison, the download of a
-- scanned blob, image derivatives,
-- personal libraries, the programs that encode and probe media, and the HTTP layer.
pub mod Base
pub mod Errors
pub mod Wakes
pub mod Broadcast
pub mod Capture
pub mod Statuses
pub mod Scans
pub mod Audit
pub mod Fragments
pub mod Packages
pub mod Requests
pub mod Uploads
pub mod Lifecycle
pub mod Playlists
