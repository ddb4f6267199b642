-- ===== src/Lib.antt =====
-- DayZ Behaviour: telemetry from a game server, its delivery, and the analysis that ranks players for review.
--
-- The program has two halves. On the game host the agent (internal/agent) takes batches, keeps each as a
-- file in an outbox and uploads the oldest one until the upstream takes it or refuses it for good. On the
-- receiving host the ingest server (internal/ingest) checks the credential, decodes and validates a batch
-- (pkg/schema) and puts it into a store (internal/storage), whose old files internal/retention deletes;
-- internal/spool imports batches from files into the same store, internal/privacy takes the events of one
-- identity out of it, and internal/replay hands its batches to a sink. The analysis builds observations from
-- the batches (internal/observations), adds the audible cues (internal/cues, internal/audio), estimates
-- features (internal/features) and decides a review tier (internal/ranking). Reviewers read the result over
-- internal/review, and administrators sign in over internal/adminauth.
--
-- Files, each with its children:
--   Prelude         tests, lists, int64 as wrapping integers (Prelude/Int, Prelude/Words), and the texts
--                   with TrimSpace, the sanitised path parts and %020d (Prelude/Text)
--   Disk            the file system and atomicWrite of internal/agent/outbox.go
--   Json, Schema    decoded JSON, and pkg/schema/v1.go
--   Agent/Outbox    internal/agent/outbox.go: the queue, its calls and the scan at start
--   Agent/Uploader  internal/agent/uploader.go: one upload, the rounds of Run and the retry delay
--   Agent/Config    internal/agent/config.go, and Agent/Runtime internal/agent/runtime.go
--   Storage         internal/storage/raw.go
--   Ingest          internal/ingest/server.go: authorised, handleBatch and the counters;
--                   Ingest/AuthMap is cmd/ingestd/authmap.go
--   Retention       internal/retention/raw.go
--   Spool           internal/spool/import.go: files of batches that go to the same store
--   Privacy         internal/privacy/raw.go: what belongs to an identity (Privacy/Belongs), and
--                   the scrub of the raw files
--   Replay          internal/replay/replay.go
--   AdminAuth       internal/adminauth: auth.go with the cookies and handlers (AdminAuth/Session), steam.go
--   Review          internal/review/api.go: the repository in memory, and the routes (Review/Api)
--   Explorer        internal/explorer/explorer.go
--   Observations    internal/observations/builder.go: the events, the outcome and the exposure, the cues, the
--                   independence, the labels and Build
--   Audio, Ledger   internal/audio/model.go and internal/cues/audio.go
--   Floats          float64 as the analysis uses it
--   Features        internal/features: readiness.go, matched.go, stability.go, preexposure.go,
--                   sector.go with sector_extract.go, and validation.go with its screens in Features/Screens
--   Ranking         internal/ranking/policy.go
-- Go names are spelt with underscores: Outbox.DeadLetter is dead_letter, uploadNext is upload_next.
-- Examples modules hold concrete data, and Witness modules apply the theorems to it.
--
-- State. A disk is a function from paths to contents; directories are left out, and a MkdirAll that fails
-- is one of the faults. The methods that take a lock are single steps on the outbox or the store and the
-- disk. An upload is one step too, so that a Put between its Peek and its Remove is not described. The set
-- of known paths is a function, the wake channel with its one token a Boolean. int64 totals wrap; a length
-- or a limit is a natural number. Texts are sequences of characters whose length counts bytes.
--
-- What the code takes from outside is an argument: the faults of the system calls, the name of the
-- temporary file, the clock, the answers of the HTTP client and of the JSON encoder and decoder, the
-- entries of a directory walk, SHA-256, and float64 with its operations, of which nothing is assumed.
-- Roots are clean absolute paths, as the configuration resolves them. Error texts are constructors.
--
-- Loops are recursion on their lists; the Newton iteration of the fit has the source's own bound of 50
-- rounds, and Run is described for any finite number of rounds.
--
-- Where the code walks a list while it changes it, or sorts a slice, the description is an insertion sort by
-- the same order; a map that is only looked up is a list or a function. A JSON body comes decoded, or none
-- where the strict decoder refuses it.
--
-- Not described: the commands, the services, the web pages and the PostgreSQL repositories, which pass
-- arguments to the operating system, to templates and to a database; and the goroutines of the agent's
-- runtime.
pub mod Prelude
pub mod Disk
pub mod Json
pub mod Schema
pub mod Agent
pub mod Floats
pub mod Observations
pub mod Features
pub mod Ranking
pub mod Storage
pub mod Ingest
pub mod Retention
pub mod Spool
pub mod AdminAuth
pub mod Privacy
pub mod Audio
pub mod Replay
pub mod Ledger
pub mod Review
pub mod Explorer
