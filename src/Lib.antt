-- ===== src/Lib.antt =====
-- CortaSentry, a network inventory: scope, jobs, discovery, assets, findings, imports, the API.
--
-- The program probes a network within a declared scope and keeps an inventory of what it sees. A
-- request names targets and ports; the scope engine (internal/scope/engine.go) validates it, and
-- decides again before each connection. Requests become jobs in a table of an SQLite store
-- (internal/storage/sqlite/store.go) that workers of the job manager (internal/jobs/manager.go) claim
-- under a lease. The handler of a job (cmd/cortasentry/main.go) validates it again and runs the
-- scanner (internal/discovery/scanner.go), whose probes connect through a dialer that asks the scope
-- engine. What a probe observes is attached to an asset, which the resolver
-- (internal/assets/resolver.go) finds by identifiers and addresses in the store, and is compared with
-- what was seen before. Findings and candidates are derived from it. Imported files
-- (internal/importer) take the same way. The HTTP API (internal/api/api.go) stands before all this.
--
-- Files and code:
--   Prelude        Boolean tests, results, lists measured by native numbers, removal of repeats and
--                  sorting, text as bytes.
--   Scope/Address  net/netip addresses and prefixes as the engine uses them; parsePrefix,
--                  NormalizeAddr, isPrivateOrLoopback. Reading and printing of addresses is a record
--                  of functions (NetText) with the one law that the engine relies on.
--   Scope/Engine   the Engine, New, decide, finalize. Decide, Validate, Preview: what they mean.
--   Scope/Job      ValidateJob and PreviewJob.
--   Scope/Expand   ExpandPrefix; Expand/Hosts: which hosts it lists.
--   Jobs/Stamp     times as RFC 3339 texts, and their comparison in SQL.
--   Jobs/Model     jobs and the table of them (internal/domain/models.go and the store).
--   Jobs/Table     the operations on the jobs table: CreateJobBounded, ClaimJob, RenewJob,
--                  UpdateJobProgress, CancelJob, FinishJob, JobCancelled, JobState. Rows, Claim,
--                  Create, Lease, Orphan, Cancel and Invariant are about it.
--   Jobs/Manager   EnqueueWithKey, a tick of the heartbeat and of the loop, the end of execute, Wait.
--   Assets/Inventory  assets, identifiers, addresses and links: CreateAsset, AttachObservation,
--                  AddIdentifier, FindAssetsByIdentifier, FindContinuityAssets.
--   Assets/Resolve Resolve. Matches, Conflict, Stable, Repeat, Persist, Later and
--                  Standing are about it.
--   Assets/Merge   MergeAssets, on assets, candidates, changes and findings; Merge/Moves and
--                  Merge/Names are about it.
--   Auth/Tables    internal/auth/auth.go: Bootstrap, VerifyTokenID, Login, Authenticate, CheckCSRF,
--                  RefreshCSRF, Logout, RevokeSession, Rotate, BrowserOriginAllowed. Requests,
--                  Sessions, Refresh and Rotation are about it. The hash is a parameter.
--   Findings/Rules internal/findings/advisory.go and rules.go: Correlate and Evaluate; Grade is about
--                  them. Findings/Table: UpsertFinding and UpdateFindingDisposition of the store;
--                  Upsert is about the former.
--   Service        internal/application/service.go: SubmitScan, PreviewScan, CancelJob, MergeAssets,
--                  SetFindingDisposition and their audit; Service/Scans is about the first two.
--   Config         internal/config/config.go: Validate; Config/Safe is about it.
--   Service/Handler  cmd/cortasentry/main.go: the handler of jobs and parsePorts; Handler/Aimed is
--                  about the connections that it makes.
--   Fingerprint/Match  internal/fingerprint/rules.go: match, matchAny, evaluateRule, on the rules and
--                  evidence of Fingerprint/Model; Fingerprint/Score is about the score.
--                  Fingerprint/Rank: Evaluate, IsAmbiguous, TestCompiled.
--   Records        internal/storage/sqlite/store.go and internal/domain/models.go. Observations:
--                  AddObservation, ListObservations. Changes: AddChange, ListChanges,
--                  AcknowledgeChange; Occurrences is about the former. Policy: ScopeDecision, Audit,
--                  ListAudit; Trail is about the engine with that auditor. Pages is about reads.
--   Discovery/Sanitize  internal/observation/sanitize.go: Printable, SanitizeHeaders.
--   Discovery/Dialer   internal/discovery/dialer.go: Dial.
--   Discovery/Collect  internal/collectors, its tcp, tls, http and banner: Collect.
--   Discovery/Probe    internal/discovery/scanner.go: what a worker collects for one address and port.
--   Discovery/Store    the interface ScanStore, with the resolver. Discovery/Sqlite: the store of
--                      internal/storage/sqlite/store.go as an instance of it.
--   Discovery/Changes  detectEndpointChanges, detectHTTPChange.
--   Discovery/Result   ScanResult, and what ingestBatch derives from a batch.
--   Discovery/Ingest   ingestBatch and IngestObservations.
--   Discovery/Run      RunWithProgress; Run/Safety, Run/Complete and Run/Archive are
--                      about it.
--   Importer       internal/importer: Nmap, JSONL, sanitizeMap, and PipelineSink (Pipeline).
--                  Sanitized, Accepted and DryRun are about them.
--   Api/Guard      internal/api/api.go: routes, hostGuard, protect, with the route of
--                  internal/api/web.go. Api/Login: login, session, logout
--                  and the limiter of logins. Api/Scans: scan, cancel, merge, patchFinding.
--                  Api/Pages: page and observations.
--   Tests          concrete inputs, with runs of the definitions.
--
-- How state is modelled: a table is a list of rows in insertion order, an operation of the store is
-- one step on it (each is one SQL statement or one transaction), and workers interleave as sequences
-- of such steps. The clock and new identifiers are arguments; where a new identifier must be unused,
-- that is a hypothesis. Identifiers of rows, owners and values that are only compared are numbers,
-- and 0 is the empty text. Times are nanoseconds. Scores of findings are hundredths and those of
-- fingerprints millionths, where the code has floating-point numbers. The auditor of the engine is
-- a function on a state, and it may fail.
--
-- Bounds and fuel: the loop of ExpandPrefix runs on fuel, one round more than the prefix has
-- addresses, since each round moves to the next address. All other loops are structural. Ports are
-- natural numbers: an int below 1 is represented by 0, which the code treats alike. Text is ASCII,
-- but for what Printable reads, whose texts are lists of code points.
--
-- What the code calls and is not in the repository is a parameter: the network and its limiters
-- (Network), what peers answer (Peers), hashes, regular expressions and the size of JSON (Codecs,
-- Library, Encoders), rate limiters (Limiters), and the decoders of imported files, whose results are
-- arguments. The scanner takes its store as an interface (ScanStore), of which the modelled store is
-- one instance. The workers of a run take turns, and the ingestion of a batch is one step of it; the
-- end of the context, the case that a select takes then, and failing reports of progress are
-- parameters.
-- Maps that the code walks in any order are lists in any order.
--
-- Not modelled: failures of the database itself within an operation of several statements, the JSON of
-- audit details, goroutines and tickers, the MCP front end, the loading of configuration and rules,
-- passive collectors, and the columns of assets that neither identity resolution nor classification
-- writes.
pub mod Prelude
pub mod Scope
pub mod Jobs
pub mod Assets
pub mod Auth
pub mod Findings
pub mod Service
pub mod Config
pub mod Fingerprint
pub mod Api
pub mod Discovery
pub mod Importer
pub mod Records
pub mod Tests
