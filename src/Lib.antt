-- ===== src/Lib.antt =====
-- A verification library for piace, a tool that compares the Puppet catalogs of nodes.
--
-- A run of piace resolves its configuration into targets (internal/config/resolve), takes for each
-- target its facts, a baseline and a candidate catalog (internal/compare), normalizes both catalogs
-- (internal/normalize), and compares them (internal/diff): a full comparison first, then the exclusion of what the
-- configuration excludes, then the redaction of what a report must not show. The evidence about the
-- content of files comes from internal/filecontent. The differences and the diagnostics of each
-- target give its outcome, and the outcomes give the exit code of the run (internal/model and
-- internal/exitcode). The differences of all targets are grouped (internal/aggregate),
-- and for each changed resource the affected nodes can be estimated (internal/impact).
--
-- Which file models what:
--   Base        shared names: tests, lists, order, stable sorting, texts, finite sets
--   Model       internal/model: Value (Value, Number), Value/Equal (reflect.DeepEqual), Catalog,
--               Disclosure (IsSensitiveWrapper, ContainsSensitive), Pcore (ProjectStringifiedRich,
--               escapeRegexpSlashes), Diagnostic, Change, Provenance, Result
--   Exitcode    internal/exitcode/exitcode.go: ForOutcome, Reduce, ReduceAll
--   Outcome     internal/model/outcome.go: OutcomeForDiagnostic, ClassifyOutcome, Finalize;
--               Reasons has buildReasons and Reduce
--   Config      internal/config/resolve/types.go: resolved targets; Config/Schema has the target file
--               (internal/config/target.go), and for internal/config/resolve there are Paths
--               (validateCertname, resolveFilePath), Resolve (mergeScalars, resolveOneTarget), Run
--               (ResolveTargets, Overrides.apply, ValidateComparisonTargets, Command.services),
--               Services (ResolveServices, validateHTTPSEndpoint) and Provenance (Provenance,
--               ValidationError.Error)
--   Puppetdb    internal/puppetdb: types.go, select.go and validate.go (ValidateFactset)
--   Normalize   internal/normalize: Reference (resourceReferencePattern), Wire (extractResources,
--               extractEdges, decodeSensitivity), Values (canonicalizeValue, decodeParameters) and
--               Catalog (Catalog)
--   Snapshot    internal/snapshot/canonical.go: Number (CanonicalNumberString, checkNumericShape) and
--               Canonical (CanonicalJSON)
--   Compare     internal/compare/workflow.go: compareTarget and estimateImpact; Compare/Run has Run
--   FileContent internal/filecontent/evidence.go: parameters, managesContent; Digest has
--               validateDigest, references and ResolveSide; Evidence has ResolveMembershipEvidence
--               and ResolveFileContentEvidence
--   Diff        internal/diff: Fidelity (fidelity.equal), Resources (diffResources,
--               diffParameters, membershipChange), Edges (diffEdges), Fingerprint, Exclusion
--               (applyExclusions), Redact (redactSensitivePair), Publish (publishChanges), and Run
--               (Diff), which composes them
--   Aggregate   internal/aggregate/build.go: the keys and the grouping of Build; Aggregate/Build has
--               restrictProjection, the summaries of file content, and Build itself
--   Impact      internal/impact: Pql (BuildPQL, quotePQLString), Querier (Estimate, parseCertnames)
--               and All (EstimateAll)
--   Examples    test data, runs of the definitions, and the theorems at concrete inputs
--
-- How the code is read. A function by clauses stands for each function of the source, and a loop is
-- a structural recursion, so nothing needs fuel but `decimal`, which is given one round more than
-- its number, and the divisions of a denominator by 2 and by 5, which are given the denominator. A Go
-- map is the list of its entries, read at the first entry of a key; where a loop over a map has an
-- effect on the result beyond its keys, its order is the one of the list. A nil
-- pointer is `none`, an error is a value of `Fallible`, of a sum or of a result type of the module
-- (a configuration problem is the case of its message with the arguments), and a pair of results is a
-- pair. An interface of the source is a function or a record of functions, and a panic is `none`. String
-- comparison is by code points, which agrees with Go's bytes on valid UTF-8.
--
-- Parameters, for code that is not the repository's: `path.Match` (a `Matcher`, and in the resolution
-- a check of its syntax), `path/filepath`, `url.Parse`, `os.Getenv`, `time.ParseDuration` and
-- `time.Duration.String`,
-- `strconv.Quote`, the decoders of encoding/json (`Json`, `FactJson`, and `unmarshal` of a `Client`),
-- the hash of inline content, the compiler's file server (a `Retriever`) and the transport client of an
-- estimate (a `Client`). So are `big.Rat.SetString` and
-- `json.Marshal` of a text (an `Encoder`). The canonical encoding of internal/snapshot with its SHA-256
-- is a parameter of the fingerprints (a `Digester`), and its numbers are one of the normalization
-- (`Numbers`).
-- The integers of a configuration are without bounds, so a result limit is taken to be below the
-- largest Go int, where the limit plus one of a query does not wrap.
--
-- Not modelled: reading and writing files, YAML (internal/config/resolve/load.go and decode.go), HTTP
-- (internal/transport, the adapters of internal/puppetdb, internal/compiler and
-- internal/filecontent/resolver.go), the command line (cmd/piace), rendering (internal/report,
-- internal/assess, internal/inference), since they are input and output; and the envelope and the
-- store of internal/snapshot and internal/capture.
pub mod Base
pub mod Model
pub mod Exitcode
pub mod Outcome
pub mod Config
pub mod FileContent
pub mod Diff
pub mod Aggregate
pub mod Impact
pub mod Normalize
pub mod Puppetdb
pub mod Compare
pub mod Snapshot
pub mod Examples
