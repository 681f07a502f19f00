-- ===== src/Lib.antt =====
-- Verification library of Mutation Judge, a mutation tester for Go.
--
-- The program discovers mutations of Go code, runs the tests against each, and reports the verdicts.
-- The engine of internal/analysis hands the mutations to workers through a window that keeps their
-- order, writes every result to a spool, and assembles the report; a second command compares two
-- reports. Each module here is named for a package of the repository:
--
--   Base: numbers, texts, lists, sorting and heaps. A Go string is the list of its byte values; the Boolean
--     tests, `sort`, `split`, `join` and `itoa` stand for the operators and for the functions of
--     the packages sort, strings and strconv that the code calls.
--   Model: the structs of internal/model/model.go. A struct's fields keep their names in lower case;
--     a float64 is its bit pattern.
--   Compare: internal/compare/compare.go (Actionable, Compare, sortByLocation), and Compare/Shift:
--     internal/compare/shift.go (diffOldText, shiftFingerprint, findLikelyShifts). Buckets, Order,
--     Partition and Correlate hold the proofs. Go maps are functions or association lists.
--   Spool: internal/resultspool/spool.go (Append with its spill, ForEach, Close). The operating
--     system is a parameter (`Env`): each write is complete or stops after some bytes. encoding/json is
--     a parameter too (`Codec`), of which the theorems assume the documented stream behaviour:
--     the text of a value and a newline decode to what that text is read back as, which need not be the
--     value itself; newlines are skipped, and the end is io.EOF.
--   Analysis.Window: orderedWindow of internal/analysis/ordered_window.go, as a step relation with
--     one step for each statement that another goroutine can see. Reachability (`Reach`, `Run`) covers
--     every interleaving of the coordinator, the workers and an interrupt. The callbacks are parameters
--     that depend on the index and the mutation, not on the context: a run that the context cuts short
--     is taken to come to what its callback gives. Count, Facts, Slots, Invariant, Order, Live,
--     Progress and Success hold the proofs.
--   GitDiff: internal/gitdiff/gitdiff.go. Scan holds the lines, blanks, decimals and the match of hunkRE;
--     the module itself Parse with decodePath and checkFile, as one function per kind of line; Changes
--     ChangedLinesContext. What the git commands print and strconv.Unquote are parameters. Patch is
--     the text of a diff as git writes it; Header, Section, Marks, RoundTrip, Truncated and
--     Incremental hold the proofs.
--   Frontend: overlapsChanged of internal/frontend/frontend.go, which selects mutations by the map that
--     GitDiff gives.
--   Model.Validate: ValidateReport of internal/model/validate.go, and Model.Valid what an accepted report
--     satisfies. Arithmetic on float64 is a parameter (`Floats`), of which one theorem assumes that a
--     percentage and zero pass the tolerance against themselves. A time is counted from the zero time.
--   MutantSpool: Reader, Next and Close of internal/mutantspool/spool.go; its Append, spill and Close of
--     the spool are the statements of internal/resultspool/spool.go, so Spool stands for both.
--   Analysis.Score: scoreCounter of internal/analysis/stream.go and summarize of
--     internal/analysis/analysis.go; Agree and Accepted hold the proofs.
--   Runner: classifyEvents and failedPkgTests of internal/runner/runner.go. Whether the regular
--     expression packageFailSummaryRE matches an output is a parameter; Packages, Twin and Failed hold the
--     proofs. Runner.Stream: jsonEventStream of internal/runner/stream.go, which reads the same events
--     from the output as it comes; json.Unmarshal and timeoutPanicRE are parameters. Chunks, Names,
--     Observed, Lines, Whole and Limits hold the proofs.
--   Cache: Get, PutContext, Cacheable and validKey of internal/cache/cache.go. The directory is a map from
--     keys to contents; the file system and encoding/json are parameters. Reuse holds the proofs.
--   Config: internal/config/config.go. The module itself holds Config, Default and Validate; Quotes the
--     scans for comments, separators, quotes and lists; Load the reading of a file; Find FindAndLoad and
--     AsMap. strconv.Unquote, ParseFloat, time.ParseDuration and the comparisons of a score are parameters
--     (`Std`). Valid, Trimmed, Quoted, Pair, Listed, Written, Block and Nearest hold the proofs.
--   Coverage: internal/coverage/coverage.go, with Fields for the lines of a profile, and
--     internal/coverage/pertest.go in Coverage.PerTest. The map of the files is a list of its entries, in the
--     order in which buildSuffixIndex ranges over it; path/filepath is a parameter. Resolve, Profile,
--     Order, Bounds and PerTest.Select hold the proofs.
--   History: internal/history/history.go. What the file system does during an append is an argument;
--     encoding/json and the verbs of fmt are parameters. Reading holds the proofs.
--   Frontend.Selection: internal/frontend/selection.go, on the binary heap of container/heap in Base.Heap.
--     Keep, Ordering and First hold the proofs.
--   Frontend.Diff: newLineIndex, diffLines, diffPath and unifiedDiff of internal/frontend/frontend.go.
--     Index, Applies, Patch and Mutated lead to the patch that fits its source, and Quoted to the names
--     that git reads.
--
-- Bounds. The loop of orderedWindow that persists a completed prefix runs on fuel `window`: each round
-- empties one of the `window` slots. The loop of overlapsChanged runs on the number of lines of its
-- span. A line number of a diff wraps around at 2^64, and Atoi refuses 2^63 and above; elsewhere the
-- counters of the code count records that exist, and stay far below the range of an int.
--
-- Not modelled: what calls go/ast, go/types, git, the go command or the file system for its effect
-- (internal/workspace, internal/proc, the traversal of internal/frontend), the output formats
-- (internal/report, internal/compare/render.go) and the command line (cmd).
pub mod Analysis
pub mod Base
pub mod Compare
pub mod Model
pub mod Spool
pub mod GitDiff
pub mod Frontend
pub mod MutantSpool
pub mod Runner
pub mod Cache
pub mod Config
pub mod Coverage
pub mod History
