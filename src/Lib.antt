-- ===== src/Lib.antt =====
-- Optimizer Canary Service: a service that replays the statements of a TiDB cluster on another
-- version and reports the plans that differ, with a prepare mode that seeds a TPC-C workload.
--
-- Base.antt and Base/ hold what the files share: lists measured by native numbers, sorting, the
-- outcome of a Go call (a value, an error or a panic) and calls with an outside world. Text.antt and
-- Text/ model Go strings as lists of bytes, with the functions of package strings and the decimal
-- numerals of strconv that the service calls. Letters have case in ASCII only: ToLower and EqualFold
-- leave the bytes from 128 up as they are.
--
-- Compare/ is the package diagnosis/compare:
-- * Compare/Plan/ is parsePlan and comparePlans of diagnosis/compare/compare.go. Json.antt prints a
--   node (PlanNode.String), Line.antt reads the cells of a row, Parse.antt has the two loops of
--   parsePlan (scan_lines, build_rows) and Equal.antt the comparison. The stack of the Go code holds
--   the path of last children from the root, so that the model keeps its length alone and appends a
--   node below the last child at a depth (Tree.antt). The collections of readers hold the nodes' own
--   fields, since their children are never read there. Depths are integers, as in the source.
-- * Compare/Binding/ is diagnosis/compare/compare_binding.go: Words.antt has one round of the scanner,
--   Select.antt its loop over the bytes of the statement (a number counts the bytes that the last
--   round still passes over, so that the recursion is structural), Place.antt puts the hint in.
-- * Compare/Summary/ is Compare and aggregateSqlInfos of diagnosis/compare/compare.go: Infos.antt the
--   rows and their aggregation (execution counts and times wrap as uint64), Run.antt the loop over a
--   CompareRepository, a record of operations on a state of the database. The context is the
--   operation ctx_err. slices.SortFunc is an insertion sort; Go leaves the order of ties open.
-- * Compare/Report/ is renderComparison with its helpers: Time, Cell, Fence, Anchor and Columns have
--   one helper each, Render.antt the report. The loop of writeCodeBlock runs on fuel, one more than
--   the length of the text, since a fence that the text contains is no longer than the text.
-- * Compare/Samples/ is diagnosis/compare/compare_repository.go: normalizeExplainSQL, byte by byte,
--   getNewPlanDigest of diagnosis/compare/repository.go over the rows of its query (Digest.antt), and
--   convertToLegalSQL with the scanner (Scanner.antt) and the decoding of the prepared statement's
--   arguments (Arguments.antt). strconv.Unquote and strconv.ParseFloat are parameters.
-- * Compare/Sql/ is SQLRepository of diagnosis/compare/repository.go: Rows.antt reads rows of nullable
--   strings, Explain.antt explains and looks a digest up on a connection of a pool, which is a
--   parameter, and Repository.antt makes of them the CompareRepository that Compare is given. Timeouts
--   and the log are left out.
--
-- Diagnosis/ is the package diagnosis:
-- * Validator.antt is Validator.Validate of diagnosis/validator.go over a Repository that is a
--   parameter, with the status code of diagnosis/handler.go. A reason is kept as what it is made of.
-- * Connection.antt is ConnectionManager of diagnosis/connection.go with its handler. A database
--   handle is a number; the manager's record also notes how many handles the process made and which
--   are open. What opening and pinging answer is a parameter of each call. There a call is one step;
--   Concurrent/ lets the calls of many clients interleave, with the lock around the exchange alone.
-- * Sql.antt is Sample and Explain of diagnosis/repository.go over a database that is a parameter:
--   timeouts and the log are left out, and an error is kept as what it wraps.
--
-- Prepare/ is the package prepare: Settings.antt checks the configuration and names operators and
-- pending replicas (prepare/prepare.go, prepare/tpcc_workload.go, prepare/tpcc_tiflash.go),
-- Picker.antt is the weighted picker with the binary search of sort.Search (the length of the range
-- is fuel enough, since each round halves it), Workers.antt the connections of the workers
-- (prepare/tpcc_runner.go), Insert.antt quotes identifiers and inserts rows in batches
-- (prepare/tpcc_schema.go; each batch takes a row at least, so that the number of rows is fuel
-- enough). The answers of a driver depend on the connection and the statement alone.
-- Workload.antt makes the workload texts and reads plans (prepare/tpcc_queries.go,
-- prepare/tpcc_workload.go), Queries.antt lists them, Weights.antt draws their hints and weights (what
-- math/rand draws is a parameter), Bindings.antt validates them by session bindings over a connection
-- that is a parameter (prepare/tpcc_runner.go). Fixture.antt and Ddl.antt hold the rows and tables of
-- prepare/tpcc_schema.go, and Schema.antt runs its statements in their order; a floating-point value of
-- the fixture is written in hundredths. Tiflash.antt waits for the replicas (prepare/tpcc_tiflash.go) on
-- fuel: each round sleeps, and with more fuel than the deadline leaves rounds the wait returns.
-- Prepare/Run/ is the concurrent run of prepareTPCCStatements: System.antt lets any number of workers
-- and the end of the context take their steps in any order, a step for each access to what they share.
-- Statements.antt is prepareTPCCStatements itself: the validation, the picker, the workers, the state
-- in which some run of them ends, and the closing of their connections. Startup.antt is Run, which opens
-- and closes the connection, over stages that are a parameter.
--
-- Advisor/ is the package diagnosis/index_advisor, of recommend_index.go: Samples.antt aggregates and
-- sorts the samples (the order in which Go iterates over its map is a parameter), Statement.antt makes
-- the statements that it sends (with AddOptimizerHint of Compare/Binding) and reads the cost of a plan,
-- Recommend.antt has the queries on a connection, Loop.antt the loop over the samples with the errors
-- that it skips, Report.antt the report, and Align.antt is alignPlanColumns, on texts that are valid
-- UTF-8. Operations on float64, the JSON of an impacted query and the texts of %q and %.4f are
-- parameters.
--
-- Service/ is the HTTP service: the routes of cmd/main.go with the handlers of diagnosis, one request
-- after another over the manager of Diagnosis/Connection.antt. A handler that panics sends no response.
--
-- Not modelled: JSON texts that are not valid UTF-8; the HTTP server and the encoding of its
-- responses, flags and signals, which call libraries; and timeouts and the
-- log.
mod Base
pub mod Text
pub mod Compare
pub mod Diagnosis
pub mod Prepare
pub mod Advisor
pub mod Service
