-- ===== src/Lib.antt =====
-- pgxporter: a Prometheus exporter for PostgreSQL.
--
-- The program (exporter/exporter.go) runs a set of collectors on every scrape. A collector
-- (exporter/collectors) asks each of its clients (exporter/db) for the rows of one statistics view, in
-- one goroutine for each client, writes the columns into Prometheus vecs that it keeps, and sends the
-- vecs to the channel of the scrape. The registry says which collectors there are and which of them
-- run; further collectors come from declarative specs. The exporter counts what each collector sends and
-- adds metrics of its own.
--
--   Prelude      shared types and lemmas: Boolean tests, Option, lists, 64-bit integers, decimals.
--                Prelude/Bytes, Prelude/Url, Prelude/Uri and Prelude/Scan have texts as bytes, QueryEscape
--                and the parser of net/url, and the verb %d of fmt.Sscanf, from their documentation.
--   Prometheus   the client library and float64, which are not in the repository: a record of
--                operations and a record of the documented laws that the code relies on.
--                Prometheus/Model is an instance over the integers, for the examples.
--   Vec          exporter/collectors/vec.go: counterDelta and Observe. Vec/Keys: its map's keys;
--                Vec/Tracking: that the map and the exported counters agree; Vec/Absolute: Observe.
--   Emit         what all emit methods do: the closures, a struct of vecs as a map from fields, and a
--                run of calls. Emit/Shapes: what calls mean; Emit/Exports: a run implements a
--                sequence of writes; Emit/Declared: the vecs of a constructor; Emit/Labelled:
--                the database in the labels; Emit/Schedule: the goroutines' calls in any interleaving.
--   Collectors   the interface of a collector and one module for each of the 27 of them
--                (New…Collector, Describe, collectInto, emit, scrape, with the row of
--                exporter/db/model/model.go); Collectors/Names: namespaces and factories.
--   Registry     registry.go: Registry/Table is collectorRegistry, Registry/Resolution is about
--                ResolveCollectors.
--   Scrape       the Scrape method that the collectors share. Scrape/Complete: one scrape;
--                Scrape/Order: schedules; Scrape/History: the life of a collector.
--   Db           exporter/db/db.go: Db/Version is about AtLeast, Db/Connect about the loop of New.
--                Db/Queries models the statements of exporter/db/pg_*.go whose columns depend on
--                the version, Db/Statements and its children the other statements, the Select
--                methods and the db tags of exporter/db/model/model.go. Db/Documented and its
--                children have, for each view, the columns that PostgreSQL documents for each
--                version; Db/Columns and Db/Select/Exists compare the two, Db/Select/Scannable
--                compares columns and tags, Db/Select/Gates is about the versions that a method
--                refuses, Db/Select/Silent about the collectors on such servers, and Db/Honest about
--                probes that fail.
--                Db/Dsn models dsn.go: Db/Dsn/Words, Options, Arguments, Settings and OptionsPiece
--                are about the parameter options, Db/Dsn/Params about the others, Db/Dsn/Authority
--                about what stands before the query, Db/Dsn/ReadBack about the whole URI.
--                Db/Auth models auth.go, auth/awsrds/awsrds.go and the configuration of the pool
--                in New.
--   Spec         spec.go: NewSpecCollector, Describe and collectInto; Spec/Rows models scrape and the
--                coercions. Spec/Slots and Spec/Declared fill the interface of a collector,
--                Spec/Columns is about the checks, Spec/Emission about the calls of scrape. Spec/Yaml
--                models spec_yaml.go: Spec/Encodings is about min_pg_version, Spec/Accepted about
--                toInternal, Spec/Loading about LoadSpecsFromFile.
--   Exporter     exporter.go: Exporter/Construction models New, Exporter/Metrics is about Collect,
--                Exporter/Errors about the error counters, Exporter/Counting models countingChan, its
--                forwarder and the receiver, Exporter/Counting/Ends is about its end,
--                Exporter/Extension about ExtendFromYAMLFile, Exporter/Naming about
--                WithCustomCollectors, Exporter/Shutdown about the mutex of Collect and Shutdown.
--   Cmd          cmd/main.go: Cmd/Options is about parseDSN, Cmd/Runs about main.
--   Tests        concrete inputs for the theorems.
--
-- State is passed explicitly: a collector's struct is a list of vecs under the names of its fields,
-- and a panic of the client library is `none`. What a Select method returns is an input, the rows or an
-- error. Goroutines are lists of calls, and a schedule is an interleaving of them; a call is one step,
-- since the vecs and counterDelta lock. int64 columns are integers, timestamps are microseconds since
-- 1970, and int of Go is 64 bits wide with its wrap-around in AtLeast. float64 is a parameter; `Exact`
-- names the values on which its arithmetic is exact, such as the integers up to 2 ^ 53. The loop of New
-- is recursion on fuel, since MaxConnectionRetries may be -1; the theorems about it say which fuel is
-- enough.
--
-- A query is the list of its columns and its view; what pgx and scany make of it is a parameter. In a
-- connection URI a text is a list of bytes, Prelude/Uri reads those whose parts have only characters
-- that may stand in them, and the text of fmt for %.0fs is a parameter. The n-th
-- connection of a pool is a function of n, since an AuthProvider may answer each call anew. A run of the
-- command is the list of what it does; the signal, or the error of the listener, is an argument.
--
-- Not modelled: the flags and the HTTP pages of the command, logging (exporter/logging), what
-- yaml.Unmarshal makes of a file, the deadline of a scrape beyond the error that a Select returns for
-- it, and the helpers of the tests (testutil, benchmarks). The model of a CounterVec or a GaugeVec has
-- no clash of label names, which the client library reports when a vec is registered. Texts are valid
-- Unicode: a bytea value that is not, with which WithLabelValues panics, has no model.
pub mod Prelude
pub mod Prometheus
pub mod Vec
pub mod Emit
pub mod Collectors
pub mod Registry
pub mod Scrape
pub mod Db
pub mod Spec
pub mod Exporter
pub mod Cmd
pub mod Tests
