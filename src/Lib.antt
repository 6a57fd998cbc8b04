-- ===== src/Lib.antt =====
-- Verification library of PhantomCore, the DNS filter: its data plane and the supervision beside
-- it.
--
-- A DNS query enters internal/dnsengine/engine.go (`ProcessDNSQuery`). The handler passes its
-- guards (accepting, rate limit), asks the blocklist, the feed of newly registered domains and the
-- policy engine, lets its detectors look at what is allowed, and forwards the rest upstream, where
-- the answer is filtered and kept for serve-stale. Every part keeps its own state; the handler
-- threads them through one query. The watchdog and the active-passive pair run beside it.
--
-- Which file models what:
-- - Watchdog: internal/watchdog/watchdog.go. `check` is one tick of `run`; the outcomes of the
--   probe and of the recovery callback, panics included, are arguments.
-- - Ha: internal/ha/manager.go, with config.go in Ha/Configuration and keepalived.go in
--   Ha/Keepalived. `tick` is `Tick`, `run` the loop of `Run` over its observations.
-- - Policy: internal/policy. Types, Schedule, Scope, Snapshot, Engine and Loader carry the
--   definitions of the Go files of these names (util.go is in Types); Window, Choice, Lookup,
--   Bloom, Override, Precedence, Flat, Coverage, Hits, Candidates and Accepted prove.
-- - RateLimit, Nod, FastFlux, Cache: ratelimit.go, nod.go, fastflux.go and cache.go of
--   internal/dnsengine, each a record of its state and a function for each method; the children
--   prove. Oldest is the scan for the oldest entry that nod.go and fastflux.go share.
-- - Upstream: upstream_manager.go and case_randomize.go of internal/dnsengine, the failover between
--   resolvers and the random case of outbound names; Schemes builds a manager from its entries.
-- - Nrd: internal/nrd/set.go; Checker and Refresh are checker.go and its proofs.
-- - Distance: `damerauLevenshtein` of internal/threat/detector.go with its three rows; Alignment is
--   the recursive definition that Table compares it with, Slices the loops on a slice, Zero when
--   the distance is positive. Detector: the rest of that file. Labels has the functions on names
--   and brands, Confusables the table of lookalike runes, Patterns the regular expressions as
--   functions, Heuristics `Analyze`; the others prove.
-- - Outbox: the bounded channel with its counter of drops, which the query log and the exporter
--   share. QueryLog: querylog_writer.go. Export: export.go, its queue in Exporter and its line in
--   Syslog; Reading has a reader of that line. Both run on moves (a query's submission, a worker's
--   step, Close) in any interleaving.
-- - Blocklist: internal/blocklist. Parser has parser/hosts.go, parser/domain_parser.go and the
--   registry, Engine engine.go and aggregate.go, Health health.go; Gathered, Stored and Healthy
--   prove. Fetcher is `Fetch` of fetcher/http_client.go with its retries.
-- - Geo: internal/geoip; Listing and Blocked prove. Config: the data plane's part of
--   internal/config/config.go; Overlay reads the environment.
-- - Metrics: internal/metrics/query_metrics.go and buckets.go. Alert: internal/alert/alert.go.
--   Inventory: internal/inventory.
-- - Node: the data plane put together. Startup has `NewDNSEngine` and the live changes of
--   engine.go, and the loops of cmd/dataplane/main.go; Feeding, Ruling and Answers follow a feed, a
--   policy and a filter of answers from where they are loaded to what the client is sent.
-- - Message: the parts of a DNS message that the code reads and writes.
-- - Dns: internal/dnsengine/engine.go. Domain has the functions on names and the SafeSearch table,
--   State the engine and the interfaces that it is wired to, Answering the replies and `logQuery`,
--   Forward `forwardUpstream`, Allowing and Process `ProcessDNSQuery` in stages, one for each of
--   its returns. Clearance is an independent formula for what may be forwarded; Effects, Tally,
--   Precedence, Replies, Denials, Filters and Stale prove.
-- - Base: shared helpers, among them Go's functions on strings over lists of bytes.
-- - Tests: the theorems and the definitions at concrete inputs.
--
-- Conventions: a map is an association list; the order in which Go visits a map is the order of the
-- list, and theorems do not depend on it. Times and durations are numbers of nanoseconds from one
-- clock, so `now.Sub(t) >= d` is read as `t + d <= now`. A method that holds a mutex is one step. A
-- missing pointer is `none`. Go's int is an integer without overflow; a uint32 is cut to its width
-- where the code converts. An operation is a function that returns the new state; the handler's
-- calls to the outside (messages written, upstream, export, query log, metrics, alerts) are a list
-- of effects in the order of the code. Scores are numbers in hundredths.
--
-- A goroutine's receive, the body of its loop, and Close are moves of their own; a send on a closed
-- channel is `none`. Ratios are in hundredths and exact where Go rounds a float64;
-- the share of the queries that a percentile stands for, ceil(total * p) in Go, is a function given to
-- `estimate_percentile`.
-- Runes are the units of a label, as the code's []rune; bytes elsewhere.
--
-- Bounds and fuel: recursion is structural everywhere but in strconv.Itoa (Base/Numerals), whose
-- fuel is one more than the number, and a number has no more digits than that.
--
-- Parameters: what is not in the repository. Policy takes Go's net, time and regexp packages and
-- the Bloom filter as the record Platform, whose one law is that the filter has no false negatives;
-- Dns takes the DNS library's constructors of messages and records, and the components behind
-- interfaces or pointers whose state is not modelled here, as the record Wiring. The detector takes
-- unicode.ToLower, the punycode decoder and the entropy of a label as the record Outside; the
-- scheme parser takes net.SplitHostPort and net.JoinHostPort as Ports. The HTTP client's answers,
-- the GeoIP database, the storage's save, time.ParseDuration, strconv.Atoi, url.Parse, net.Dial and
-- the opening of a transport are functions given to the definitions that call them.
--
-- Not modelled: the text of keepalived.conf, log lines, sockets, HTTP requests, the Shannon entropy
-- in floating point, and wrap-around of 64-bit counters. The storage, the control plane, the fleet,
-- the license, the disk health, the heartbeat, the reports and the control plane's configuration
-- have no model yet.
pub mod Base
pub mod Message
pub mod Oldest
pub mod Watchdog
pub mod Ha
pub mod Policy
pub mod RateLimit
pub mod Nod
pub mod Geo
pub mod Config
pub mod FastFlux
pub mod Cache
pub mod Upstream
pub mod Nrd
pub mod Distance
pub mod Detector
pub mod Outbox
pub mod QueryLog
pub mod Export
pub mod Blocklist
pub mod Metrics
pub mod Inventory
pub mod Alert
pub mod Dns
pub mod Node
pub mod Tests
