-- ===== src/Lib.antt =====
-- The connectivity exporter: it reads, once a second, the maps that an eBPF program fills with the
-- TLS connections it sees, judges each second of each server name, and exports Prometheus counters.
--
-- The program is in connectivity-exporter/. Each tick `TrackConnections` of packet/packet.go reads
-- the kernel's connections and one slot of a ring of statistics maps, groups them by `ConnKey`,
-- judges each key with `accountForConnections` and sends an `Inc` on a channel, which `Apply` of
-- metrics/metrics.go adds to counters. promextra/promextra.go exports a histogram of execution
-- times that the kernel computes.
--
-- Which file models what:
-- - Prelude and its children: the libraries' names, Go's strings as lists of bytes (GoString), maps
--   as association lists (GoMap), float64 on whole numbers with rounding to 53 bits, half to even
--   (Float64), and outcomes that are a value, an error or a panic
--   (Results).
-- - Metrics.Inc, Metrics.CounterVec, Metrics.Apply: metrics/types.go and metrics/metrics.go. The
--   vectors of the Prometheus client are the record `CounterVec`, with its documented behaviour: it
--   takes the labels that are valid UTF-8, a test that is a parameter, and panics on others.
-- - Metrics.Loop: the loop of `Apply` in metrics/metrics.go, over the sequence of what it receives.
-- - Promextra: promextra/promextra.go. A bound is a float64 that need not be whole: the record
--   `Bounds` is what the program does with it.
-- - Packet.Connection and Packet.Bytes: `connState`, `tupleData`, `tupleDataFromC` of
--   packet/bpf.go, `ConnKey` and `isConnectionOld` of packet/packet.go.
-- - Packet.Ebpf: the maps of the eBPF library that the program calls, as the records `BpfMap` and
--   `BpfArray` of documented behaviour, and the kernel's maps as the state `Kernel`.
-- - Packet.Account: `State`, `accountForConnections` and `deleteExpiredSNIs` of packet/packet.go.
-- - Packet.Tracker: one `case <-ticks` of `TrackConnections`, with `getOldestStatsAndCleanup`. The
--   local variables of the goroutine are `Locals`; `tick` takes them and the kernel's maps and
--   returns them with the increments that it sends, an error that is logged, or a panic. The
--   order in which the runtime ranges over a map and the times that it reads are `Env`.
-- - Packet.Ring: the slots of the statistics as a delay line of twenty maps, and runs of ticks with
--   the kernel's writes between them (`Rounds`, `Writes`).
--   Packet.Ring.Overlap has a tick that reports with the kernel's writes between its steps; each
--   iteration is one step there.
-- - Packet.Net: what the program uses of Go's package net, as of the Go 1.18.1 of its Dockerfile:
--   `ParseIP`, `ParseCIDR` and `To4` on texts as bytes.
-- - Packet.Trie: `struct cidr_key`, and the trie of prefixes of the eBPF library, in which an address
--   finds the longest that it has.
-- - Packet.Cidr: `parseIPSizeCIDR` and `initCIDRMap` of packet/bpf.go, on a little-endian machine.
-- - Packet.Slots, Packet.Ports: `initStatsMap`, `initTestHookMap`, `initPortMap` of packet/bpf.go and
--   `AsSet` of packet/packet.go.
-- - Packet.Sockets, Packet.Setup: the sockets and collections that `newEBPFConfig`,
--   `NewNetworkDataSource` and `Close` open and close, and `htons`. The answers of the kernel and of the eBPF
--   library are `Answers`, `Library` and `Steps`.
-- - Packet.Access: `toBytes`, `getConnection` and `setConnection` of packet/bpf.go, with the runes
--   that Go's `range` yields over a string.
-- - Packet.Query: `getStats` of packet/bpf.go.
-- - Packet.Histogram: `readSnapshotFromMap` and `verifyConstants` of packet/bpf.go,
--   `readHistogramSnapshot` of packet/packet.go, ExecutionBucketCount of constants/const.go.
-- - Packet.Flags: `flagsString` of packet/bpf.go.
-- - Goroutines: main.go with the loops of `TrackConnections`, `TrackExecutionTime` and `Apply`, as
--   steps on unbuffered channels, `ListenAndServe` of metrics/metrics.go, and the shutdown. What a
--   tick sends is any list there.
-- - Goroutines.WaitGroup: the counter of the wait group, over the steps of Goroutines.
-- - Metrics.Execution: the histogram `execution` of metrics/types.go. The client's exponential
--   buckets are the record `Exponential`, with their documented behaviour.
-- - Goroutines.Ends, Goroutines.Made: the steps that a shutdown has left, and what the loops make and
--   send.
-- - Promextra.Scrapes: `ApplySnapshot` and `getCurrentSnapshot` as single accesses to memory under
--   the mutex, in any interleaving with any number of scrapes.
-- - Exporter.StartUp: `main` up to its goroutines, with its fatal ends, and its deferred `Close`.
-- - Exporter.Conservation: runs of ticks with the kernel's writes between them and with what `Apply`
--   makes of the increments. A tick and the writes do not overlap there, as in the runs of
--   Packet.Ring.
-- - Exporter: what `Apply` makes of the increments of a tick and of the kernel's histograms, the
--   parts composed as in main.go; `NewNetworkDataSource` with the functions that it calls.
-- - Tests: concrete instances of the parameters, and the theorems applied to them.
--
-- Bounds: uint64 arithmetic wraps (`% 2 ^ 64`); float64 counts are exact below 2 ^ 53, which the
-- theorems on counts assume of the sums that they speak of. The only fuel is that of rounding, 1,024
-- halvings, which is enough for any number below 2 ^ 1077; each loop of the source ranges over a
-- finite list, and the loops over indices count down from the length of their array.
--
-- Not modelled: logging; the eBPF program in C; the parsing of flags and signals by the Go libraries; what
-- the HTTP server answers; the text types of packet/types.go, which only tests use.
pub mod Prelude
pub mod Promextra
pub mod Metrics
pub mod Packet
mod Tests
pub mod Goroutines
pub mod Exporter
