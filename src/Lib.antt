-- ===== src/Lib.antt =====
-- vsockd carries connections between the host and its vsock guests. The daemon (cmd/vsockd) reads a
-- configuration, listens on TCP and vsock ports, and forwards each connection: inbound by the TLS server
-- name, outbound through an allowlist for each CID, and log streams into a sink. In the guest, the
-- supervisor (cmd/supervisor) runs processes and ships their output over vsock.
--
-- Go.Strings, Go.Net and Go.Slices model what the code uses of Go: strings as lists of bytes, ToLower on
-- ASCII, TrimSpace with its white space in UTF-8 (Go.Strings.Trim), SplitHostPort, Atoi, and indexing and
-- slicing with a panic where a bound is out of range. Common holds the shared lists, Booleans, signed
-- integers (an int is a ℤ, a uint32 a ℕ) and the results: a value, an error, a panic, or fuel that ran
-- out.
--
-- Allowlist.Defs (internal/allowlist/allowlist.go) has New, parsePattern, match and Allow; Allowlist.Decide
-- and Allowlist.Grammar are their proofs.
--
-- Config.Types, Config.Listeners and Config.Validate (internal/config/config.go) are the configuration, the
-- check of each kind of listener, and Validate with one function for each of its loops. Config.Accepts,
-- Config.Egress and Config.Relays are about what each loop lets through, Config.WellFormed about the whole,
-- and Config.Patterns about validatePattern beside the allowlist, which compiles the texts later. A map
-- that only tells whether a key was seen is the list of its keys, and an error is a constructor that names
-- its message, wrapped in the index that the message shows.
--
-- Inbound.Sni (internal/inbound/sni.go) is SniffSNI. The reader is the bytes that it still gives. The two
-- loops take one more than the length of their list as fuel, and each round consumes at least three bytes.
-- Inbound.HttpHost (internal/inbound/httphost.go) has validateRequestLine and stripPort; SniffHost itself
-- reads the header block through net/textproto and is not modelled.
--
-- Reload is the two-phase reload that the inbound and the outbound server have in common (PrepareApply,
-- CommitApply, AbortApply and Apply of internal/inbound/server.go and internal/outbound/server.go), over a
-- record of the operations in which they differ; Reload.Life has NewServer, Start and Shutdown. A World is
-- a server's state: a heap of listener objects, which the server, a plan and an accept loop name by their
-- index, the sinks that their owners have let go of, and the server's fields. A system call is a function
-- of the listeners that exist, and `opened` counts the sinks that were ever opened. Reload.Heap and
-- Reload.Moves are lemmas, Reload.Owned and Reload.Rollback are about reloads that fail or are aborted,
-- Reload.Served, Reload.Staging and Reload.Commit about those that are committed, Reload.Retired and
-- Reload.Replaced about the listeners that go, Reload.Launched and Reload.Launching about the accept loops
-- that are launched, and Reload.Started about the start. Inbound.Server and Outbound.Server fill the
-- record, and their Laws the hypotheses of those proofs. Only one reload runs at a time, since the
-- application holds a mutex, and log-relay handlers that take a reference meanwhile are the subject of
-- Outbound.RefSink.
--
-- Inbound.Routing (internal/inbound/server.go) is the handler of an HTTP-aware connection, Outbound.Proxy and
-- Outbound.Headers (internal/outbound/server.go) those of the forward proxy, with net/http and net/url as
-- parameters. A handler gives the list of what it does, deferred calls last; of two concurrent copies,
-- the one that ends first reports first.
--
-- App (internal/app/app.go) is New, Start and Reload over both servers; App.Validated, App.Atomic and
-- App.Lifetime are its proofs. What opening and decoding the configuration file gives is an argument.
--
-- Outbound.RefSink, Outbound.Enrich and Outbound.Relay (internal/outbound/logrelay.go) are the log relay: the
-- reference-counted sink, the enrichment of a record, and the loop of handleLogRelay that cuts the stream
-- into records. encoding/json is a parameter of emit, and what a Decoder reads is a list of tokens. The
-- stream is finite; one more than its length is fuel enough for the loop, and the same holds of
-- discardToNewline. bufio.ReadSlice reports a full buffer before the end of the stream. A failed write is an
-- answer of the environment. The mutex makes acquire and release single steps, and Outbound.RefSink takes
-- them in any order.
--
-- Supervisor.Buffer (internal/supervisor/buffer.go) is the ring buffer, Supervisor.Shipper (shipper.go) the
-- log shipper over it, whose connection is a function that answers each write. A lock section is one
-- function, and frames that producers enqueue between two sections are arguments. Supervisor.Shipper.Delivery
-- is the log channel as a step relation, and Supervisor.Shipper.Refines relates drainOnce to its steps.
-- A time.Duration is a count of nanoseconds, and its doubling wraps at 64 bits.
--
-- Supervisor.Config (config.go) is Validate, with the defaults that it fills in; Supervisor.Manager
-- (manager.go) is the process manager: one goroutine, so its state is a record. Starts, the clock and exit
-- events come in as inputs; what it does to processes goes out as a list of effects. An instant is a natural
-- number, which a monotonic clock gives.
--
-- Not modelled: the accept loops, of which only the launches are followed, and the raw TCP handlers
-- (internal/inbound/tcp.go, internal/outbound/tcp.go), dialUpstream, the wait for handlers at a shutdown,
-- the metrics endpoint, the vsock bindings, event framing, the commands, and the decoding of YAML; in the
-- manager, the pipes that it pumps and the kill timers but for the flag that one is set.
pub mod Common
pub mod Go
pub mod Allowlist
pub mod Supervisor
pub mod Inbound
pub mod Config
pub mod Outbound
pub mod Reload
pub mod App
pub mod Tests
