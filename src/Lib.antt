-- ===== src/Lib.antt =====
-- A verification library of the agent's core: the events that its collectors produce and how they are
-- reported (internal/event), the governance of the honeypot (internal/honeypot), the parsing and
-- filtering of firewall log lines (internal/fw), the listeners for connections (internal/conn), the
-- alerts on disk usage (internal/diskmon), the store that writes the events to its database
-- (internal/store), the monthly copies of that database (internal/archive), and the validation of the
-- configuration (internal/config).
--
-- Collectors make events and put them into bounded channels; the store drains them. Each collector
-- reports its own troubles as events of the agent, through a rate limiter, into one channel that never
-- blocks. Event.antt has these types, `try_send` for the select with a default, `report_sys`
-- (ReportSys) and `report` (RateLimiter.Report); the other parts call them as the code does.
--
-- Prelude, Text and Utf8 hold what Go's language and standard library give: Boolean tests, association
-- lists for maps, decimal numbers (strconv), splitting and trimming (strings), runes.
--   Event            internal/event/event.go: types, channels, reporting
--   Event.Ipv4       IPv4ToUint32, Uint32ToIPv4; Event.Micros has MicrosToUnix
--   Event.Channels   NewChannels, Drain, TSOf
--   Honeypot         internal/honeypot/honeypot.go: constants
--   Honeypot.Protocols   the tables of protocols: KindOf, IsValidProto, DefaultListen
--   Honeypot.RateLimit   internal/honeypot/ratelimit.go: allow and sweep
--   Honeypot.CredText    validCredText and truncateCredText
--   Honeypot.Server      acceptConn, handleConn (begin_conn, record_cred, count_bytes, free_token and
--                    leave_conn) and emit
--   Honeypot.Session     a connection as a handler sees it: what is read, what is written and recorded
--   Honeypot.Lines       readLine of internal/honeypot/telnet.go; Honeypot.Telnet has handleTelnet
--   Honeypot.Ftp, Redis, Memcached, Mysql, Postgres, Mssql, Smb, Mongodb and Rdp   the handler of the
--                    file of that name in internal/honeypot, with its readers, parsers and answers;
--                    Honeypot.Bson has the documents of mongodb.go, Honeypot.Utf16 utf16leToString
--   Honeypot.Wire    numbers of fixed size and slices, as these files use them
--   Honeypot.Sessions    protoHandlers, with the handlers
--   Fw.Parse         internal/fw/parse.go: ParseFWLine, with reFWKV written out
--   Fw.Filter        internal/fw/filter.go and ssh_learn.go: ShouldDrop and the learned addresses
--   Fw.Compile       ParseCIDRs and ParseExcludeIPs of internal/fw/filter.go
--   Conn.Loop        internal/conn/conn.go: runConntrackLoop and connStartTracker
--   Conn.Overrun     checkOverrun of the same file
--   Conn.Flows       connEventFromCon of the same file
--   Conn.Snapshots   internal/conn/fallback.go: the rounds of the fallback listener
--   Conn.SsOutput    internal/conn/snapshot.go: ParseSSOutput
--   Diskmon          internal/diskmon/diskmon.go: Classify and the rounds of the disk monitor
--   Store.Items      internal/store/store_batch.go: the statements of the kinds, itemArgs
--   Store.Database   what the store relies on of its database, as a record of operations and laws
--   Store.Batch      writeBatch
--   Store.Cleanup    internal/store/retention.go: the loop of cleanupTable
--   Store.Writer     internal/store/store.go: the variables of Run, flush, yield, drainInto;
--                    Store.Writer.Loop has its select loop, Store.Writer.Retention the rounds of
--                    internal/store/retention.go, and Store.Kinds the rows of one kind among all
--   Config           internal/config/config.go: the sections and Defaults; Config.Validate has
--                    Validate, Config.ClockTime ParseHourMinute
--   Archive.Months   internal/archive/archive.go: ParseMonth, the recorded months
--   Archive.Month    ArchiveMonthDB and exportMonth
--   Archive.Due      one tick of RunArchiver
--   Archive.Exec     internal/store/store_archive.go: execArchive, with ShouldSkipArchive
--   Tests            runs at concrete inputs
--
-- Numbers: integers of a fixed width are natural numbers, with their wrap-around written out where
-- the code can reach it; times are nanoseconds, and each reading of the clock is an argument.
-- Strings and net.IP are lists of bytes. Concurrency: the honeypot's goroutines are steps of `Step`,
-- in any order. A step is what runs under a mutex or touches shared state once; what handleConn
-- defers is two, since it gives back its token before it locks the mutex to count itself out. The
-- cell that copies of a filter share is in an explicit store.
--
-- Run of the store is a list of inputs: an event that a producer sends, or a branch that select
-- takes, with what it reads of its surroundings. The branch of the end of the context stands for a
-- Wait on the producers that has returned, and a round of retention is one step. The database is any
-- value of `Database`.
--
-- A handler of the honeypot is a function of the bytes that the client sends before it stops and of the
-- number of writes that still succeed; its result is the list of what it writes and records. A panic,
-- which serveProto recovers from, ends it; a parser that can panic returns an Option.
--
-- Fuel: `drain` has one unit for a round, and more than the number of events in flight is enough. The
-- loops of the handlers have one for each message, and a byte more than the client sends, since each
-- message takes some; those over the elements of a BSON document have one more than its size.
--
-- Not modelled: in Honeypot.Server the handlers of the honeypot enter as arbitrary calls of their
-- closure, so that a property there holds of any; the time limit of a connection; sockets, netlink,
-- files, SQL and HTTP; the resource samples' floating-point values, which no modelled operation reads;
-- the opening of the store, archive requests as a branch of its Run, the reading of the configuration
-- from JSON, the parsing of SSH and fail2ban logs, and the interface for the dashboard.
pub mod Prelude
pub mod Utf8
pub mod Text
pub mod Event
pub mod Honeypot
pub mod Conn
pub mod Fw
pub mod Diskmon
pub mod Store
pub mod Config
pub mod Archive
pub mod Tests
