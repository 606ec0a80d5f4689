-- ===== src/Lib.antt =====
-- A verification library for the core of hsm-doctor, a program that inspects hardware security
-- modules: the evaluation of rules, the analysis of recorded PKCS#11 traces, the reports that are
-- derived from scans, and the server that collects them from a fleet.
--
-- The parts and how they interact. A scan fills an inventory (internal/inventory) with the
-- metadata of a token. Rules are loaded and merged (internal/policy/policy.go) and evaluated
-- against it (internal/policy/eval.go), which gives findings and a health score. The diagnosis
-- (internal/doctor) puts the findings together with vendor findings and functional tests. Two scans
-- are compared by their findings (internal/regression) and by their inventories
-- (internal/snapshot/diff.go); the inventories of many modules are searched for private keys that
-- they share (internal/sharedkeys), and the certificates of one are classified (internal/certmon).
-- The mechanisms and keys of a token are judged for post-quantum cryptography (internal/pqc).
-- Apart from that, a trace of PKCS#11 calls is checked for misuse (internal/trace/analyze.go), and
-- the keys it used are found (internal/trace/keys.go).
--
-- A token is judged before a renewal (internal/preflight), a KMIP server by rules of its own
-- (internal/kmip), and versions by a feed of advisories (internal/advisory).
--
-- The server keeps scans in a store (internal/store). A scan comes from a local slot or from an
-- agent (internal/agent) that enrolled and pushes it (internal/server/ingest.go). Persisting it
-- updates the module's row, sends reminders of expiring certificates (internal/notify), inserts the
-- scan, compares it with the one before and records, posts and mails what got worse or changed
-- (internal/server/history.go). Requests pass the authentication of internal/server/auth.go.
--
-- The files:
--   Base         helpers: tests, lists, 64-bit integers, stable sorting, maps, texts, time
--   Inventory    internal/inventory/inventory.go and internal/p11/types.go: the records, Count,
--                HasKeyUsage, SessionCapacity. Curves: internal/inventory/curves.go
--   Policy       Severity, Condition, Load: internal/policy/policy.go. Facts (buildFacts,
--                certKeyMismatch, isDuplicateLabel, isOrphan), Guard and Match (matchObject) and
--                Evaluate (Evaluate, evalMechanismRule, AddFindings): internal/policy/eval.go. Packs:
--                internal/cli/packs.go and rules/embed.go
--   Trace        Event: internal/trace/event.go. Effects, Report, Sessions (checkInitialize,
--                checkSessionLeaks, checkOperationPairs), Calls (checkLoginOrdering, checkErrors,
--                checkSlowCalls, functionStats) and Analyze: internal/trace/analyze.go. Keys:
--                internal/trace/keys.go. Coverage: internal/trace/coverage.go
--   Doctor       internal/doctor/doctor.go, with Result.Counts of internal/funtest/funtest.go and the
--                fields of internal/report/report.go that it reads; Doctor.Itoa has itoa and plural
--   Regression   internal/regression/regression.go
--   SharedKeys   internal/sharedkeys/sharedkeys.go
--   Snapshot     internal/snapshot/diff.go
--   Certs        internal/certmon/certmon.go
--   Pqc          internal/pqc/detect.go, internal/pqc/quantum.go and the families of
--                internal/pqc/constants.go
--   Preflight    internal/preflight/preflight.go
--   Kmip         internal/kmip/rules.go and posture.go; Evaluate: eval.go; Collect: collect.go and
--                responsePayload of client.go
--   Advisory     internal/advisory/advisory.go
--   Notify       internal/notify/notify.go and notifier.go; Expiry: NotifyCertExpiry; Smtp: smtp.go
--   Store        internal/store/store.go and sqlite.go: the tables as lists of rows and each query as
--                a function on them, Events: the listings, events, agents and the ledger
--   Server       Auth: auth.go, and the settings and roles of oidc.go; Session: its cookies;
--                Records, Persist: persistScan and checkRegression of history.go, and
--                sharedkeys.go; Notices: notifyCertExpiry and driftSummary; History: the handlers
--                of history.go; Ingest: ingest.go; Webhook: webhook.go. The store is a record of queries that may fail,
--                and Persist/Database fills it with the queries of Store
--   P11          internal/p11/uri.go
--   Agent        internal/agent/agent.go, and the vendor's part of ScanSlot in internal/server/api.go
--   Examples     concrete inputs
--
-- How the code is modelled. A pointer that may be nil is an Option, a slice a list, and a map the
-- list of its entries in the order of insertion, each key once. The code's results do not depend
-- on the order in which it walks a map, because it sorts what it collects; where sort.Slice is
-- free to order entries that compare equal, the model keeps their order. An error is a value of
-- Policy.Load.Outcome, Policy.Packs.Attempt or Base.Fallible. matchObject is a row of guards, each of
-- which stops or goes on with a detail.
-- The loops that keep a map from sessions to sequence numbers are one function, Trace.Effects.run,
-- over the effect of each event. sortIssues, which sorts a slice in place, keeps the sorted front in
-- reverse.
--
-- Numbers and bounds. The score, the durations and the days are 64-bit integers, with the wrap
-- around written out (Base.Int.wrap64, Base.Clock.days), and time.Time.Sub stops at the ends of its
-- range. Handles, sequence numbers and return values are natural numbers, and so are counters of
-- elements of a list, which memory keeps far below 2^63. itoa has a buffer of 20 bytes, and its loop
-- is a recursion on the bytes left, which 64-bit integers never use up; decimal texts recur on
-- fuel above the number itself.
--
-- The webhook makes three attempts, and its recursion is on those that are left. Whether its URL makes a
-- request, and what the endpoint answers to each attempt, are parameters.
--
-- Parameters. Base.Clock.Format stands for what the standard library does with floating point and
-- the calendar: dates as texts, quoting, whole days, shares in percent; Base.Casing for Unicode's
-- cases. Preflight.Client is the module, `ask` of Kmip.Collect the KMIP server and Kmip14 the names of
-- its library, Server.Records.Json the encoding of reports; files and the embedded folder of
-- packs, SHA-256, HMAC, Base64, random tokens and the clock are arguments of what uses them. The theorems hold for each choice. The ledger of the
-- reminders is a record with laws, which Store.Notified shows of the database.
--
-- Not modelled: reading tokens, X.509 and YAML, the listener and the wire formats of HTTP, SMTP, KMIP
-- and SQL, the migrations and the PostgreSQL dialect, the login flow of OpenID Connect, output
-- formats, benchmarks, the recording library in shim, and the generated tables of names. They are
-- input and output or calls of libraries.
pub mod Base
pub mod Inventory
pub mod Policy
pub mod Trace
pub mod Examples
pub mod Snapshot
pub mod Certs
pub mod Pqc
pub mod Doctor
pub mod Regression
pub mod SharedKeys
pub mod Preflight
pub mod Kmip
pub mod Advisory
pub mod Notify
pub mod Server
pub mod Agent
pub mod P11
pub mod Store
