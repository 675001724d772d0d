-- ===== src/Lib.antt =====
-- PhantomProxy: an MTProto proxy that hides in TLS.
--
-- A client opens a TCP connection. The server (internal/proxy) limits connections per address,
-- refuses addresses that probed it, and looks at the first byte. A TLS handshake record is parsed
-- as a ClientHello, matched against the users' secrets by its keyed digest and checked for replay;
-- the session then runs in TLS application data records. Inside them, or directly for secure
-- secrets, an obfuscated2 header names Telegram's data centre. The traffic goes to that data
-- centre, to a middle proxy, or through an encrypted tunnel to a second server. A connection that
-- is refused is spliced to a real site, redirected to it, or handed to the fallback. The settings
-- come from a file and can be edited while the server runs.
--
-- FakeTls (internal/faketls). Random: rand.go. Policy: RecordPolicy of client.go and record.go.
--   Record: RecordConn of record.go, where `write` and `read` are its methods with all loops.
--   Hello: parseClientHello, SNI and parseSNI of client_hello.go, on slices with their capacity, so
--   that an index out of range is the outcome `panics`. Digest: validateClientHello, and the
--   signing at the end of generateClientHelloRecord. Rotator: the rotators of server_hello.go and
--   sni.go; Pool: pool.go. ServerHello: server_hello.go, and the answer and its reading of
--   client.go. HelloPolicy: client_hello_policy.go. Fingerprint: fingerprint.go. Fronting:
--   fronting.go, and PrefixConn and RedirectToDomain of record.go.
-- Replay: internal/faketls/replay.go. Secret: internal/mtproto/secret.go.
-- Users: internal/user/manager.go, the operations on the list of users and the matching loops.
--   Views: what the API shows.
-- Limit: internal/limit/connlimit.go. Stats: internal/stats/tracker.go.
-- Probe: internal/probe/blacklist.go; each reading of the clock is an argument.
-- Obfuscated: internal/obfuscated2/handshake.go and header.go.
-- Relay (internal/relay/tunnel.go). Handshake: DialFront and acceptBack. Frame: frameConn.
-- MiddleProxy (internal/middleproxy). Frame: writeFrame and readFrame of crypto.go on plaintext.
--   Intermediate: intermediate.go. Rpc: the messages of relay.go. Keys: deriveKeys of crypto.go and
--   ResolveEndpoints of config.go.
-- Telegram: internal/telegram/dc.go.
-- Config (internal/config): the structures and accessors of config.go; Relay: relay.go; Settings:
--   settings.go; UserList: buildUsers and UsersToConfig. Runtime: internal/runtime/runtime.go.
-- Proxy (internal/proxy). Accept: a turn of the loop of Serve. Handler and Attempt:
--   handleConnection and what it calls in server.go and errors.go, over the state of State; the
--   stages of handleFakeTLSPath are functions that each take the result of the one before. Backend:
--   relayMTProto, relayBackToDC and dialDC. ProxyProtocol: proxyproto.go. Address: netutil.go and
--   listen.go. Errors: errors.go.
-- Admin (internal/admin/server.go). Request: checkToken, withAuth and proxyEndpoint. Accounts: the
--   handlers about users. Control: the other handlers, and which of them ask for the token.
-- Common: bytes and their integers, Go's error results, slices with capacity, maps, exclusive or,
--   Go's strings functions on ASCII text.
-- Examples: the theorems at concrete inputs.
--
-- HMAC, SHA-256, AES-CTR, AES-GCM, hex, base64, package net, and the source of random numbers are
-- parameters; where a theorem needs their documented behaviour it is a named hypothesis. A mutex
-- makes each method one step, so methods are functions of the state. A connection that is written
-- is the list of packets it took, and may fail at any write; a connection that is read is the list
-- of its bytes up to the end. Sequence numbers, frame counters and the statistics' totals wrap as
-- in Go; the number of open connections and the counters of the metrics do not. A loop whose
-- recursion is not on a list runs on fuel: the length of the data for the writers, the length of
-- the stream, and two more, for the readers, and one frame at a time for `read_payload`. That is
-- enough, since each turn takes bytes off. The loops over extensions have the length and one more.
--
-- The handlers take what is outside of them as arguments: the readings of the clock, the bytes that
-- a connection delivers, what RecordConn.Read makes of those behind the ClientHello, whether a dial
-- succeeds and a write works, how many bytes the two copies moved, and what the recorder has taken
-- when a connection is rejected. A connection is one step; an end is a value of `Ending`.
--
-- Not modelled: the goroutines that run connections side by side, the copying of bytes, dialling
-- (internal/upstream) and the obfuscated2 header that a direct connection opens with, the fallback
-- to a real site, the pages of the user interface, which the management interface puts on the same
-- server, that HTTP server itself, what the removal of the service starts, the command line,
-- reading and writing the configuration file, the HTTP side of the metrics, the service unit, the
-- TLS library that builds hellos, and the AES-CBC handshake with middle proxies.
pub mod Admin
pub mod Common
pub mod Config
pub mod Examples
pub mod FakeTls
pub mod Limit
pub mod MiddleProxy
pub mod Obfuscated
pub mod Probe
pub mod Proxy
pub mod Relay
pub mod Replay
pub mod Runtime
pub mod Secret
pub mod Stats
pub mod Telegram
pub mod Users
