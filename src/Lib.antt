-- ===== src/Lib.antt =====
-- p2pft sends a file from one machine to another. The sender draws a code and registers it at a
-- relay; the receiver names the code, and the relay gives each side the addresses and the
-- certificate fingerprint of the other. The two sides race dials for a direct connection, pin the
-- certificate, and name the code once more in a preamble. The file then goes over one connection
-- in length-prefixed frames, and the receiver can resume an earlier attempt.
--
-- Files, with the code that each is about:
--   Transfer/Framing: internal/transfer/framing.go, `WriteFrame` and `ReadFrame`.
--   Transfer/Protocol: internal/transfer/protocol.go, and the JSON frames of sender.go.
--   Transfer/Hex: the hex calls of checksum.go, sender.go and resume.go.
--   Transfer/Resume: internal/transfer/resume.go, `CheckPartial`, `WriteMeta`, `CleanupPartial`.
--   Transfer/Checksum: internal/transfer/checksum.go, `FileSHA256` and `HashingWriter`.
--   Transfer/Sender: internal/transfer/sender.go, `Sender.Run`.
--   Transfer/Receiver: internal/transfer/receiver.go, `Receiver.Run`.
--   Transfer/Peer: the state of one side; Transfer/EndToEnd and Transfer/Ends: both sides;
--     Transfer/Retry: a transfer that breaks off and the next one;
--     Transfer/Closer: `contextCloser` of sender.go.
--   Pairing: cmd/p2pft/pairing.go, the preamble and `acceptWithCode`.
--   Nat/Discover: internal/nat/discover.go, `DiscoverLocalAddrs`.
--   Nat/Punch: internal/nat/punch.go, `RaceConnect`.
--   Tlsx: internal/tlsx/tlsx.go, fingerprints, pinning and the two configurations; Tlsx/Generate:
--     `GenerateCert`.
--   Signaling/Codes and Signaling/Messages: internal/signaling/codes.go, messages.go, types.go.
--   Signaling/Wire: the JSON values of the messages; Signaling/Wire/Unmarshal: how they are read.
--   Relay/Server: internal/relay/server.go, `ServeHTTP`, `handleSender` and `handleReceiver`; its
--     children have what one move does (Moves, Acts), the invariant, what a connection has said and
--     been told (Story, Telling), and the theorems (Meeting, Safety, Progress).
--   Relay/Session: internal/relay/session.go, `Create`, `Claim` and the sweep of the reaper.
--   Relay/Session/Table: the same over the entries of the map, with `Shutdown`.
--   Signaling/Client: internal/signaling/client.go, `Send`, `Read` and `Close`.
--   Cmd/Delivery: a `Plan` of what the world does while one file is sent, both commands in it
--     (Sends, Receives, Both), and the relay between them (System).
--   Cmd/Send: cmd/p2pft/send.go, `runSend`.
--   Cmd/Receive: cmd/p2pft/receive.go, `runReceive`; Cmd/Relayed: the reads from the relay in
--     send.go and receive.go; Cmd/World: what the commands take from the machine, `promptYN`.
--   Progress/Format: internal/progress/bar.go, `FormatBytes`; Progress/Bar: `New`, `SetLabel`,
--     `Set`, `Tick`, `Finish` and `Wrap` of the `Bar`, at times that are inputs, and the bar that
--     `render` draws, where a float64 quotient is a parameter; Progress/Bar/Shared: the
--     same, step by step, by goroutines that share a bar.
--   Prelude: numbers, lists, texts and integers. Io: errors, state passing, connections, disks.
--   Tests: runs on concrete inputs, and a parameter for each library.
--
-- State and effects. A function that touches a connection or a file is an `Exec S A`: it takes a
-- state and gives a `Result A` and the next state, so an error keeps what was done before it. A
-- `Conn` holds the bytes that the peer will have sent, how the stream ends (closed or broken),
-- the bytes written, and how many more can be written before it breaks. A `Disk` holds the files
-- and one event for each call to come: it runs, it reads a few bytes only, or it fails, a write
-- after some of its bytes. So a theorem for all states covers every peer, every early end of a
-- connection and every failing system call. A `Peer` is a connection, a disk, the bytes given to
-- the rolling hash, and the arguments of `OnProgress`. What a side reads is fixed before its run;
-- in EndToEnd it is what the other side writes.
--
-- The relay. A handler stands at one of its calls (`Pc`), with its local variables; the world
-- answers the call (`Answer`), and `act` takes the handler to its next call. The answers of a
-- `select` are its two cases. A `Session` that handlers share is an `Object` on a heap: its
-- fields, whether `SenderReady` is closed, and the buffer of `ReceiverJoined`. A `Step` of the
-- relay is a move of any handler or a sweep of the reaper, so `Reach` has every interleaving,
-- with every message a client may send and every failure of `Send` and `Read`. The transcripts of
-- each connection are kept.
--
-- Libraries. encoding/json is the parameter `Formats`: a decoder reads back what the encoder
-- wrote, and its texts fit a frame. crypto/sha256 is `Digest`: a function to 32 bytes. Both have
-- instances in Tests/Stubs. The messages of the relay are JSON values (`Json`), whose text is
-- that of encoding/json. Marshal replaces what is not UTF-8 in a Go string (Signaling/Wire/Utf8);
-- in Cmd/Delivery the messages pass as Go values. crypto/ed25519 and crypto/x509 are `Crypto`: a certificate that is
-- created from a template parses to its fields. The answers of `Accept`, of the dials, of
-- crypto/rand and of the clock are inputs.
--
-- Integers. Lengths and counters are native naturals; the 32-bit and 16-bit prefixes keep their
-- wrap-around (`% 2 ^ 32`), and an int64 that comes from the network or from a sidecar is a ℤ.
--
-- Loops. The loop of the receiver has one round for each byte of its input and one more, and that
-- of the sender one for each byte of the file and one more: each round but the last takes a byte
-- off at least. Out of fuel is an error of its own; besides these loops, only a race that waits
-- for ever gives it in `runSend`. `RaceConnect`, `acceptWithCode` and `FormatBytes` run over the
-- number of rounds of the source.
--
-- The commands. A `World` is the connection to the relay, the listener and the side of the
-- transfer; a `Machine` has the answers of the calls that a command makes once; `SendWorld` and
-- `SendMachine` are those of the sender. crypto/tls is a parameter: what the peer presents, and
-- the stream inside of the connection. A handshake succeeds where the callback of the
-- configuration accepts what is presented, or on the side of a server that requires no
-- certificate. A `SendWorld` also has the candidates of each race that has begun.
--
-- Not modelled: the websocket library, the flags (cmd/p2pft/main.go), cmd/p2pft-relay, the text
-- of a JSON value, and the percentage that `render` prints. Logging has no effect on the state and
-- is left out.
pub mod Prelude
pub mod Io
pub mod Transfer
pub mod Pairing
pub mod Nat
pub mod Progress
pub mod Tlsx
pub mod Signaling
pub mod Relay
pub mod Cmd
pub mod Tests
