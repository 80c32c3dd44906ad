-- ===== src/Lib.antt =====
-- ENZO, a compressor for HTTP streams of Influx line protocol: the wire protocol, the encoder and the
-- decoder, and what ties them together.
--
-- One end (the encoder, `runEncodeTemplateV1` of internal/state/encode_v1.go) takes HTTP requests, cuts
-- their headers and bodies into spans (a constant, a lane that varies, a constant), and sends frames:
-- raw data, the definition of a template, or a reference to one with a lane. The other end (the decoder,
-- `runDecodeTemplateV1` of internal/state/decode_v1.go) keeps the templates, expands the references,
-- gathers the bytes until a request is whole, and writes it.
--
-- The files:
--   Prelude, Outcome     numbers, lists, maps, bytes; Go's errors and run-time panics as values
--   Io                   internal/io/framer.go: `ReadPacket` is `read_packet`, `WritePacket` is
--                        `write_packet`, and so on; `Conn` and `Source` stand for the two ends of a
--                        `net.Conn`, whose answer to each write (`outcome`) is a parameter
--   Protocol             internal/protocol/protocol.go, the constants
--   Protocol/Frame       internal/protocol/frameio.go: `write_frame`, `read_frame`, and their parts
--   Protocol/Template    internal/protocol/template.go: builders with a cursor over a zeroed buffer, and
--                        parsers in which an index out of range is the value `err panic`
--   Memory/RawWindow     internal/memory/rawwindow.go: the ring, `append` and `snapshot`; its child
--                        modules read the ring from its oldest byte on
--   Memory/Dictionary    internal/memory/dictionary.go: `add_candidate`, `get_by_key`, `delete` and the
--                        guarded eviction `evict_to_fit`, in its two phases `plan` and `commit`
--   Http                 internal/httpio/http_request_body.go: `read_http_request_body`; Http/Messages says what
--                        requests it takes, Http/Whole what it has consumed, Http/Ends that it ends
--   Learning             internal/dictionary: `observe_packet`, `evict_one`, and in Learning/Store the bounded
--                        store, `try_insert` and `ensure_capacity`, in Learning/Extract `extract_spans`; the order in which a range visits a map
--                        (`Range`) is a parameter, and theorems hold in every order (`Shuffle`)
--   State/Agreement      internal/state/dict.go and the encoder's variables and counters (`Enc`)
--   State/Emit           internal/state/encode_helpers.go, `emitWithDelayedPromotionDefineRef` as `emit`
--                        and `templateIDFor`
--   State/Lines          the splitting of headers and bodies in encode_v1.go
--   State/ContentLength  `parseContentLength`
--   State/Encode         `normalizeHTTPHeaders` and the rounds of `runEncodeTemplateV1`; its loop on the bytes
--                        of the client is State/Encode/Stream
--   State/Encode/Learner the same loop with the learner in it, `run_encode_learning`
--   State/Decode         `runDecodeTemplateV1`: `Decoder` holds its variables, `feed`, `deliver` and
--                        `decode_frame` its closures and its switch
--   State/Helpers        internal/state/helpers_v1.go: a payload split into two constants and a lane
--   State/HttpHelpers    internal/state/http_helpers.go: header blocks and bodies off a list of reads
--   State/Meaning        what frames stand for, apart from how either end works
--   State/Machine        internal/state/machine.go: `pipeline` and `reverse_lane`, each on its own; a
--                        connection is the list of what its reads return (`Peer`)
--   Accept               internal/accept/listener.go, and the modes of internal/connctx/context.go
--   The modules called Tests run the model, and the theorems, on concrete input.
-- The proofs stand in the child modules: State/Emit/Emits says what a part of the encoder owes, the
-- modules under State/Lines put the parts together, State/Decode/Progress and its neighbours are the
-- decoder's half, and State/Encode/EndToEnd joins the two;
-- State/Encode/Tunnel puts the HTTP reader in front.
--
-- A 32- or 64-bit counter wraps as written (`add_uint32`, `add_uint64`). Loops that the code runs on an
-- index run on fuel here: a round takes a byte at least, or a frame of eight bytes at least, and each
-- loop is started with one round more than there are bytes.
--
-- The identifiers of templates are 16 bits of a hash, and nothing in the code notices when two spans
-- share one; the lengths of constants and lanes are cut to 16 bits. Theorems that need this not to
-- happen say so (`IsSafe`, with `owner` for the template that each identifier belongs to).
--
-- Not modelled: the two lanes of internal/state/machine.go as concurrent processes (`run` gives each the
-- dictionary as it is at the start), the accept loop, logging and statistics output.
pub mod Prelude
pub mod Outcome
pub mod Io
pub mod Protocol
pub mod Memory
pub mod Http
pub mod Learning
pub mod State
pub mod Accept
