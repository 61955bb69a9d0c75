-- ===== src/Lib.antt =====
-- Ruzor, a server and client for digests of spam mails: its messages, signatures, request
-- handling, record formats, batches and times.
--
-- A client (src/client.rs) builds a message of headers (src/message.rs), signs it for its account
-- (src/account.rs, src/sha1.rs) and sends its text in a UDP packet. The server (src/server.rs)
-- cleans and parses the packet, checks the user's signature, the protocol version and the access
-- list, performs one of six operations on a digest database (src/engines.rs), queues reports for
-- other servers (src/forwarder.rs) and answers with a message that has the thread id of the
-- request. Databases store records in texts whose times are local times (src/local_time.rs).
--
-- Which file models what:
--   Prelude      the libraries' names, tests on numbers, lists, the i64 (`wrap_i64`), and hash
--                maps as association lists (Assoc).
--   Text         what the source uses of `str`: a text is a list of code points, a byte string a
--                list of numbers below 256. Decimal prints and parses integers, Utf8 encodes, and
--                decodes with replacement characters.
--   Error        src/error.rs: `PyzorError`, and `Result` with do blocks.
--   Steps        results of methods that also give the state they leave.
--   PythonRepr   src/python_repr.rs.
--   Message      src/message.rs: `Message` is its list of headers. RoundTrip has the parser
--                against the printer, Headers the lookups against the updates.
--   Sha1         src/sha1.rs, on naturals below 2^32 with `% 2 ^ 32` written out.
--   Account      src/account.rs. Signature has signing against verifying, Window the timestamps.
--   LocalTime    src/local_time.rs. `TimeZone` holds localtime_r and mktime.
--   Engines      src/engines.rs: `Record`, the trait `DigestDatabase` as a record of methods that
--                also give the state they leave, and its default methods. Lawful says what a
--                database promises, Counts what several updates make of a record; Formats has the
--                three record formats; File is `FileDatabase`, whose file is a text and whose
--                writing is the parameter `write`; Gdbm is src/gdbm_engine.rs over the calls of
--                the library, the parameter `raw`.
--   Config       src/config.rs: the loaders. Access has the access list, Accounts the accounts of
--                a client, Servers the list of servers. A file is its text or nothing.
--   Forwarder    src/forwarder.rs: the bounded queue. Room has what it takes of several digests.
--   Server       src/server.rs. Admission is the first half of `really_handle`, Operations the
--                second; `handle_packet` composes them. Replies (with Head), Effects and Wire
--                have what a request answers, changes, and how its packet is read; Limiter is
--                `ThreadLimiter`, whose methods are steps of a relation on its counters; Usage is
--                the usage log.
--   Client       src/client.rs: `Client`, with the socket as the parameter `exchange`. Threads
--                has the thread ids; Batch is `BatchClient::add_digest`, with Keys for its map;
--                Forwarding has both maps of a `BatchClient` and the loop of src/forwarder.rs,
--                with Ending for how it ends; Admitted has a client's signed requests against a
--                server's admission.
--   MySql        src/mysql_engine.rs: the data source, the statements, and the database over an
--                executor. Cli is src/mysql_cli.rs, with the client program as the parameter
--                `run`, and Native src/mysql_native.rs, with the mysql crate as the parameter
--                `pool`; Quote has its literals against MySQL's reading, Bind and Statements the
--                places of the statements.
--   Redis        src/redis_engine.rs: the data source. Resp has commands and replies on the wire,
--                with Fuel for the end of its reader, Replies and Commands for what is read back;
--                Databases has both databases, Sessions and Scripts the commands that they send.
--   Digest       src/digest.rs, from the payloads of a mail to its digest; Bounds has which lines
--                are hashed, Parts the parts of a mail, Transfer the encodings, with Base64 and
--                Encodings for what is decoded back, Html the text of HTML, and Payloads puts
--                them together, with Nesting for the end of the recursion.
--   Runner       src/bin/ruzor.rs: the arguments of the command line client; Options reads one of
--                them, ConfigFile has the file, Check the check command, Verdict what it asks and
--                when it succeeds, Commands the other commands, Times the times that info prints,
--                Paths the paths of its files, Session the run over several commands.
--   Tests        the theorems at concrete inputs.
--
-- Parameters, where the source calls what is not in the repository: `lower` for str::to_lowercase
-- (`to_lowercase` in Digest), `float_as_i64` for the parsing of a float and its cast,
-- `registered` for the character sets of a crate, `TimeZone`, `exchange`, `open_stream` and `ask`
-- for the network, `run` for a client program, `send` for the result of sending, `localtime` for
-- localtime_r in the client, and every reading of the clock (`Clock`, `Now`).
--
-- Loops are structural recursion, but for those on fuel: the decoder of UTF-8 takes the number of
-- bytes, of which every round uses one; the printer of decimals takes the number plus one, which
-- every round divides by ten; the padding of SHA-1 takes 64, and needs at most 63 zeros; the
-- blocks of SHA-1 take the length of the padded message by 64, which is the number of blocks; the
-- reader of Redis replies takes the number of bytes, and the search of a mail's parts the length
-- of the body plus one.
--
-- Not modelled: sockets, processes and signals, the files themselves, the calls of the gdbm
-- library, the texts of help of the client, the command line of the server, logs, panics but for
-- that of an option that is sliced inside a character, and memory that runs out.
mod Prelude
pub mod Text
pub mod Error
pub mod PythonRepr
pub mod Redis
pub mod Runner
pub mod Message
pub mod Sha1
pub mod Account
pub mod Engines
pub mod Forwarder
pub mod Server
pub mod Steps
pub mod Client
pub mod LocalTime
pub mod Config
pub mod MySql
pub mod Digest
mod Tests
