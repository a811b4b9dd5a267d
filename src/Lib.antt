-- ===== src/Lib.antt =====
-- squish: a remote shell over QUIC with post-quantum keys, after the model of SSH.
--
-- The program has three parts. crates/sqsh-core holds the protocol: the messages, their frames on a
-- stream, the challenge that a client signs, and the format of authorized_keys. crates/sqshd is the
-- daemon: it accepts a QUIC connection, authenticates the user on the first stream (the control
-- stream), and serves that stream (remote forwards, keep-alive) and one more stream for each channel
-- (sessions and direct connections). crates/sqsh is the client: its command line, the ssh config
-- file, the known hosts, the connection with its sessions and forwards, and the control master, by
-- which several clients share one connection.
--
-- Which file models what:
--   Prelude       names of the libraries passed on, Boolean tests, lists, `Result`.
--   Text          Rust's `str`, `char` and integer parsing on lists of code points.
--   Proto         crates/sqsh-core/src/proto and transport/framing.rs, channel/state.rs, error.rs.
--                 Message and Channel are the enums; Codec is `write_message` and `read_message`;
--                 Stream is a framed stream as its users see it, with what is known of a talk on it
--                 that succeeds.
--   Auth          crates/sqsh-core/src/auth: Challenge is `build_challenge_payload`, AuthorizedKeys
--                 is `parse_authorized_keys` and `format_authorized_key` of
--                 crates/sqsh/src/bootstrap/keys.rs.
--   Server        crates/sqshd/src: Config is config.rs. Of connection.rs, Access is the access
--                 lists, Keys is `load_user_authorized_keys` and the signature check, Authenticate
--                 is `authenticate`, Connection is the loop of `handle`, Handle the whole of it, and
--                 Dispatch is `dispatch_channel`. Session is `handle` of channel/session.rs,
--                 Session.Child its `configure_child`, Session.Terminal `io_pump` and
--                 `write_all_to_fd`, and Session.Process `run_child` and `run_subsystem`. Forward is
--                 `pump` of channel/forward.rs, and Forward.Remote how its channels are opened.
--   Client        crates/sqsh/src: Target is target.rs, KnownHosts is known_hosts.rs. Of config.rs,
--                 Tokens is `tokenize_config_line`, HostPatterns `wildcard_match` and
--                 `host_patterns_match`, ForwardSpec and ControlPersist the types of these names,
--                 SshConfig `SshHostConfig`, Resolve `resolve_with_home` and the paths. Migration is
--                 `should_skip` of migration.rs, RemotePath `parse_remote` of bin/sqcp.rs. Of
--                 connection.rs, Authenticate is `authenticate`, Connect is `establish_connection`
--                 and `open_authenticated`, and Connect.Direct the way to them from `connect`.
--                 Session is channel/session.rs, Forward channel/forward.rs. Of control.rs, Control
--                 is the messages, Control.Serve the loop of the master, Control.Handler its task
--                 for a client, and Control.Slave the client's side. Bootstrap is the release and
--                 its check of bootstrap/mod.rs, Bootstrap.Run the first steps of `run` with
--                 detect.rs and ssh.rs beside it, Bootstrap.Sequence the other steps with service.rs.
--   Tests         concrete instances of the parameters, and the theorems at concrete inputs.
--
-- How state and operations correspond. A handler that talks on a stream is a function from what the
-- peer sends (up to the end of the stream, or the first frame that is refused) to what was sent and
-- a result; a parameter `link` says after which messages one more send goes through, so that every
-- `?` on a send has both outcomes. `let _ = send(..)` drops the outcome. The loop of a connection
-- is a step function on a record of the forward table, the permits and the log of effects, and a
-- run is a list of events in any order, since `select!` takes what is ready; so are the loops that
-- move bytes, with the outcome of each write in its event. In `pump`, a `recv` that `select!` drops
-- loses what it has read of a frame, and the event says how much; the other loops take a message
-- whole. The loop of the control master, whose tasks run beside it, is a step relation. An attempt
-- of the client to connect is a function on the known hosts file, which each attempt loads again,
-- the keys installed at the server and the messages sent. Numbers are natural numbers with their
-- bounds and remainders written out; `bail!` and `?` are results of an error type of each
-- component, where an error text is represented by its cause. A panic is a result too. A `HashMap`
-- is an association list.
--
-- Recursion is structural, but for the digits of a number, which take fuel one above the number;
-- this is enough since each step divides the number by ten, and parsing what is printed gives
-- the number back.
--
-- What is not in the repository is a parameter, with what it documents as a law where one is
-- needed: `AsyncWrite` and `AsyncRead`, postcard, base64, SHA-256 and SHA-512, ML-DSA-65, minisign,
-- the programs that bootstrap starts (ssh, scp, curl or wget, tar), the parser of IP addresses, the
-- user database, the file system, the terminal, sockets, processes and the order of iteration of a
-- `HashMap`.
--
-- Not modelled: the file transfer programs but for `parse_remote`, key generation, the
-- set-up of QUIC endpoints and certificates, the listeners that start a task for each connection,
-- argument parsing, and packaging. They are input and output around libraries, or come after the
-- parts that decide who gets what.
pub mod Prelude
pub mod Text
pub mod Proto
pub mod Auth
pub mod Server
pub mod Client
mod Tests
