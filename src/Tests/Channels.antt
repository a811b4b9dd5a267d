-- ===== src/Tests/Channels.antt =====
-- Sessions, forwards and a control master at concrete inputs.
use squish.Server.Access.{direct_tcpip_allowed}
use squish.Text.{Text, text, str_eq, contains, starts_with}
use squish.Proto.Stream.{fresh, FramedBiStream}
use squish.Client.ControlPersist.{timeout}
use squish.Proto.Message.{tcp_forward_failure}
use squish.Proto.Channel.{
  TcpipParams, ChannelMessage, open_channel, open_confirmation, request_success, forwarded_tcpip,
  channel_data, forwarded_tcpip_params, eof, exit_status, administratively_prohibited, close,
  extended_data,
}
use squish.Client.ForwardSpec.{ForwardSpec}
use squish.Client.Session.{
  Failure, Terminal, Local, start_session, pump_io, stdin_end, exited_with, send_env, forwarded_env,
  is_forwarded_env_key, stdout_pump,
}
use squish.Client.Session.Launched.{launch_of, accepted_env, start_session-launches}
use squish.Client.Session.ExitStatus.{pump_io-unreported}
use squish.Server.Session.Terminal.{
  write_all_to_fd, takes, would_block, child_exited, pty_read, io_pump, timed_out, io_loop,
}
use squish.Server.Session.Terminal.Complete.{took, blocked, write_all_to_fd_complete}
use squish.Server.Session.Process.{
  System, run_child, run_subsystem, PipeEvent, pipe_loop, stdout_read, message_received,
  stderr_read, stdout_end,
}
use squish.Client.Session.Delivered.{run_subsystem-transparent, child_stdout, child_stderr}
use squish.Server.Session.Child.{exited, configure_child}
use squish.Client.Control.Serve.{
  Master, Reaches, begins, goes, accepted, new_master, IsServed, Leads, Reaches-IsServed,
  Reaches-closes, closed, serving,
}
use squish.Client.Control.Handler.{register_forward, declined}
use squish.Client.Control.Forwards.{register_forward-forgets}
use squish.Client.Forward.{
  handle_local_connection, handle_remote_forward_stream, direct_params, no_handler, refused,
}
use squish.Client.Forward.Agreement.{
  handle_local_connection_agree, handle_remote_connection_agree, Met,
}
use squish.Server.Forward.Remote.{handle_remote_connection}
use squish.Server.Connection.{forward_request, running, record_action, reply}
use squish.Server.Session as Daemon
use squish.Server.Dispatch as Dispatch
use squish.Server.Dispatch.{dispatch_channel, session_handler, direct_tcpip_handler}
use squish.Tests.Server.{config, up, parse_ip, one_forward, loopback-Allowed, one_forward-active}
use squish.Tests.Handshake.{alice_config}
use squish.Tests.Instances.{alice}
use squish.Prelude.{
  ℕ, List, ◌∷◌, true, none, [], Bool, ◌≡◌, ◌≢◌, Result, ok, some, false, refl, arith, if◌then◌else◌,
  take, err,
}

abbrev terminal : Terminal
terminal = record { size = none; term = none; vars = (text "LC_ALL", text "C") ∷ [] }

abbrev opening : List ChannelMessage
opening = open_confirmation 32768 ∷ request_success ∷ []

abbrev started : FramedBiStream ChannelMessage × Result Failure (Unit {0})
started = start_session up alice_config terminal (fresh opening)

session-started : started.1 ≡ ok tt
unfolding start_session send_env forwarded_env is_forwarded_env_key str_eq starts_with
session-started = refl

abbrev no_paths : Text → Bool
no_paths p = false

start_session-launches_example :
    let dispatched = dispatch_channel config up (fresh started.0.sent) in
    (dispatched.1 ≡ ok session_handler)
    × ((Daemon.handle no_paths config up (ok (some alice)) dispatched.0.incoming).1
        ≡ ok (
            launch_of no_paths config up none
              (some (text "ls"))
              none
              (take 64 (accepted_env no_paths config up (forwarded_env terminal.vars)))))
start_session-launches_example =
    start_session-launches no_paths config up up alice_config terminal opening alice session-started
      λ sent. refl

abbrev system : System
system = record {
  effective_uid = 1000;
  slave_fd = 4;
  openpty = λ size. true;
  spawn = λ command. true;
  to_uppercase = λ s. s;
}

abbrev local : Local
local = record { raw_mode = true; sigwinch = true; accepts = λ out. true }

-- The process prints two bytes and exits with status 3.
abbrev from_daemon : List ChannelMessage
from_daemon =
    (run_child system alice [] (some (text "false")) none []
      (pty_read (111 ∷ 107 ∷ []) true ∷ child_exited (exited 3) ∷ []) timed_out).0

abbrev failing : FramedBiStream ChannelMessage
failing = record { incoming = from_daemon; sent = [] }

failing-reports : from_daemon ≡ channel_data (111 ∷ 107 ∷ []) ∷ eof ∷ exit_status 3 ∷ close ∷ []
unfolding run_child io_pump io_loop configure_child contains
failing-reports = refl

pump_io-unreported_example :
    (pump_io up alice_config local (stdin_end ∷ []) failing).1 ≢ some (err (exited_with 3))
pump_io-unreported_example =
    pump_io-unreported up alice_config local (stdin_end ∷ []) failing 3 system alice
      (some (text "false")) none [] (pty_read (111 ∷ 107 ∷ []) true ∷ child_exited (exited 3) ∷ [])
      timed_out refl

write_all_to_fd_complete_example :
    write_all_to_fd (1 ∷ 2 ∷ 3 ∷ []) (would_block ∷ takes 2 ∷ takes 1 ∷ takes 1 ∷ [])
    ≡ (1 ∷ 2 ∷ 3 ∷ [], some (ok tt))
write_all_to_fd_complete_example =
    write_all_to_fd_complete (1 ∷ 2 ∷ 3 ∷ []) (would_block ∷ takes 2 ∷ takes 1 ∷ takes 1 ∷ [])
      (blocked, (took 2 (omega arith), (took 1 (omega arith), (took 1 (omega arith), tt))))
      (omega arith)

abbrev one_client : Master
one_client = record { active_clients = 1; handlers = 1; queue = 0; stage = serving }

one_client-reached : Reaches (timeout 5) one_client
one_client-reached = goes begins (accepted new_master refl)

Reaches-IsServed_example : IsServed (timeout 5) one_client
Reaches-IsServed_example = Reaches-IsServed (timeout 5) one_client one_client-reached

Reaches-closes_example : (n : Master) × Leads (timeout 5) one_client n × (n.stage ≡ closed)
Reaches-closes_example = Reaches-closes (timeout 5) one_client 5 one_client-reached refl refl

abbrev to_web : ForwardSpec
to_web = record {
  bind_addr = text "127.0.0.1";
  bind_port = 80;
  target_host = text "web";
  target_port = 8080;
}

abbrev from_web : TcpipParams
from_web = record {
  host = text "127.0.0.1";
  port = 80;
  originator_addr = text "10.0.0.1";
  originator_port = 5000;
}

register_forward-forgets_example :
    let why = text "remote forward already active" in
    let refusal = tcp_forward_failure why in
    let after =
      register_forward up to_web (record { specs = to_web ∷ []; control = fresh (refusal ∷ []) }) in
    (forward_request parse_ip config (text "127.0.0.1") 80 true one_forward
      ≡ running (record_action (reply refusal) one_forward))
    × (after.1 ≡ declined why)
    × ((handle_remote_forward_stream up
          (λ target. true)
          after.0.specs
          (fresh (open_channel forwarded_tcpip (forwarded_tcpip_params from_web) ∷ []))).1
        ≡ err no_handler)
register_forward-forgets_example =
    register_forward-forgets parse_ip config up to_web one_forward (to_web ∷ []) [] up
      (λ target. true) from_web (λ sent. refl) loopback-Allowed one_forward-active ((λ e. refl), tt)
      refl

abbrev local_spec : ForwardSpec
local_spec = record {
  bind_addr = text "127.0.0.1";
  bind_port = 5432;
  target_host = text "db";
  target_port = 5432;
}

abbrev originator : Text × ℕ
originator = (text "127.0.0.1", 4000)

handle_local_connection_agree_example :
    let opened = handle_local_connection up local_spec originator (fresh []) in
    let daemon = dispatch_channel config up (fresh opened.0.sent) in
    let client = handle_local_connection up local_spec originator (fresh daemon.0.sent) in
    let allowed = direct_tcpip_allowed (text "db") 5432 config.direct_tcpip_allowlist in
    (daemon.1 ≡ (
      if allowed
      then ok (direct_tcpip_handler (direct_params local_spec originator))
      else ok Dispatch.no_handler))
    × (client.1 ≡ (if allowed then ok tt else err (refused administratively_prohibited)))
handle_local_connection_agree_example =
    handle_local_connection_agree up up (λ sent. refl) (λ sent. refl) config local_spec originator

handle_remote_connection_agree_example :
    let opened = handle_remote_connection up (text "127.0.0.1") 80 originator (fresh []) in
    let client =
      handle_remote_forward_stream up (λ target. true) (to_web ∷ []) (fresh opened.0.sent) in
    let daemon =
      handle_remote_connection up (text "127.0.0.1") 80 originator (fresh client.0.sent) in
    Met (to_web ∷ []) (λ target. true) 80 client.1 daemon.1
handle_remote_connection_agree_example =
    handle_remote_connection_agree up up (λ sent. refl) (λ sent. refl) (to_web ∷ [])
      (λ target. true) (text "127.0.0.1") 80 originator

-- Both outputs of a subsystem, and data of the client between them.
abbrev pipe_events : List PipeEvent
pipe_events =
    stdout_read (111 ∷ []) true
    ∷ message_received (channel_data (1 ∷ [])) true
    ∷ stderr_read (33 ∷ [])
    ∷ stdout_read (107 ∷ []) true
    ∷ stdout_end
    ∷ []

abbrev piped : List ChannelMessage
piped =
    channel_data (111 ∷ [])
    ∷ extended_data 1 (33 ∷ [])
    ∷ channel_data (107 ∷ [])
    ∷ eof
    ∷ exit_status 0
    ∷ close
    ∷ []

subsystem_piped :
    run_subsystem system alice [] (text "cat") [] pipe_events (some (exited 0))
    ≡ (piped, some (ok 0))
unfolding run_subsystem pipe_loop configure_child contains
subsystem_piped = refl

run_subsystem-transparent_example : stdout_pump (λ written. true) piped [] [] ≡ record {
  stdout = child_stdout pipe_events;
  stderr = child_stderr false pipe_events;
  status = none;
}
run_subsystem-transparent_example =
    run_subsystem-transparent system alice (text "cat") [] pipe_events (some (exited 0)) piped 0
      (refl, (tt, (tt, (refl, (tt, tt))))) subsystem_piped
