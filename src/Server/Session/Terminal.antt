-- ===== src/Server/Session/Terminal.antt =====
-- `io_pump` and `write_all_to_fd` of crates/sqshd/src/channel/session.rs: bytes between a PTY and a
-- channel, and the requests that reach a running process. The loop takes whatever is ready, so a
-- run is a sequence of events in any order.
pub mod Complete
use squish.Proto.Channel.{
  WindowChangeParams, ChannelMessage, RequestType, channel_data, request_success, window_change,
  request_failure, signal, request, close,
}
use squish.Text.{Text, text, str_eq}
use squish.Proto.Message.{Bytes}
use squish.Server.Session.Child.{ExitStatus, exit_code_from_status}
use squish.Proto.Codec.Words.{u16_mod}
use squish.Prelude.{
  ℕ, Option, true, Bool, List, ◌%◌, some, ◌++◌, ◌∷◌, Result, ok, none, [], if◌then◌else◌, take, err,
  drop, false,
}

-- `Winsize`, of four numbers that `as u16` cuts off.
pub record Winsize : Type 0 where
  pub ws_row : ℕ
  pub ws_col : ℕ
  pub ws_xpixel : ℕ
  pub ws_ypixel : ℕ

unfoldable pub winsize : ℕ → ℕ → ℕ → ℕ → Winsize
winsize rows cols xpixel ypixel = record {
  ws_row = rows % u16_mod;
  ws_col = cols % u16_mod;
  ws_xpixel = xpixel % u16_mod;
  ws_ypixel = ypixel % u16_mod;
}

pub data Signal : Type 0 where
  sighup sigint sigquit sigkill sigterm sigusr1 sigusr2 : Signal

-- The names of each signal, in the order of the `match`.
abbrev pub signal_names : List (Text × Signal)
signal_names =
    (text "HUP", sighup)
    ∷ (text "SIGHUP", sighup)
    ∷ (text "INT", sigint)
    ∷ (text "SIGINT", sigint)
    ∷ (text "QUIT", sigquit)
    ∷ (text "SIGQUIT", sigquit)
    ∷ (text "KILL", sigkill)
    ∷ (text "SIGKILL", sigkill)
    ∷ (text "TERM", sigterm)
    ∷ (text "SIGTERM", sigterm)
    ∷ (text "USR1", sigusr1)
    ∷ (text "SIGUSR1", sigusr1)
    ∷ (text "USR2", sigusr2)
    ∷ (text "SIGUSR2", sigusr2)
    ∷ []

unfoldable pub signal_named : Text → List (Text × Signal) → Option Signal
signal_named name [] = none
signal_named name ((n, s) ∷ names) = if str_eq n name then some s else signal_named name names

-- `parse_signal`; `to_uppercase` is that of `str`.
unfoldable pub parse_signal : (Text → Text) → Text → Option Signal
unfolding signal_named
parse_signal to_uppercase name = signal_named (to_uppercase name) signal_names

-- What one `write` to the PTY does: it takes some bytes of those offered, would block, or fails.
pub data Write : Type 0 where
  takes : (n : ℕ) → Write
  would_block write_error : Write

-- How far `write_all_to_fd` is: what the PTY got, and the result once there is one.
abbrev pub Written : Type 0
Written = Bytes × Option (Result (Unit {0}) (Unit {0}))

abbrev pub after_bytes : Bytes → Written → Written
after_bytes bytes (more, r) = (bytes ++ more, r)

-- `write_all_to_fd`, by the outcomes of its writes; it waits when there are no more.
unfoldable pub write_all_to_fd : Bytes → List Write → Written
write_all_to_fd [] ws = ([], some (ok tt))
write_all_to_fd (b ∷ bs) [] = ([], none)
write_all_to_fd (b ∷ bs) (takes n ∷ ws) =
    after_bytes (take n (b ∷ bs)) (write_all_to_fd (drop n (b ∷ bs)) ws)
write_all_to_fd (b ∷ bs) (would_block ∷ ws) = write_all_to_fd (b ∷ bs) ws
write_all_to_fd (b ∷ bs) (write_error ∷ ws) = ([], some (err tt))

-- What the system does on a message: the writes, the `ioctl`, and whether the child has an id.
pub record Kernel : Type 0 where
  pub writes : List Write
  pub ioctl_succeeds : Bool
  pub has_id : Bool

pub data IoEvent : Type 0 where
  -- A chunk from the PTY, and whether the channel takes the message.
  pty_read : Bytes → (sends : Bool) → IoEvent
  pty_end pty_eio pty_error pty_not_ready spurious_wake : IoEvent
  received : ChannelMessage → Kernel → IoEvent
  receive_failed : IoEvent
  child_exited : ExitStatus → IoEvent
  wait_failed : IoEvent

-- What the channel, the PTY and the child got.
pub record IoState : Type 0 where
  pub sent : List ChannelMessage
  pub written : Bytes
  pub sizes : List Winsize
  pub signals : List Signal
  pub killed : Bool

-- The loop goes on, waits in a write, is left by `break`, or returns.
pub data IoFlow : Type 0 where
  pumping stuck broken : IoState → IoFlow
  returned : IoState → Option ℕ → IoFlow

abbrev pub reply_message : Bool → ChannelMessage
reply_message true = request_success
reply_message false = request_failure

abbrev pub send_reply : Bool → ChannelMessage → IoState → IoState
send_reply true m s = record s { sent = s.sent ++ m ∷ [] }
send_reply false m s = s

abbrev pub after_write : IoState → Written → IoFlow
after_write s (bytes, some (ok u)) = pumping (record s { written = s.written ++ bytes })
after_write s (bytes, some (err e)) = returned (record s { written = s.written ++ bytes }) none
after_write s (bytes, none) = stuck (record s { written = s.written ++ bytes })

abbrev pub resize : WindowChangeParams → Bool → IoState → IoState
resize wc true s = record s {
  sizes = s.sizes ++ winsize wc.height_rows wc.width_cols wc.width_px wc.height_px ∷ [];
}
resize wc false s = s

abbrev pub send_signal : Option Signal → Bool → IoState → IoState
send_signal (some sig) true s = record s { signals = s.signals ++ sig ∷ [] }
send_signal _ _ s = s

abbrev pub kill : IoState → IoState
kill s = record s { killed = true }

module _ (to_uppercase : Text → Text) where
  abbrev pub receive_request : RequestType → Bool → Kernel → IoState → IoState
  receive_request (window_change wc) want_reply k s =
      send_reply want_reply (reply_message k.ioctl_succeeds) (resize wc k.ioctl_succeeds s)
  receive_request (signal name) want_reply k s =
      send_reply want_reply request_success
        (send_signal (parse_signal to_uppercase name) k.has_id s)
  receive_request _ want_reply k s = send_reply want_reply request_failure s

  abbrev pub receive : ChannelMessage → Kernel → IoState → IoFlow
  receive (channel_data bytes) k s = after_write s (write_all_to_fd bytes k.writes)
  receive (request request_type want_reply) k s =
      pumping (receive_request request_type want_reply k s)
  receive close k s = broken (kill s)
  receive _ k s = pumping s

  abbrev pub send_chunk : Bytes → Bool → IoState → IoFlow
  send_chunk chunk true s = pumping (record s { sent = s.sent ++ channel_data chunk ∷ [] })
  send_chunk chunk false s = broken (record s { sent = s.sent ++ channel_data chunk ∷ [] })

  abbrev pub io_step : IoState → IoEvent → IoFlow
  io_step s (pty_read chunk sends) = send_chunk chunk sends s
  io_step s pty_end = broken s
  io_step s pty_eio = broken s
  io_step s pty_error = returned s none
  io_step s pty_not_ready = returned s none
  io_step s spurious_wake = pumping s
  io_step s (received m k) = receive m k s
  io_step s receive_failed = broken (kill s)
  io_step s (child_exited status) = returned s (some (exit_code_from_status status))
  io_step s wait_failed = returned s none

  abbrev pub then_step : IoFlow → IoEvent → IoFlow
  then_step (pumping s) e = io_step s e
  then_step (stuck s) e = stuck s
  then_step (broken s) e = broken s
  then_step (returned s r) e = returned s r

  unfoldable pub io_loop : IoFlow → List IoEvent → IoFlow
  io_loop f [] = f
  io_loop f (e ∷ es) = io_loop (then_step f e) es

-- The wait after the loop: at most five seconds.
pub data Wait : Type 0 where
  exits : ExitStatus → Wait
  wait_error timed_out : Wait

abbrev pub after_loop : Wait → IoState → IoState × Option ℕ
after_loop (exits status) s = (s, some (exit_code_from_status status))
after_loop wait_error s = (s, none)
after_loop timed_out s = (kill s, some 255)

-- How far `io_pump` is: it goes on, has failed, or has a status.
pub data Ended : Type 0 where
  running failed : Ended
  with_status : ℕ → Ended

abbrev pub ended_with : IoState × Option ℕ → IoState × Ended
ended_with (s, some status) = (s, with_status status)
ended_with (s, none) = (s, failed)

abbrev pub after_io : Wait → IoFlow → IoState × Ended
after_io wait (pumping s) = (s, running)
after_io wait (stuck s) = (s, running)
after_io wait (broken s) = ended_with (after_loop wait s)
after_io wait (returned s r) = ended_with (s, r)

-- `io_pump`.
unfoldable pub io_pump : (Text → Text) → IoState → List IoEvent → Wait → IoState × Ended
unfolding io_loop
io_pump to_uppercase s events wait = after_io wait (io_loop to_uppercase (pumping s) events)
