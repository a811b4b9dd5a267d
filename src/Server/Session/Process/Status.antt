-- ===== src/Server/Session/Process/Status.antt =====
-- How a process's channel ends (crates/sqshd/src/channel/session.rs).
use squish.Server.Session.Child.{ChildSetup, configure_child}
use squish.Server.Keys.{User}
use squish.Server.Session.Terminal.{
  received, IoFlow, Wait, IoState, Kernel, Written, reply_message, io_loop, IoEvent, Signal, resize,
  pumping, ended_with, send_reply, io_pump, io_step, after_loop, send_signal, after_write, after_io,
  receive, receive_request, stuck, then_step, broken, pty_read, exits, write_all_to_fd, wait_error,
  returned, timed_out, parse_signal,
}
use squish.Proto.Channel.{
  WindowChangeParams, ChannelMessage, RequestType, exit_status, PtyReqParams, window_change,
  channel_data, signal, request_success, request, close, request_failure,
}
use squish.Server.Session.Process.{
  System, finish_child, run_child, spawn_child, end_messages, winsize_of, shell_command, fresh_io,
  term_of,
}
use squish.Text.{Text}
use squish.Prelude.{
  ℕ, List, Option, Bool, All, ◌≢◌, ◌≡◌, ◌++◌, ◌∷◌, true, [], some, none, false, Bool-cases,
  All-append, ok, refl, err, inr, inl,
}

-- Not the report of a status.
abbrev pub NoStatus : ChannelMessage → Type 0
NoStatus m = (status : ℕ) → m ≢ exit_status status

-- Only the end of a channel has a status, and it comes after `Eof`.
pub data EndsWith (sent : List ChannelMessage) : Type 0 where
  silent : All NoStatus sent → EndsWith sent
  reports :
      (before : List ChannelMessage) (status : ℕ)
      → All NoStatus before
      → sent ≡ before ++ end_messages status
      → EndsWith sent

pub snoc-NoStatus :
    (l : List ChannelMessage) (m : ChannelMessage)
    → All NoStatus l
    → NoStatus m
    → All NoStatus (l ++ m ∷ [])
snoc-NoStatus l m a n = All-append NoStatus l (m ∷ []) a (n, tt)

abbrev IoNoStatus : IoFlow → Type 0
IoNoStatus (pumping s) = All NoStatus s.sent
IoNoStatus (stuck s) = All NoStatus s.sent
IoNoStatus (broken s) = All NoStatus s.sent
IoNoStatus (returned s r) = All NoStatus s.sent

send_reply-NoStatus :
    (b : Bool) (m : ChannelMessage) (s : IoState)
    → NoStatus m
    → All NoStatus s.sent
    → All NoStatus (send_reply b m s).sent
send_reply-NoStatus true m s n a = snoc-NoStatus s.sent m a n
send_reply-NoStatus false m s n a = a

after_write-NoStatus :
    (s : IoState) (w : Written) → All NoStatus s.sent → IoNoStatus (after_write s w)
after_write-NoStatus s (bytes, some (ok u)) a = a
after_write-NoStatus s (bytes, some (err e)) a = a
after_write-NoStatus s (bytes, none) a = a

reply_message-NoStatus : (b : Bool) → NoStatus (reply_message b)
reply_message-NoStatus true status = λ q. cc
reply_message-NoStatus false status = λ q. cc

resize-sent : (wc : WindowChangeParams) (b : Bool) (s : IoState) → (resize wc b s).sent ≡ s.sent
resize-sent wc true s = refl
resize-sent wc false s = refl

send_signal-sent :
    (sig : Option Signal) (b : Bool) (s : IoState) → (send_signal sig b s).sent ≡ s.sent
send_signal-sent none b s = refl
send_signal-sent (some sig) true s = refl
send_signal-sent (some sig) false s = refl

module _ (up : Text → Text) where
  request-NoStatus :
      (r : RequestType) (want : Bool) (k : Kernel) (s : IoState)
      → All NoStatus s.sent
      → All NoStatus (receive_request up r want k s).sent
  request-NoStatus (window_change wc) want k s a =
      send_reply-NoStatus want (reply_message k.ioctl_succeeds) (resize wc k.ioctl_succeeds s)
        (reply_message-NoStatus k.ioctl_succeeds) (rw (resize-sent wc k.ioctl_succeeds s) a)
  request-NoStatus (signal name) want k s a =
      send_reply-NoStatus want request_success (send_signal (parse_signal up name) k.has_id s)
        (λ n q. cc) (rw (send_signal-sent (parse_signal up name) k.has_id s) a)
  request-NoStatus _ want k s a = send_reply-NoStatus want request_failure s (λ n q. cc) a

  receive-NoStatus :
      (m : ChannelMessage) (k : Kernel) (s : IoState)
      → All NoStatus s.sent
      → IoNoStatus (receive up m k s)
  receive-NoStatus (channel_data bytes) k s a =
      after_write-NoStatus s (write_all_to_fd bytes k.writes) a
  receive-NoStatus (request r want) k s a = request-NoStatus r want k s a
  receive-NoStatus close k s a = a
  receive-NoStatus _ k s a = a

  io_step-NoStatus : (s : IoState) (e : IoEvent) → All NoStatus s.sent → IoNoStatus (io_step up s e)
  io_step-NoStatus s (pty_read chunk true) a =
      snoc-NoStatus s.sent (channel_data chunk) a (λ n q. cc)
  io_step-NoStatus s (pty_read chunk false) a =
      snoc-NoStatus s.sent (channel_data chunk) a (λ n q. cc)
  io_step-NoStatus s (received m k) a = receive-NoStatus m k s a
  io_step-NoStatus s _ a = a

  then_step-NoStatus : (f : IoFlow) (e : IoEvent) → IoNoStatus f → IoNoStatus (then_step up f e)
  then_step-NoStatus (pumping s) e a = io_step-NoStatus s e a
  then_step-NoStatus (stuck s) e a = a
  then_step-NoStatus (broken s) e a = a
  then_step-NoStatus (returned s r) e a = a

  io_loop-NoStatus : (f : IoFlow) (es : List IoEvent) → IoNoStatus f → IoNoStatus (io_loop up f es)
  unfolding io_loop
  io_loop-NoStatus f [] a = a
  io_loop-NoStatus f (e ∷ es) a = io_loop-NoStatus (then_step up f e) es (then_step-NoStatus f e a)

ended_with-EndsWith :
    (x : IoState × Option ℕ) → All NoStatus x.0.sent → EndsWith (finish_child (ended_with x)).0
ended_with-EndsWith (s, some status) a = reports s.sent status a refl
ended_with-EndsWith (s, none) a = silent a

after_loop-NoStatus :
    (w : Wait) (s : IoState) → All NoStatus s.sent → All NoStatus (after_loop w s).0.sent
after_loop-NoStatus (exits status) s a = a
after_loop-NoStatus wait_error s a = a
after_loop-NoStatus timed_out s a = a

after_io-EndsWith :
    (w : Wait) (f : IoFlow) → IoNoStatus f → EndsWith (finish_child (after_io w f)).0
after_io-EndsWith w (pumping s) a = silent a
after_io-EndsWith w (stuck s) a = silent a
after_io-EndsWith w (broken s) a = ended_with-EndsWith (after_loop w s) (after_loop-NoStatus w s a)
after_io-EndsWith w (returned s r) a = ended_with-EndsWith (s, r) a

module _ (sys : System) (user : User) (sent : List ChannelMessage) where
  spawn_child-EndsWith :
      (setup : Option ChildSetup) (command : Option Text) (events : List IoEvent) (w : Wait)
      → All NoStatus sent
      → EndsWith (spawn_child sys user sent setup command events w).0
  unfolding io_pump
  spawn_child-EndsWith none command events w a = silent a
  spawn_child-EndsWith (some setup) command events w a =
      elim (Bool-cases (sys.spawn (shell_command user command setup))) [
        | inr f ↦ rw f (silent a)
        | inl t ↦ rw t (
            after_io-EndsWith w (io_loop sys.to_uppercase (pumping (fresh_io sent)) events)
              (io_loop-NoStatus sys.to_uppercase (pumping (fresh_io sent)) events a))
      ]

  -- However a shell or a command runs, its channel reports no status but in the three messages
  -- that end it, and there after `Eof`.
  pub run_child-EndsWith :
      (command : Option Text) (pty : Option PtyReqParams) (env_vars : List (Text × Text))
      (events : List IoEvent) (w : Wait)
      → All NoStatus sent
      → EndsWith (run_child sys user sent command pty env_vars events w).0
  unfolding run_child
  run_child-EndsWith command pty env_vars events w a =
      elim (Bool-cases (sys.openpty (winsize_of pty))) [
        | inr f ↦ rw f (silent a)
        | inl t ↦ rw t (
            spawn_child-EndsWith
              (configure_child sys.effective_uid user env_vars (some (term_of pty))
                (some sys.slave_fd))
              command events w a)
      ]
