-- ===== src/Client/Session/Delivered.antt =====
-- The output of a subsystem of the daemon (crates/sqshd/src/channel/session.rs) at a client
-- (crates/sqsh/src/channel/session.rs).
use squish.Proto.Channel.{ChannelMessage, extended_data, channel_data, eof, close, exit_status}
use squish.Server.Session.Process.{
  pipe_loop, PipeFlow, PipeState, PipeEvent, left, stdout_read, stderr_read, piping,
  message_received, stderr_end, stdout_end, stream_ended, child_waited, pipe_in, System,
  run_subsystem, end_messages, spawn_subsystem, shell_command, fresh_pipes, finish_pipes,
  pipe_status,
}
use squish.Server.Session.Child.{ChildSetup, configure_child, ExitStatus}
use squish.Server.Keys.{User}
use squish.Text.{Text}
use squish.Client.Session.{stdout_pump, Output, eof, channel_data, extended_data}
use squish.Proto.Message.{Bytes}
use squish.Prelude.{
  List, Bool, ◌++◌, ◌≡◌, ◌∷◌, [], true, false, sym, All, refl, none, if◌then◌else◌, ◌∙◌, append-nil,
  append_assoc, inl, inr, Option-cases, Option, ap, ℕ, Bool-cases, some, ok,
}

-- The send of a chunk does not fail.
abbrev pub GoesThrough : PipeEvent → Type 0
GoesThrough (stdout_read chunk sends) = sends ≡ true
GoesThrough _ = Unit {0}

-- What is read of the child's stdout until its end, or until the client leaves.
unfoldable pub child_stdout : List PipeEvent → Bytes
child_stdout (stdout_read chunk sends ∷ es) = chunk ++ child_stdout es
child_stdout (stdout_end ∷ es) = []
child_stdout (message_received close writes ∷ es) = []
child_stdout (stream_ended ∷ es) = []
child_stdout (_ ∷ es) = child_stdout es
child_stdout [] = []

-- What is read of its stderr until then, and until the end of stderr.
unfoldable pub child_stderr : (done : Bool) → List PipeEvent → Bytes
child_stderr done (stderr_read chunk ∷ es) =
    let rest = child_stderr done es in if done then rest else chunk ++ rest
child_stderr done (stderr_end ∷ es) = child_stderr true es
child_stderr done (stdout_end ∷ es) = []
child_stderr done (message_received close writes ∷ es) = []
child_stderr done (stream_ended ∷ es) = []
child_stderr done (_ ∷ es) = child_stderr done es
child_stderr done [] = []

abbrev all_written : Bytes → Bool
all_written written = true

abbrev output : Bytes → Bytes → Output
output out errs = record { stdout = out; stderr = errs; status = none }

-- The messages after `before`, as the client's stdout task takes them up to `Eof`.
record Delivers (before sent : List ChannelMessage) (out errs : Bytes) : Type 0 where
  messages : List ChannelMessage
  parts : sent ≡ before ++ messages
  pumped :
      (first first_errs : Bytes) (rest : List ChannelMessage)
      → stdout_pump all_written (messages ++ eof ∷ rest) first first_errs
        ≡ output (first ++ out) (first_errs ++ errs)

Delivers-nothing : (sent : List ChannelMessage) → Delivers sent sent [] []
unfolding stdout_pump
Delivers-nothing sent = record {
  messages = [];
  parts = sym (append-nil sent);
  pumped = λ first first_errs rest. rw (append-nil first, append-nil first_errs) refl;
}

Delivers-data :
    (before : List ChannelMessage) (chunk : Bytes) {sent : List ChannelMessage} {out errs : Bytes}
    → Delivers (before ++ channel_data chunk ∷ []) sent out errs
    → Delivers before sent (chunk ++ out) errs
unfolding stdout_pump
Delivers-data before chunk {out = out} d = record {
  messages = channel_data chunk ∷ d.messages;
  parts = d.parts ∙ append_assoc before (channel_data chunk ∷ []) d.messages;
  pumped = λ first first_errs rest.
      rw (← append_assoc first chunk out) (d.pumped (first ++ chunk) first_errs rest);
}

Delivers-extended :
    (before : List ChannelMessage) (chunk : Bytes) {sent : List ChannelMessage} {out errs : Bytes}
    → Delivers (before ++ extended_data 1 chunk ∷ []) sent out errs
    → Delivers before sent out (chunk ++ errs)
unfolding stdout_pump
Delivers-extended before chunk {errs = errs} d = record {
  messages = extended_data 1 chunk ∷ d.messages;
  parts = d.parts ∙ append_assoc before (extended_data 1 chunk ∷ []) d.messages;
  pumped = λ first first_errs rest.
      rw (← append_assoc first_errs chunk errs) (d.pumped first (first_errs ++ chunk) rest);
}

pipe_loop-left : (s : PipeState) (es : List PipeEvent) → pipe_loop (left s) es ≡ left s
unfolding pipe_loop
pipe_loop-left s [] = refl
pipe_loop-left s (e ∷ es) = pipe_loop-left s es

-- The loop was left, in a state that had sent this.
abbrev Leaves : PipeFlow → List ChannelMessage → Type 0
Leaves (piping s) sent = ⊥
Leaves (left s) sent = s.sent ≡ sent

left-Delivers :
    (s : PipeState) (es : List PipeEvent) {sent : List ChannelMessage}
    → Leaves (pipe_loop (left s) es) sent
    → Delivers s.sent sent [] []
left-Delivers s es h =
    let same : s.sent ≡ _ = rw (pipe_loop-left s es) at h in rw (← same) (Delivers-nothing s.sent)

-- Data for the child changes neither what is sent nor whether stderr has ended.
pipe_in-sent :
    (bytes : Bytes) (is_open writes : Bool) (s : PipeState)
    → ((pipe_in bytes is_open writes s).sent ≡ s.sent)
      × ((pipe_in bytes is_open writes s).stderr_done ≡ s.stderr_done)
pipe_in-sent bytes true true s = (refl, refl)
pipe_in-sent bytes true false s = (refl, refl)
pipe_in-sent bytes false writes s = (refl, refl)

pipe_loop-Delivers :
    (s : PipeState) (done : Bool) (es : List PipeEvent) {sent : List ChannelMessage}
    → s.stderr_done ≡ done
    → All GoesThrough es
    → Leaves (pipe_loop (piping s) es) sent
    → Delivers s.sent sent (child_stdout es) (child_stderr done es)
unfolding pipe_loop child_stdout child_stderr
pipe_loop-Delivers s done [] q a h = absurd h
pipe_loop-Delivers s done (stdout_read chunk true ∷ es) q (t, a) h =
    Delivers-data s.sent chunk
      (pipe_loop-Delivers (record s { sent = s.sent ++ channel_data chunk ∷ [] }) done es q a h)
pipe_loop-Delivers s done (stdout_read chunk false ∷ es) q (t, a) h = cc
pipe_loop-Delivers s done (stdout_end ∷ es) q (t, a) h = left-Delivers s es h
pipe_loop-Delivers s true (stderr_read chunk ∷ es) q (t, a) h =
    pipe_loop-Delivers (record s { stderr_done = true }) true es refl a (rw q at h)
pipe_loop-Delivers s false (stderr_read chunk ∷ es) q (t, a) h = Delivers-extended s.sent chunk (
    pipe_loop-Delivers
      (record s { sent = s.sent ++ extended_data 1 chunk ∷ []; stderr_done = false }) false es refl
      a (rw q at h))
pipe_loop-Delivers s done (stderr_end ∷ es) q (t, a) h =
    pipe_loop-Delivers (record s { stderr_done = true }) true es refl a h
pipe_loop-Delivers s done (message_received (channel_data bytes) writes ∷ es) q (t, a) h =
    let (same, kept) = pipe_in-sent bytes s.stdin_open writes s in
    let s' = pipe_in bytes s.stdin_open writes s in
    rw same at (pipe_loop-Delivers s' done es (kept ∙ q) a h)
pipe_loop-Delivers s done (message_received eof writes ∷ es) q (t, a) h =
    pipe_loop-Delivers (record s { stdin_open = false }) done es q a h
pipe_loop-Delivers s done (message_received close writes ∷ es) q (t, a) h =
    left-Delivers (record s { killed = true }) es h
pipe_loop-Delivers s done (message_received _ writes ∷ es) q (t, a) h =
    pipe_loop-Delivers s done es q a h
pipe_loop-Delivers s done (stream_ended ∷ es) q (t, a) h =
    left-Delivers (record s { killed = true }) es h
pipe_loop-Delivers s done (child_waited w ∷ es) q (t, a) h = elim (Option-cases s.status) [
  | inl n ↦ pipe_loop-Delivers (record s { status = w }) done es q a (rw n at h)
  | inr (status, e) ↦ pipe_loop-Delivers (record s { status = some status }) done es q a (rw e at h)
]

finish_pipes-Leaves :
    (w : Option ExitStatus) (f : PipeFlow) (sent : List ChannelMessage) (status : ℕ)
    → finish_pipes w f ≡ (sent, some (ok status))
    → (before : List ChannelMessage) × Leaves f before × (sent ≡ before ++ end_messages status)
finish_pipes-Leaves w (piping s) sent status h = cc
finish_pipes-Leaves w (left s) sent status h =
    let same : s.sent ++ end_messages (pipe_status s.status w) ≡ sent = ap (λ x. x.0) h in
    let code : pipe_status s.status w ≡ status = cc (ap (λ x. x.1) h) in
    (s.sent, refl, sym same ∙ ap (λ n. s.sent ++ end_messages n) code)

spawn_subsystem-Delivers :
    (sys : System) (user : User) (setup : Option ChildSetup) (command : Text)
    (events : List PipeEvent) (w : Option ExitStatus) (sent : List ChannelMessage) (status : ℕ)
    → All GoesThrough events
    → spawn_subsystem sys user [] setup command events w ≡ (sent, some (ok status))
    → stdout_pump all_written sent [] [] ≡ output (child_stdout events) (child_stderr false events)
spawn_subsystem-Delivers sys user none command events w sent status a h = cc
spawn_subsystem-Delivers sys user (some setup) command events w sent status a h =
    elim (Bool-cases (sys.spawn (shell_command user (some command) setup))) [
      | inr f ↦ cc (rw f at h)
      | inl t ↦
          let (before, leaves, same) =
            finish_pipes-Leaves w (pipe_loop (piping (fresh_pipes [])) events) sent status
              (rw t at h) in
          let d = pipe_loop-Delivers (fresh_pipes []) false events refl a leaves in
          rw (same, d.parts) (d.pumped [] [] (exit_status status ∷ close ∷ []))
    ]

-- A subsystem that ends with a status, and all of whose chunks go through, gives a client that can
-- write all it gets exactly the bytes that were read of its stdout, up to the end of stdout or the
-- client's leaving, and of its stderr, each in order, whatever the client sent meanwhile and
-- however the two were interleaved.
pub run_subsystem-transparent :
    (sys : System) (user : User) (command : Text) (env_vars : List (Text × Text))
    (events : List PipeEvent) (w : Option ExitStatus) (sent : List ChannelMessage) (status : ℕ)
    → All GoesThrough events
    → run_subsystem sys user [] command env_vars events w ≡ (sent, some (ok status))
    → stdout_pump all_written sent [] [] ≡ output (child_stdout events) (child_stderr false events)
unfolding run_subsystem
run_subsystem-transparent sys user command env_vars events w sent status a h =
    spawn_subsystem-Delivers sys user (configure_child sys.effective_uid user env_vars none none)
      command events w sent status a h
