-- ===== src/Client/Session/ExitStatus.antt =====
-- What a client (crates/sqsh/src/channel/session.rs) reports of the status of a process.
use squish.Server.Session.Terminal.{IoEvent, Wait}
use squish.Text.{Text}
use squish.Server.Keys.{User}
use squish.Server.Session.Process.{System, run_child}
use squish.Proto.Stream.{FramedBiStream}
use squish.Client.Resolve.{ClientConfig}
use squish.Server.Session.Process.Status.{EndsWith, NoStatus, silent, reports, run_child-EndsWith}
use squish.Proto.Channel.{
  channel_data, extended_data, ChannelMessage, eof, exit_status, PtyReqParams, close,
}
use squish.Client.Session.{
  stdout_pump, stdin_loop, InputEvent, Local, Progress, pump_io, exited_with, after_input,
  stdin_read, resized, window_change_of, is_interactive, stdin_end, stdin_error, stdout_finished,
  ok,
}
use squish.Proto.Message.{Bytes}
use squish.Prelude.{
  ℕ, List, Bool, All, [], ◌++◌, ◌≡◌, ◌≢◌, none, some, ◌∷◌, err, Option, Bool-cases, inl, inr, refl,
  ◌&&◌, not,
}

stdout_pump-NoStatus :
    (accepts : Bytes → Bool) (before after : List ChannelMessage) (out errs : Bytes)
    → All NoStatus before
    → (stdout_pump accepts (before ++ eof ∷ after) out errs).status ≡ none
unfolding stdout_pump
stdout_pump-NoStatus accepts [] after out errs a = refl
stdout_pump-NoStatus accepts (channel_data bytes ∷ ms) after out errs (n, a) =
    elim (Bool-cases (accepts out)) [
      | inl t ↦ rw t (stdout_pump-NoStatus accepts ms after (out ++ bytes) errs a)
      | inr f ↦ rw f refl
    ]
stdout_pump-NoStatus accepts (extended_data k bytes ∷ ms) after out errs (n, a) =
    stdout_pump-NoStatus accepts ms after out (errs ++ bytes) a
stdout_pump-NoStatus accepts (exit_status status ∷ ms) after out errs (n, a) =
    absurd (n status refl)
stdout_pump-NoStatus accepts (eof ∷ ms) after out errs (n, a) = refl
stdout_pump-NoStatus accepts (close ∷ ms) after out errs (n, a) = refl
stdout_pump-NoStatus accepts (_ ∷ ms) after out errs (n, a) =
    stdout_pump-NoStatus accepts ms after out errs a

stdout_pump-silent :
    (accepts : Bytes → Bool) (l : List ChannelMessage) (out errs : Bytes)
    → All NoStatus l
    → (stdout_pump accepts l out errs).status ≡ none
unfolding stdout_pump
stdout_pump-silent accepts [] out errs a = refl
stdout_pump-silent accepts (channel_data bytes ∷ ms) out errs (n, a) =
    elim (Bool-cases (accepts out)) [
      | inl t ↦ rw (stdout_pump, t) (stdout_pump-silent accepts ms (out ++ bytes) errs a)
      | inr f ↦ rw (stdout_pump, f) refl
    ]
stdout_pump-silent accepts (extended_data k bytes ∷ ms) out errs (n, a) =
    stdout_pump-silent accepts ms out (errs ++ bytes) a
stdout_pump-silent accepts (exit_status status ∷ ms) out errs (n, a) = absurd (n status refl)
stdout_pump-silent accepts (eof ∷ ms) out errs (n, a) = refl
stdout_pump-silent accepts (close ∷ ms) out errs (n, a) = refl
stdout_pump-silent accepts (_ ∷ ms) out errs (n, a) = stdout_pump-silent accepts ms out errs a

-- After the messages of a daemon the stdout task has no status.
stdout_pump-EndsWith :
    (accepts : Bytes → Bool) {l : List ChannelMessage}
    → EndsWith l
    → (stdout_pump accepts l [] []).status ≡ none
stdout_pump-EndsWith accepts (silent a) = stdout_pump-silent accepts _ [] [] a
stdout_pump-EndsWith accepts (reports before status a same) =
    rw same (stdout_pump-NoStatus accepts before (exit_status status ∷ close ∷ []) [] [] a)

module _ (link : List ChannelMessage → Bool) where
  stdin_loop-plain :
      (es : List InputEvent) (s : FramedBiStream ChannelMessage) (code : ℕ)
      → (stdin_loop link es s).1 ≢ some (err (exited_with code))
  unfolding stdin_loop
  stdin_loop-plain [] s code = λ q. cc
  stdin_loop-plain (stdin_read chunk ∷ es) s code = elim (Bool-cases (link s.sent)) [
    | inl t ↦
        rw (stdin_loop, t)
          (stdin_loop-plain es (record s { sent = s.sent ++ channel_data chunk ∷ [] }) code)
    | inr f ↦ rw (stdin_loop, f) (λ q. cc)
  ]
  stdin_loop-plain (stdin_end ∷ es) s code = λ q. cc
  stdin_loop-plain (stdin_error ∷ es) s code = λ q. cc
  stdin_loop-plain (resized none ∷ es) s code = stdin_loop-plain es s code
  stdin_loop-plain (resized (some size) ∷ es) s code =
      stdin_loop-plain es (record s { sent = s.sent ++ window_change_of size ∷ [] }) code
  stdin_loop-plain (stdout_finished ∷ es) s code = λ q. cc

module _ (link : List ChannelMessage → Bool) (config : ClientConfig) (l : Local) where
  after_input-plain :
      (x : Progress link config l) (code : ℕ)
      → x.1 ≢ some (err (exited_with code))
      → (after_input link config l none x).1 ≢ some (err (exited_with code))
  after_input-plain (s, none) code n = n
  after_input-plain (s, some (err e)) code n = n
  after_input-plain (s, some (ok u)) code n = elim (Bool-cases (link s.sent)) [
    | inl t ↦ rw t (λ q. cc)
    | inr f ↦ rw f (λ q. cc)
  ]

  -- A client whose stream brings what the daemon sends for a shell or a command never reports the
  -- status of the process, whatever that status, the client's input and the failures of writing.
  -- The code means to: a status other than zero is an error of its own there.
  pub pump_io-unreported :
      (events : List InputEvent) (s : FramedBiStream ChannelMessage) (code : ℕ) (sys : System)
      (user : User) (command : Option Text) (pty : Option PtyReqParams)
      (env_vars : List (Text × Text)) (io : List IoEvent) (w : Wait)
      → s.incoming ≡ (run_child sys user [] command pty env_vars io w).0
      → (pump_io link config l events s).1 ≢ some (err (exited_with code))
  unfolding pump_io
  pump_io-unreported events s code sys user command pty env_vars io w same =
      let ends = run_child-EndsWith sys user [] command pty env_vars io w tt in
      let no_status = stdout_pump-EndsWith l.accepts (rw (← same) at ends) in
      elim (Bool-cases (is_interactive config && not l.raw_mode)) [
        | inl t ↦ rw t (λ q. cc)
        | inr f ↦ elim (Bool-cases (not l.sigwinch)) [
          | inl t ↦ rw (f, t) (λ q. cc)
          | inr g ↦
              rw (f, g, no_status)
                (after_input-plain (stdin_loop link events s) code
                  (stdin_loop-plain link events s code))
        ]
      ]
