-- ===== src/Client/Session/Requested.antt =====
-- What a client's session (crates/sqsh/src/channel/session.rs) has sent once it is started.
use squish.Proto.Stream.{recv, send}
use squish.Proto.Stream.Sends.{Sends, pure-Sends, >>=-Sends, send-Sends, recv-Sends}
use squish.Client.Session.{
  Terminal, start_session, is_interactive, send_env, open_session, request_pty, pty_params,
  expect_confirmation, ask, env_request, process_request, forwarded_env, stream_failed,
}
use squish.Proto.Channel.{
  session, open_confirmation, open_failure, PtyReqParams, ChannelMessage, RequestType, request,
  open_channel, pty_req, session_params,
}
use squish.Client.Resolve.{ClientConfig}
use squish.Text.{Text}
use squish.Prelude.{List, Bool, map, true, ◌∷◌, ◌++◌, [], false}

-- The requests of a session, in order.
abbrev pub pty_requests : Bool → PtyReqParams → List ChannelMessage
pty_requests true params = request (pty_req params) true ∷ []
pty_requests false params = []

abbrev pub requests_of : ClientConfig → Terminal → List ChannelMessage
requests_of config t =
    pty_requests (is_interactive config) (pty_params t)
    ++ (map env_request (forwarded_env t.vars)
        ++ request (process_request config.subsystem config.command) true ∷ [])

module _ (link : List ChannelMessage → Bool) where
  ask-Sends : (r : RequestType) → Sends (ask link r) (request r true ∷ [])
  ask-Sends r =
      >>=-Sends (send link stream_failed (request r true)) _ (request r true ∷ []) []
        (send-Sends link stream_failed (request r true))
        λ u. >>=-Sends (recv stream_failed) _ [] [] (recv-Sends stream_failed) λ m. pure-Sends tt

  expect_confirmation-Sends : (m : ChannelMessage) → Sends (expect_confirmation m) []
  expect_confirmation-Sends (open_confirmation size) s t u h = pure-Sends tt s t u h
  expect_confirmation-Sends (open_failure reason description) s t u h = cc
  expect_confirmation-Sends _ s t u h = cc

  open_session-Sends : Sends (open_session link) (open_channel session session_params ∷ [])
  open_session-Sends =
      let opening = open_channel session session_params in
      >>=-Sends (send link stream_failed opening) _ (opening ∷ []) []
        (send-Sends link stream_failed opening)
        λ u.
          >>=-Sends (recv stream_failed) expect_confirmation [] [] (recv-Sends stream_failed)
            expect_confirmation-Sends

  request_pty-Sends :
      (b : Bool) (p : PtyReqParams) → Sends (request_pty link b p) (pty_requests b p)
  request_pty-Sends true p = ask-Sends (pty_req p)
  request_pty-Sends false p = pure-Sends tt

  send_env-Sends : (vars : List (Text × Text)) → Sends (send_env link vars) (map env_request vars)
  unfolding send_env
  send_env-Sends [] = pure-Sends tt
  send_env-Sends (v ∷ vars) =
      >>=-Sends (send link stream_failed (env_request v)) _ (env_request v ∷ [])
        (map env_request vars) (send-Sends link stream_failed (env_request v))
        λ u. send_env-Sends vars

  pub start_session-Sends :
      (config : ClientConfig) (t : Terminal)
      → Sends
          (start_session link config t)
          (open_channel session session_params ∷ requests_of config t)
  unfolding start_session
  start_session-Sends config t =
      let last = process_request config.subsystem config.command in
      >>=-Sends (open_session link) _ (open_channel session session_params ∷ [])
        (requests_of config t) open_session-Sends
        λ u.
          >>=-Sends (request_pty link (is_interactive config) (pty_params t)) _
            (pty_requests (is_interactive config) (pty_params t))
            (map env_request (forwarded_env t.vars) ++ request last true ∷ [])
            (request_pty-Sends (is_interactive config) (pty_params t))
            λ v.
              >>=-Sends (send_env link (forwarded_env t.vars)) _
                (map env_request (forwarded_env t.vars)) (request last true ∷ [])
                (send_env-Sends (forwarded_env t.vars)) λ w. ask-Sends last
