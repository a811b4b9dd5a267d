-- ===== src/Client/Session/Launched.antt =====
-- What the requests of a client (crates/sqsh/src/channel/session.rs) start at the daemon
-- (crates/sqshd/src/channel/session.rs).
use squish.Client.Session.Requested.{pty_requests, start_session-Sends, requests_of}
use squish.Proto.Stream.Steps.{with_result}
use squish.Server.Keys.{User}
use squish.Server.Dispatch.{dispatch_channel, session_handler}
use squish.Proto.Stream.{fresh}
use squish.Server.Session.{
  Session, session_loop, add_env, Launch, run_subsystem, env_limit, closed_channel, run_child,
  finish_session, new_session, handle,
}
use squish.Server.Config.{ServerConfig, env_accepted, resolve_subsystem}
use squish.Client.Session.{
  Terminal, start_session, is_interactive, pty_params, env_request, process_request, forwarded_env,
}
use squish.Proto.Channel.{PtyReqParams, ChannelMessage, request, request_success}
use squish.Client.Resolve.{ClientConfig}
use squish.Text.{Text}
use squish.Prelude.{
  List, Bool, Option, length, map, ◌≡◌, true, ◌∷◌, ◌++◌, [], Bool-cases, ◌≤◌, if◌then◌else◌, refl,
  false, ◌∙◌, Option-cases, ◌&&◌, take, append-nil, ltb, none, inl, take-all, inr, arith,
  length-append, ltb→lt, ap, append_assoc, take-full, sym, some, ok,
}

module _ (exists : Text → Bool) (config : ServerConfig) (link : List ChannelMessage → Bool) where
  -- The variables that the daemon takes over.
  unfoldable pub accepted_env : List (Text × Text) → List (Text × Text)
  accepted_env [] = []
  accepted_env ((k, v) ∷ vars) =
      let rest = accepted_env vars in if env_accepted config k then (k, v) ∷ rest else rest

  -- What is to be started for the fields of a client's settings.
  abbrev pub subsystem_launch : Option Text → List (Text × Text) → Launch
  subsystem_launch (some command) vars = run_subsystem command vars
  subsystem_launch none vars = closed_channel

  abbrev pub launch_of :
      Option Text → Option Text → Option PtyReqParams → List (Text × Text) → Launch
  launch_of (some name) command pty vars =
      subsystem_launch (resolve_subsystem exists config name) vars
  launch_of none command pty vars = run_child command pty vars

  add_all : List (Text × Text) → Session → Session
  add_all [] s = s
  add_all ((k, v) ∷ vars) s = add_all vars (add_env exists config link k v s)

  add_env-sent :
      (k v : Text) (s : Session)
      → ((add_env exists config link k v s).sent ≡ s.sent)
        × ((add_env exists config link k v s).pty_params ≡ s.pty_params)
  unfolding add_env
  add_env-sent k v s =
      elim (Bool-cases (env_accepted config k && ltb (length s.env_vars) env_limit)) [
        | inl t ↦ rw t (refl, refl)
        | inr f ↦ rw f (refl, refl)
      ]

  add_env-taken :
      (k v : Text) (s : Session)
      → env_accepted config k ≡ true
      → ltb (length s.env_vars) env_limit ≡ true
      → add_env exists config link k v s ≡ record s { env_vars = s.env_vars ++ (k, v) ∷ [] }
  unfolding add_env
  add_env-taken k v s t more = rw (t, more) refl

  add_env-left :
      (k v : Text) (s : Session)
      → env_accepted config k && ltb (length s.env_vars) env_limit ≡ false
      → add_env exists config link k v s ≡ s
  unfolding add_env
  add_env-left k v s f = rw f refl

  session_loop-env :
      (vars : List (Text × Text)) (rest : List ChannelMessage) (s : Session)
      → session_loop exists config link (map env_request vars ++ rest) s
        ≡ session_loop exists config link rest (add_all vars s)
  unfolding session_loop add_all
  session_loop-env [] rest s = refl
  session_loop-env ((k, v) ∷ vars) rest s =
      session_loop-env vars rest (add_env exists config link k v s)

  add_all-pty :
      (vars : List (Text × Text)) (s : Session) → (add_all vars s).pty_params ≡ s.pty_params
  unfolding add_all
  add_all-pty [] s = refl
  add_all-pty ((k, v) ∷ vars) s =
      add_all-pty vars (add_env exists config link k v s) ∙ (add_env-sent k v s).1

  -- The variables accumulate up to the limit.
  add_all-env :
      (vars : List (Text × Text)) (s : Session)
      → length s.env_vars ≤ env_limit
      → (add_all vars s).env_vars ≡ take env_limit (s.env_vars ++ accepted_env vars)
  unfolding add_all accepted_env
  add_all-env [] s h = rw (append-nil s.env_vars, take-all env_limit s.env_vars h) refl
  add_all-env ((k, v) ∷ vars) s h = elim (Bool-cases (env_accepted config k)) [
    | inr f ↦ rw f (
        ap (λ r. (add_all vars r).env_vars) (add_env-left k v s (rw f refl)) ∙ add_all-env vars s h)
    | inl t ↦ elim (Bool-cases (ltb (length s.env_vars) env_limit)) [
      | inl more ↦
          let s' : Session = record s { env_vars = s.env_vars ++ (k, v) ∷ [] } in
          let h' : length s'.env_vars ≤ env_limit =
            omega (arith, length-append s.env_vars ((k, v) ∷ []), ltb→lt _ _ more) in
          rw t (
            ap (λ r. (add_all vars r).env_vars) (add_env-taken k v s t more)
            ∙ (add_all-env vars s' h'
                ∙ ap (take env_limit) (append_assoc s.env_vars ((k, v) ∷ []) (accepted_env vars))))
      | inr no_more ↦
          let full : length s.env_vars ≡ env_limit = ground (arith, no_more, h) in
          rw t (
            ap (λ r. (add_all vars r).env_vars) (add_env-left k v s (rw (t, no_more) refl))
            ∙ (add_all-env vars s h
                ∙ (take-full env_limit s.env_vars (accepted_env vars) full
                    ∙ sym (take-full env_limit s.env_vars ((k, v) ∷ accepted_env vars) full))))
    ]
  ]

  last_launch :
      (sub command : Option Text) (s : Session)
      → ((sent : List ChannelMessage) → link sent ≡ true)
      → (session_loop exists config link (request (process_request sub command) true ∷ []) s).1
        ≡ some (launch_of sub command s.pty_params s.env_vars)
  unfolding session_loop
  last_launch (some name) command s up =
      elim (Option-cases (resolve_subsystem exists config name)) [
        | inl n ↦ rw (session_loop, n, up s.sent, up _) refl
        | inr (c, e) ↦ rw (session_loop, e, up s.sent) refl
      ]
  last_launch none (some command) s up = rw (session_loop, up s.sent) refl
  last_launch none none s up = rw (session_loop, up s.sent) refl

  finish_session-launch :
      (x : Session × Option Launch) {launch : Launch}
      → x.1 ≡ some launch
      → (finish_session exists config link x).1 ≡ ok launch
  finish_session-launch x {launch} h =
      let same : x ≡ (x.0, some launch) = ap (λ r. (x.0, r)) h in rw same refl

  request_pty-session_loop :
      (b : Bool) (p : PtyReqParams) (rest : List ChannelMessage)
      → ((sent : List ChannelMessage) → link sent ≡ true)
      → (s : Session) × (session_loop exists config link (pty_requests b p ++ rest) new_session
          ≡ session_loop exists config link rest s)
        × (s.env_vars ≡ [])
        × (s.pty_params ≡ (if b then some p else none))
  unfolding session_loop
  request_pty-session_loop true p rest up = (
    record { pty_params = some p; env_vars = []; sent = request_success ∷ [] },
    rw (session_loop, up []) refl,
    refl,
    refl,
  )
  request_pty-session_loop false p rest up = (new_session, refl, refl, refl)

  requests_of-session_loop :
      (c : ClientConfig) (t : Terminal)
      → ((sent : List ChannelMessage) → link sent ≡ true)
      → (session_loop exists config link (requests_of c t) new_session).1
        ≡ some (
            launch_of c.subsystem c.command
              (if is_interactive c then some (pty_params t) else none)
              (take env_limit (accepted_env (forwarded_env t.vars))))
  requests_of-session_loop c t up =
      let vars = forwarded_env t.vars in
      let last = request (process_request c.subsystem c.command) true ∷ [] in
      let (s, first, no_vars, pty) =
        request_pty-session_loop (is_interactive c) (pty_params t) (map env_request vars ++ last)
          up in
      let all = add_all-env vars s (rw no_vars (omega arith)) in
      rw
        (
          first,
          session_loop-env vars last s,
          last_launch c.subsystem c.command (add_all vars s) up,
          add_all-pty vars s,
          all,
          no_vars,
          pty,
        )
        refl

  -- A session that a client has started, with an open channel and every reply, runs what the
  -- client's settings say at a daemon whose replies go through: the subsystem that the name
  -- resolves to, else the command, else a shell; with the client's PTY if there is neither; and
  -- with the first 64 of the variables that the client forwards and the daemon accepts.
  pub start_session-launches :
      (client_link : List ChannelMessage → Bool) (c : ClientConfig) (t : Terminal)
      (incoming : List ChannelMessage) (user : User)
      → (start_session client_link c t (fresh incoming)).1 ≡ ok tt
      → ((sent : List ChannelMessage) → link sent ≡ true)
      → let dispatched =
          dispatch_channel config link
            (fresh (start_session client_link c t (fresh incoming)).0.sent) in
        (dispatched.1 ≡ ok session_handler)
        × ((handle exists config link (ok (some user)) dispatched.0.incoming).1
            ≡ ok (
                launch_of c.subsystem c.command
                  (if is_interactive c then some (pty_params t) else none)
                  (take env_limit (accepted_env (forwarded_env t.vars)))))
  unfolding dispatch_channel handle
  start_session-launches client_link c t incoming user h up =
      let all_sent =
        start_session-Sends client_link c t (fresh incoming) _ tt
          (with_result (start_session client_link c t (fresh incoming)) h) in
      rw (all_sent, up [])
        (
          refl,
          finish_session-launch (session_loop exists config link (requests_of c t) new_session)
              (requests_of-session_loop c t up),
        )
