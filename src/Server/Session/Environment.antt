-- ===== src/Server/Session/Environment.antt =====
-- The variables that are set for a process (crates/sqshd/src/channel/session.rs).
use squish.Server.Config.Accepted.{Covers, env_accepted_iff}
use squish.Server.Session.{
  Launch, Session, add_env, Turn, turn, run_child, goes_on, env_limit, run_subsystem, returns,
  fails, closed_channel, session_loop, reply_if, send_then, request_turn, new_session,
  open_subsystem,
}
use squish.Proto.Channel.{
  ChannelMessage, RequestType, request, close, eof, request_success, env, request_failure,
  subsystem, signal, pty_req,
}
use squish.Server.Config.{ServerConfig, env_accepted, resolve_subsystem}
use squish.Text.{Text}
use squish.Server.Keys.{User}
use squish.Server.Session.Child.{configure_child, ChildSetup, term_call, identity_calls}
use squish.Server.Session.Process.{System, child_setup, subsystem_setup, term_of}
use squish.Prelude.{
  ◌≡◌, Bool, List, length, Bool-cases, ◌≤◌, All, [], ◌&&◌, Any, ltb, inr, inl, and-eq-true, arith,
  length-append, ◌∷◌, ltb→lt, All-append, Option, ◌++◌, true, some, some-injective, refl, false,
  none, ℕ,
}

configure_child-env_calls :
    (effective_uid : ℕ) (user : User) (vars : List (Text × Text)) (term : Option Text)
    (tty : Option ℕ) {setup : ChildSetup}
    → configure_child effective_uid user vars term tty ≡ some setup
    → setup.env_calls ≡ vars ++ (term_call term ++ identity_calls user)
unfolding configure_child
configure_child-env_calls e user vars term tty h = ground arith

module _ (exists : Text → Bool) (config : ServerConfig) (link : List ChannelMessage → Bool) where
  -- At most 64 variables, each with a name that `accept_env` covers.
  pub record Accepts (vars : List (Text × Text)) : Type 0 where
    pub bounded : length vars ≤ env_limit
    pub accepted : All (λ v. Any (Covers v.0) config.accept_env) vars

  abbrev pub variables : Launch → List (Text × Text)
  variables (run_child command pty vars) = vars
  variables (run_subsystem command vars) = vars
  variables closed_channel = []

  add_env-Accepts :
      (name value : Text) (s : Session)
      → Accepts s.env_vars
      → Accepts (add_env exists config link name value s).env_vars
  unfolding add_env
  add_env-Accepts name value s v =
      elim (Bool-cases (env_accepted config name && ltb (length s.env_vars) env_limit)) [
        | inr no_more ↦ rw no_more v
        | inl more ↦
            let (a, b) =
              and-eq-true (env_accepted config name) (ltb (length s.env_vars) env_limit) more in
            rw more (record {
              bounded = omega (arith, length-append s.env_vars ((name, value) ∷ []), ltb→lt _ _ b);
              accepted =
                  All-append _ s.env_vars ((name, value) ∷ []) v.accepted
                    ((env_accepted_iff config name).0 a, tt);
            })
      ]

  -- What a turn does to the variables.
  abbrev TurnAccepts : Turn → Type 0
  TurnAccepts (goes_on s) = Accepts s.env_vars
  TurnAccepts (returns s launch) = Accepts (variables launch)
  TurnAccepts (fails s) = Unit {0}

  send_then-TurnAccepts :
      (m : ChannelMessage) (s : Session) (next : Session → Turn)
      → ((s' : Session) → s'.env_vars ≡ s.env_vars → TurnAccepts (next s'))
      → TurnAccepts (send_then exists config link m s next)
  send_then-TurnAccepts m s next f = elim (Bool-cases (link s.sent)) [
    | inl e ↦ rw e (f (record s { sent = s.sent ++ m ∷ [] }) refl)
    | inr e ↦ rw e tt
  ]

  reply_if-TurnAccepts :
      (b : Bool) (m : ChannelMessage) (s : Session) (next : Session → Turn)
      → ((s' : Session) → s'.env_vars ≡ s.env_vars → TurnAccepts (next s'))
      → TurnAccepts (reply_if exists config link b m s next)
  reply_if-TurnAccepts true m s next f = send_then-TurnAccepts m s next f
  reply_if-TurnAccepts false m s next f = f s refl

  open_subsystem-TurnAccepts :
      (o : Option Text) (b : Bool) (s : Session)
      → Accepts s.env_vars
      → TurnAccepts (open_subsystem exists config link o b s)
  open_subsystem-TurnAccepts (some command) b s v =
      reply_if-TurnAccepts b request_success s _ λ s' e. rw e v
  open_subsystem-TurnAccepts none b s v = reply_if-TurnAccepts b request_failure s _ λ s' e.
      send_then-TurnAccepts close s' _ λ s'' e'. record { bounded = omega arith; accepted = tt }

  request_turn-TurnAccepts :
      (r : RequestType) (b : Bool) (s : Session)
      → Accepts s.env_vars
      → TurnAccepts (request_turn exists config link r b s)
  request_turn-TurnAccepts (env name value) b s v =
      reply_if-TurnAccepts b request_success (add_env exists config link name value s) goes_on
        λ s' e. rw e (add_env-Accepts name value s v)
  request_turn-TurnAccepts (subsystem name) b s v =
      open_subsystem-TurnAccepts (resolve_subsystem exists config name) b s v
  request_turn-TurnAccepts (signal name) b s v =
      reply_if-TurnAccepts b request_failure s _ λ s' e. rw e v
  request_turn-TurnAccepts (pty_req params) b s v =
      reply_if-TurnAccepts b request_success (record s { pty_params = some params }) goes_on
        λ s' e. rw e v
  request_turn-TurnAccepts _ b s v = reply_if-TurnAccepts b request_success s _ λ s' e. rw e v

  turn-TurnAccepts :
      (m : ChannelMessage) (s : Session)
      → Accepts s.env_vars
      → TurnAccepts (turn exists config link m s)
  turn-TurnAccepts (request r b) s v = request_turn-TurnAccepts r b s v
  turn-TurnAccepts close s v =
      send_then-TurnAccepts close s _ λ s' e. record { bounded = omega arith; accepted = tt }
  turn-TurnAccepts eof s v =
      send_then-TurnAccepts close s _ λ s' e. record { bounded = omega arith; accepted = tt }
  turn-TurnAccepts _ s v = v

  loop_step :
      (m : ChannelMessage) (ms : List ChannelMessage) (s : Session) (t : Turn) {launch : Launch}
      → turn exists config link m s ≡ t
      → TurnAccepts t
      → ((s' : Session)
          → Accepts s'.env_vars
          → (session_loop exists config link ms s').1 ≡ some launch
          → Accepts (variables launch))
      → (session_loop exists config link (m ∷ ms) s).1 ≡ some launch
      → Accepts (variables launch)
  unfolding session_loop
  loop_step m ms s (goes_on s') q a later h = later s' a (rw (q, session_loop) at h)
  loop_step m ms s (returns s' launch) q a later h =
      rw (← some-injective (rw (q, session_loop) at h)) a
  loop_step m ms s (fails s') q a later h = cc (rw (q, session_loop) at h)

  session_loop-Accepts :
      (ms : List ChannelMessage) (s : Session) {launch : Launch}
      → Accepts s.env_vars
      → (session_loop exists config link ms s).1 ≡ some launch
      → Accepts (variables launch)
  unfolding session_loop
  session_loop-Accepts [] s v h = cc
  session_loop-Accepts (m ∷ ms) s v h =
      loop_step m ms s (turn exists config link m s) refl (turn-TurnAccepts m s v)
        (λ s' v' h'. session_loop-Accepts ms s' v' h') h

  -- The process that the handler starts, as it is configured.
  abbrev pub setup_of : System → User → Launch → Option ChildSetup
  setup_of sys user (run_child command pty vars) = child_setup sys user pty vars
  setup_of sys user (run_subsystem command vars) = subsystem_setup sys user vars
  setup_of sys user closed_channel = none

  -- `TERM` is set for a shell or a command, and not for a subsystem.
  abbrev pub term_for : Launch → Option Text
  term_for (run_child command pty vars) = some (term_of pty)
  term_for (run_subsystem command vars) = none
  term_for closed_channel = none

  -- The calls of `env`, in order, are those of variables that are accepted, that for `TERM`, and
  -- those of the identity.
  pub record Provides (user : User) (launch : Launch) (calls : List (Text × Text)) : Type 0 where
    pub vars : List (Text × Text)
    pub accepts : Accepts vars
    pub order : calls ≡ vars ++ (term_call (term_for launch) ++ identity_calls user)

  setup_of-Provides :
      (sys : System) (user : User) (launch : Launch) {setup : ChildSetup}
      → Accepts (variables launch)
      → setup_of sys user launch ≡ some setup
      → Provides user launch setup.env_calls
  setup_of-Provides sys user (run_child command pty vars) a h = record {
    vars = vars;
    accepts = a;
    order = configure_child-env_calls sys.effective_uid user vars (some (term_of pty)) _ h;
  }
  setup_of-Provides sys user (run_subsystem command vars) a h = record {
    vars = vars;
    accepts = a;
    order = configure_child-env_calls sys.effective_uid user vars none none h;
  }
  setup_of-Provides sys user closed_channel a h = cc

  -- Whatever a client sends, the variables that are set for a process that its session starts are,
  -- in this order: at most 64 that the client may choose, with only names that a pattern of
  -- `accept_env` covers; then `TERM`, if it is a shell or a command and no subsystem; and then the
  -- identity of the user.
  pub session_loop-setup_of-Provides :
      (ms : List ChannelMessage) (sys : System) (user : User) {launch : Launch} {setup : ChildSetup}
      → (session_loop exists config link ms new_session).1 ≡ some launch
      → setup_of sys user launch ≡ some setup
      → Provides user launch setup.env_calls
  session_loop-setup_of-Provides ms sys user {launch} h k =
      setup_of-Provides sys user launch
        (session_loop-Accepts ms new_session (record { bounded = omega arith; accepted = tt }) h) k
