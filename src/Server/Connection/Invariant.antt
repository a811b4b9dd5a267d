-- ===== src/Server/Connection/Invariant.antt =====
-- The limits and the access list over the events of a connection
-- (crates/sqshd/src/connection.rs).
use squish.Proto.Message.{ControlMessage, tcp_forward_request, tcp_forward_cancel, keep_alive}
use squish.Server.Connection.{
  forward_cancel, Action, remove_key, step, forward_request, has_key, Connection, state,
  record_action, Event, spawn_forward, answer, reply, run, Flow, control_message, release,
  accept_stream, control_received, running, start_forward, then_step, stream_accepted, start,
  spawn_channel, finished, application_closed, failed, abort_forward, connection_lost,
  control_failed, channel_done,
}
use squish.Server.Config.{ServerConfig}
use squish.Server.Access.{IpAddr, remote_forward_allowed}
use squish.Text.{Text}
use squish.Prelude.{
  ◌≡◌, List, ℕ, Option, Bool, true, All, false, length, All-append, ◌≤◌, ◌+◌, arith, ◌∷◌, [], refl,
  Bool-cases, ◌<◌, inr, suc, zero, inl, leb, le_trans,
}

abbrev pub Distinct : List (Text × ℕ) → Type 0
Distinct [] = Unit {0}
Distinct ((a, p) ∷ ks) = (has_key a p ks ≡ false) × Distinct ks

module _ (parse_ip : Text → Option IpAddr) (config : ServerConfig) where
  abbrev pub Allowed : Text → ℕ → Type 0
  Allowed addr port =
      remote_forward_allowed parse_ip addr port config.remote_forward_allowlist ≡ true

  -- Only allowed bindings are listened on.
  abbrev pub Permits : Action → Type 0
  Permits (spawn_forward addr port) = Allowed addr port
  Permits _ = Unit {0}

  pub record IsSound (c : Connection) : Type 0 where
    pub limited : length c.forward_tasks ≤ config.max_remote_forwards_per_connection
    pub allowed : All (λ k. Allowed k.0 k.1) c.forward_tasks
    pub distinct : Distinct c.forward_tasks
    pub channels : c.free_channels + c.open_channels ≡ config.max_channels_per_connection
    pub spawned : All Permits c.log

  log-IsSound : (c : Connection) (a : Action) → Permits a → IsSound c → IsSound (record_action a c)
  log-IsSound c a p v = record {
    limited = v.limited;
    allowed = v.allowed;
    distinct = v.distinct;
    channels = v.channels;
    spawned = All-append Permits c.log (a ∷ []) v.spawned (p, tt);
  }

  answer-IsSound :
      (sends : Bool) (m : ControlMessage) (c : Connection)
      → IsSound c
      → IsSound (state (answer sends m c))
  answer-IsSound true m c v = log-IsSound c (reply m) tt v
  answer-IsSound false m c v = log-IsSound c (reply m) tt v

  start_forward-IsSound :
      (addr : Text) (port : ℕ) (c : Connection)
      → Allowed addr port
      → has_key addr port c.forward_tasks ≡ false
      → length c.forward_tasks < config.max_remote_forwards_per_connection
      → IsSound c
      → IsSound (start_forward parse_ip config addr port c)
  start_forward-IsSound addr port c a k l v = record {
    limited = l;
    allowed = (a, v.allowed);
    distinct = (k, v.distinct);
    channels = v.channels;
    spawned = All-append Permits c.log (spawn_forward addr port ∷ []) v.spawned (a, tt);
  }

  forward_request-IsSound :
      (addr : Text) (port : ℕ) (sends : Bool) (c : Connection)
      → IsSound c
      → IsSound (state (forward_request parse_ip config addr port sends c))
  unfolding forward_request
  forward_request-IsSound addr port sends c v =
      elim (Bool-cases
        (remote_forward_allowed parse_ip addr port config.remote_forward_allowlist)) [
          | inr denied ↦ rw denied (answer-IsSound sends _ c v)
          | inl ok_addr ↦ elim (Bool-cases (has_key addr port c.forward_tasks)) [
            | inl active ↦ rw (ok_addr, active) (answer-IsSound sends _ c v)
            | inr new ↦
                elim (Bool-cases
                  (leb config.max_remote_forwards_per_connection (length c.forward_tasks))) [
                    | inl full ↦ rw (ok_addr, new, full) (answer-IsSound sends _ c v)
                    | inr room ↦
                        rw (ok_addr, new, room)
                          (answer-IsSound sends _ _
                            (start_forward-IsSound addr port c ok_addr new (ground arith) v))
                  ]
          ]
        ]

  remove_key-le : (a : Text) (p : ℕ) (ks : List (Text × ℕ)) → length (remove_key a p ks) ≤ length ks
  unfolding remove_key
  remove_key-le a p [] = omega arith
  remove_key-le a p ((b, q) ∷ ks) = ground (arith, remove_key-le a p ks)

  remove_key-All :
      (a : Text) (p : ℕ) (ks : List (Text × ℕ))
      → All (λ k. Allowed k.0 k.1) ks
      → All (λ k. Allowed k.0 k.1) (remove_key a p ks)
  unfolding remove_key
  remove_key-All a p [] h = tt
  remove_key-All a p ((b, q) ∷ ks) h = ground (arith, remove_key-All a p ks h.1)

  has_key-remove_key :
      (a b : Text) (p q : ℕ) (ks : List (Text × ℕ))
      → has_key b q ks ≡ false
      → has_key b q (remove_key a p ks) ≡ false
  unfolding has_key remove_key
  has_key-remove_key a b p q [] h = refl
  has_key-remove_key a b p q ((c, r) ∷ ks) h = ground (arith, has_key-remove_key a b p q ks)

  remove_key-Distinct :
      (a : Text) (p : ℕ) (ks : List (Text × ℕ)) → Distinct ks → Distinct (remove_key a p ks)
  unfolding remove_key
  remove_key-Distinct a p [] h = tt
  remove_key-Distinct a p ((b, q) ∷ ks) h =
      ground (arith, has_key-remove_key a b p q ks h.0, remove_key-Distinct a p ks h.1)

  forward_cancel-IsSound :
      (addr : Text) (port : ℕ) (c : Connection)
      → IsSound c
      → IsSound (forward_cancel parse_ip config addr port c)
  unfolding forward_cancel
  forward_cancel-IsSound addr port c v = elim (Bool-cases (has_key addr port c.forward_tasks)) [
    | inr absent ↦ rw absent v
    | inl active ↦
        let le = remove_key-le addr port c.forward_tasks in
        rw active (record {
          limited = le_trans le v.limited;
          allowed = remove_key-All addr port c.forward_tasks v.allowed;
          distinct = remove_key-Distinct addr port c.forward_tasks v.distinct;
          channels = v.channels;
          spawned = All-append Permits c.log (abort_forward addr port ∷ []) v.spawned (tt, tt);
        })
  ]

  accept_stream-IsSound :
      (n : ℕ) (c : Connection)
      → c.free_channels ≡ n
      → IsSound c
      → IsSound (accept_stream parse_ip config n c)
  accept_stream-IsSound zero c e v = log-IsSound c _ tt v
  accept_stream-IsSound (suc n) c e v = record {
    limited = v.limited;
    allowed = v.allowed;
    distinct = v.distinct;
    channels = omega (arith, v.channels);
    spawned = All-append Permits c.log (spawn_channel ∷ []) v.spawned (tt, tt);
  }

  release-IsSound :
      (n : ℕ) (c : Connection)
      → c.open_channels ≡ n
      → IsSound c
      → IsSound (release parse_ip config n c)
  release-IsSound zero c e v = v
  release-IsSound (suc n) c e v = record {
    limited = v.limited;
    allowed = v.allowed;
    distinct = v.distinct;
    channels = omega (arith, v.channels);
    spawned = v.spawned;
  }

  control_message-IsSound :
      (m : ControlMessage) (sends : Bool) (c : Connection)
      → IsSound c
      → IsSound (state (control_message parse_ip config m sends c))
  control_message-IsSound (tcp_forward_request addr port) sends c v =
      forward_request-IsSound addr port sends c v
  control_message-IsSound (tcp_forward_cancel addr port) sends c v =
      forward_cancel-IsSound addr port c v
  control_message-IsSound (keep_alive seq) sends c v = log-IsSound c _ tt v
  control_message-IsSound _ sends c v = v

  step-IsSound :
      (c : Connection) (e : Event) → IsSound c → IsSound (state (step parse_ip config c e))
  unfolding step
  step-IsSound c stream_accepted v = accept_stream-IsSound c.free_channels c refl v
  step-IsSound c application_closed v = v
  step-IsSound c connection_lost v = v
  step-IsSound c control_failed v = v
  step-IsSound c channel_done v = release-IsSound c.open_channels c refl v
  step-IsSound c (control_received m sends) v = control_message-IsSound m sends c v

  then_step-IsSound :
      (s : Flow) (e : Event) → IsSound (state s) → IsSound (state (then_step parse_ip config s e))
  then_step-IsSound (running c) e v = step-IsSound c e v
  then_step-IsSound (finished c) e v = v
  then_step-IsSound (failed c) e v = v

  run-IsSound :
      (s : Flow) (es : List Event) → IsSound (state s) → IsSound (state (run parse_ip config s es))
  unfolding run
  run-IsSound s [] v = v
  run-IsSound s (e ∷ es) v =
      run-IsSound (then_step parse_ip config s e) es (then_step-IsSound s e v)

  -- After any events a connection has at most the configured number of remote forwards, each for
  -- an allowed binding and none twice; its channel permits, free and held, add up to the configured
  -- number; and no listener was ever started for a binding that is not allowed.
  pub run-start-IsSound :
      (es : List Event) → IsSound (state (run parse_ip config (running (start parse_ip config)) es))
  run-start-IsSound es = run-IsSound (running (start parse_ip config)) es (record {
    limited = omega arith;
    allowed = tt;
    distinct = tt;
    channels = omega arith;
    spawned = tt;
  })
