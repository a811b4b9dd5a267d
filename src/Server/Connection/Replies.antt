-- ===== src/Server/Connection/Replies.antt =====
-- The replies to forward requests of crates/sqshd/src/connection.rs, and what frees a binding.
use squish.Server.Connection.Invariant.{Allowed, IsSound}
use squish.Server.Config.{ServerConfig}
use squish.Proto.Message.{
  ControlMessage, tcp_forward_confirm, tcp_forward_request, tcp_forward_failure, tcp_forward_cancel,
  keep_alive, keep_alive_ack,
}
use squish.Server.Access.{IpAddr, remote_forward_allowed}
use squish.Server.Connection.{
  has_key, Action, Event, remove_key, Connection, reply, control_received, accept_stream, state,
  run, Flow, finished, failed, then_step, forward_request, release, step, forward_cancel,
  control_message, answer, stream_accepted, running, channel_done, spawn_channel, abort_forward,
  record_action, start_forward, spawn_forward,
}
use squish.Text.{Text, str_eq, text, eq_of_str_eq}
use squish.Prelude.{
  ◌≡◌, Bool, List, Option, ℕ, ◌++◌, ◌∷◌, true, length, ◌+◌, false, ◌≤◌, arith, All, ◌<◌, [],
  Bool-cases, refl, suc, zero, or-eq-true, inl, inr, leb, ◌&&◌, ◌==◌, and-eq-true, ==_iff,
}

-- Replies to a request for a remote forward.
abbrev pub is_forward_reply : Action → ℕ
is_forward_reply (reply (tcp_forward_confirm port)) = 1
is_forward_reply (reply (tcp_forward_failure why)) = 1
is_forward_reply _ = 0

abbrev pub forward_replies : List Action → ℕ
forward_replies [] = 0
forward_replies (a ∷ rest) = is_forward_reply a + forward_replies rest

abbrev pub is_forward_request : Event → ℕ
is_forward_request (control_received (tcp_forward_request addr port) sends) = 1
is_forward_request _ = 0

forward_replies-append :
    (xs ys : List Action) → forward_replies (xs ++ ys) ≡ forward_replies xs + forward_replies ys
forward_replies-append [] ys = omega arith
forward_replies-append (x ∷ xs) ys = omega (arith, forward_replies-append xs ys)

replies_one :
    (log : List Action) (a : Action)
    → forward_replies (log ++ a ∷ []) ≡ forward_replies log + is_forward_reply a
replies_one log a = omega (arith, forward_replies-append log (a ∷ []))

answer-replies :
    (sends : Bool) (m : ControlMessage) (c : Connection)
    → forward_replies (state (answer sends m c)).log
      ≡ forward_replies c.log + is_forward_reply (reply m)
answer-replies true m c = replies_one c.log (reply m)
answer-replies false m c = replies_one c.log (reply m)

has_key-remove_key_self :
    (a : Text) (p : ℕ) (ks : List (Text × ℕ)) → has_key a p (remove_key a p ks) ≡ false
unfolding has_key remove_key
has_key-remove_key_self a p [] = refl
has_key-remove_key_self a p ((b, q) ∷ ks) = ground (arith, has_key-remove_key_self a p ks)

remove_key-le : (a : Text) (p : ℕ) (ks : List (Text × ℕ)) → length (remove_key a p ks) ≤ length ks
unfolding remove_key
remove_key-le a p [] = omega arith
remove_key-le a p ((b, q) ∷ ks) = ground (arith, remove_key-le a p ks)

remove_key-lt :
    (a : Text) (p : ℕ) (ks : List (Text × ℕ))
    → has_key a p ks ≡ true
    → length (remove_key a p ks) < length ks
unfolding has_key remove_key
remove_key-lt a p [] h = cc
remove_key-lt a p ((b, q) ∷ ks) h = ground (arith, remove_key-lt a p ks, remove_key-le a p ks)

-- A message that cancels a forward of this binding.
abbrev pub cancels : Text → ℕ → Event → Bool
cancels addr port (control_received (tcp_forward_cancel a p) sends) = str_eq a addr && p == port
cancels addr port _ = false

remove_key-keeps :
    (addr a : Text) (port p : ℕ) (ks : List (Text × ℕ))
    → (str_eq a addr && p == port) ≡ false
    → has_key addr port ks ≡ true
    → has_key addr port (remove_key a p ks) ≡ true
unfolding has_key remove_key
remove_key-keeps addr a port p [] n h = cc
remove_key-keeps addr a port p ((b, q) ∷ ks) n h =
    let rest = remove_key-keeps addr a port p ks n in
    elim (Bool-cases (str_eq b a && q == p)) [
      | inl e ↦
          let (x, y) = and-eq-true (str_eq b a) (q == p) e in
          let other : (str_eq b addr && q == port) ≡ false =
            rw (eq_of_str_eq b a x, (==_iff q p).0 y) n in
          rw e (rest (rw other at h))
      | inr e ↦ rw (e, has_key) (ground (arith, rest, h))
    ]

module _ (parse_ip : Text → Option IpAddr) (config : ServerConfig) where
  forward_request-replies :
      (addr : Text) (port : ℕ) (sends : Bool) (c : Connection)
      → forward_replies (state (forward_request parse_ip config addr port sends c)).log
        ≡ forward_replies c.log + 1
  unfolding forward_request
  forward_request-replies addr port sends c =
      elim (Bool-cases
        (remote_forward_allowed parse_ip addr port config.remote_forward_allowlist)) [
          | inr denied ↦ rw denied (answer-replies sends _ c)
          | inl fine ↦ elim (Bool-cases (has_key addr port c.forward_tasks)) [
            | inl active ↦ rw (fine, active) (answer-replies sends _ c)
            | inr new ↦
                elim (Bool-cases
                  (leb config.max_remote_forwards_per_connection (length c.forward_tasks))) [
                    | inl full ↦ rw (fine, new, full) (answer-replies sends _ c)
                    | inr room ↦
                        rw (fine, new, room)
                          (omega (
                            arith,
                            answer-replies sends (tcp_forward_confirm port)
                                (start_forward parse_ip config addr port c),
                            replies_one c.log (spawn_forward addr port),
                          ))
                  ]
          ]
        ]

  forward_cancel-replies :
      (addr : Text) (port : ℕ) (c : Connection)
      → forward_replies (forward_cancel parse_ip config addr port c).log ≡ forward_replies c.log
  unfolding forward_cancel
  forward_cancel-replies addr port c = elim (Bool-cases (has_key addr port c.forward_tasks)) [
    | inl e ↦ rw e (omega (arith, replies_one c.log (abort_forward addr port)))
    | inr e ↦ rw e
  ]

  accept_stream-replies :
      (n : ℕ) (c : Connection)
      → forward_replies (accept_stream parse_ip config n c).log ≡ forward_replies c.log
  accept_stream-replies zero c = omega (arith, replies_one c.log _)
  accept_stream-replies (suc n) c = omega (arith, replies_one c.log spawn_channel)

  release-replies :
      (n : ℕ) (c : Connection)
      → forward_replies (release parse_ip config n c).log ≡ forward_replies c.log
  release-replies zero c = refl
  release-replies (suc n) c = refl

  control_message-replies :
      (m : ControlMessage) (sends : Bool) (c : Connection)
      → forward_replies (state (control_message parse_ip config m sends c)).log
        ≡ forward_replies c.log + is_forward_request (control_received m sends)
  control_message-replies (tcp_forward_request addr port) sends c =
      forward_request-replies addr port sends c
  control_message-replies (tcp_forward_cancel addr port) sends c =
      omega (arith, forward_cancel-replies addr port c)
  control_message-replies (keep_alive seq) sends c =
      omega (arith, replies_one c.log (reply (keep_alive_ack seq)))
  control_message-replies _ sends c = omega arith

  -- In a step each request for a remote forward is answered once, by a confirmation or a failure,
  -- and any other event brings no such answer.
  pub step-forward_replies :
      (c : Connection) (e : Event)
      → forward_replies (state (step parse_ip config c e)).log
        ≡ forward_replies c.log + is_forward_request e
  unfolding step
  step-forward_replies c stream_accepted = omega (arith, accept_stream-replies c.free_channels c)
  step-forward_replies c (control_received m sends) = control_message-replies m sends c
  step-forward_replies c channel_done = omega (arith, release-replies c.open_channels c)
  step-forward_replies c _ = omega arith

  active-Allowed :
      (addr : Text) (port : ℕ) (ks : List (Text × ℕ))
      → has_key addr port ks ≡ true
      → All (λ k. Allowed parse_ip config k.0 k.1) ks
      → Allowed parse_ip config addr port
  unfolding has_key
  active-Allowed addr port [] h a = cc
  active-Allowed addr port ((b, q) ∷ ks) h a =
      elim (or-eq-true (str_eq b addr && q == port) (has_key addr port ks) h) [
        | inl e ↦
            let (x, y) = and-eq-true (str_eq b addr) (q == port) e in
            rw (← eq_of_str_eq b addr x, ← (==_iff q port).0 y) a.0
        | inr e ↦ active-Allowed addr port ks e a.1
      ]

  -- A forward that is cancelled can be requested again: in a state that keeps the limits, the
  -- request that follows the cancellation of an active forward starts a listener and is confirmed.
  pub forward_request-forward_cancel :
      (addr : Text) (port : ℕ) (c : Connection)
      → IsSound parse_ip config c
      → has_key addr port c.forward_tasks ≡ true
      → let c' = forward_cancel parse_ip config addr port c in
        forward_request parse_ip config addr port true c'
        ≡ running (
            record_action
              (reply (tcp_forward_confirm port))
              (start_forward parse_ip config addr port c'))
  unfolding forward_request forward_cancel
  forward_request-forward_cancel addr port c v k =
      let lt = remove_key-lt addr port c.forward_tasks k in
      rw
        (
          k,
          active-Allowed addr port c.forward_tasks k v.allowed,
          has_key-remove_key_self addr port c.forward_tasks,
        )
        (ground (arith, v.limited))

  forward_request-keeps :
      (addr a : Text) (port p : ℕ) (sends : Bool) (c : Connection)
      → has_key addr port c.forward_tasks ≡ true
      → has_key addr port (state (forward_request parse_ip config a p sends c)).forward_tasks ≡ true
  unfolding forward_request has_key
  forward_request-keeps addr a port p true c k = ground (arith, k)
  forward_request-keeps addr a port p false c k = ground (arith, k)

  forward_cancel-keeps :
      (addr a : Text) (port p : ℕ) (c : Connection)
      → (str_eq a addr && p == port) ≡ false
      → has_key addr port c.forward_tasks ≡ true
      → has_key addr port (forward_cancel parse_ip config a p c).forward_tasks ≡ true
  unfolding forward_cancel
  forward_cancel-keeps addr a port p c n k = elim (Bool-cases (has_key a p c.forward_tasks)) [
    | inl e ↦ rw e (remove_key-keeps addr a port p c.forward_tasks n k)
    | inr e ↦ rw e k
  ]

  control_message-keeps :
      (addr : Text) (port : ℕ) (m : ControlMessage) (sends : Bool) (c : Connection)
      → cancels addr port (control_received m sends) ≡ false
      → has_key addr port c.forward_tasks ≡ true
      → has_key addr port (state (control_message parse_ip config m sends c)).forward_tasks ≡ true
  control_message-keeps addr port (tcp_forward_request a p) sends c n k =
      forward_request-keeps addr a port p sends c k
  control_message-keeps addr port (tcp_forward_cancel a p) sends c n k =
      forward_cancel-keeps addr a port p c n k
  control_message-keeps addr port (keep_alive seq) sends c n k = k
  control_message-keeps addr port _ sends c n k = k

  accept_stream-keeps :
      (n : ℕ) (c : Connection) → (accept_stream parse_ip config n c).forward_tasks ≡ c.forward_tasks
  accept_stream-keeps zero c = refl
  accept_stream-keeps (suc n) c = refl

  release-keeps :
      (n : ℕ) (c : Connection) → (release parse_ip config n c).forward_tasks ≡ c.forward_tasks
  release-keeps zero c = refl
  release-keeps (suc n) c = refl

  step-keeps :
      (addr : Text) (port : ℕ) (c : Connection) (e : Event)
      → cancels addr port e ≡ false
      → has_key addr port c.forward_tasks ≡ true
      → has_key addr port (state (step parse_ip config c e)).forward_tasks ≡ true
  unfolding step
  step-keeps addr port c stream_accepted n k = rw (accept_stream-keeps c.free_channels c) k
  step-keeps addr port c (control_received m sends) n k =
      control_message-keeps addr port m sends c n k
  step-keeps addr port c channel_done n k = rw (release-keeps c.open_channels c) k
  step-keeps addr port c _ n k = k

  then_step-keeps :
      (addr : Text) (port : ℕ) (s : Flow) (e : Event)
      → cancels addr port e ≡ false
      → has_key addr port (state s).forward_tasks ≡ true
      → has_key addr port (state (then_step parse_ip config s e)).forward_tasks ≡ true
  then_step-keeps addr port (running c) e n k = step-keeps addr port c e n k
  then_step-keeps addr port (finished c) e n k = k
  then_step-keeps addr port (failed c) e n k = k

  run-keeps :
      (addr : Text) (port : ℕ) (s : Flow) (es : List Event)
      → All (λ e. cancels addr port e ≡ false) es
      → has_key addr port (state s).forward_tasks ≡ true
      → has_key addr port (state (run parse_ip config s es)).forward_tasks ≡ true
  unfolding run
  run-keeps addr port s [] n k = k
  run-keeps addr port s (e ∷ es) (n, ns) k =
      run-keeps addr port (then_step parse_ip config s e) es ns (then_step-keeps addr port s e n k)

  -- Only a cancellation ends an active forward: after any events among which no message cancels an
  -- allowed binding that is active, the next request for it is refused as already active, and no
  -- listener is started.
  pub run-still_active :
      (addr : Text) (port : ℕ) (c : Connection) (es : List Event)
      → Allowed parse_ip config addr port
      → has_key addr port c.forward_tasks ≡ true
      → All (λ e. cancels addr port e ≡ false) es
      → let c' = state (run parse_ip config (running c) es) in
        forward_request parse_ip config addr port true c'
        ≡ running
            (record_action (reply (tcp_forward_failure (text "remote forward already active"))) c')
  unfolding forward_request
  run-still_active addr port c es a k n = rw (a, run-keeps addr port (running c) es n k)
