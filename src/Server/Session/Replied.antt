-- ===== src/Server/Session/Replied.antt =====
-- The replies to requests on a session channel (crates/sqshd/src/channel/session.rs).
use squish.Server.Config.{ServerConfig, resolve_subsystem}
use squish.Text.{Text}
use squish.Server.Session.{
  Turn, Session, goes_on, add_env, reply_if, turn, send_then, returns, request_turn, closed_channel,
  open_subsystem, fails,
}
use squish.Proto.Channel.{
  ChannelMessage, request_success, request, RequestType, request_failure, close, env, eof,
  subsystem, signal, pty_req,
}
use squish.Prelude.{
  ◌≡◌, List, ◌++◌, ℕ, Bool, ◌∷◌, ◌+◌, true, arith, Option, [], if◌then◌else◌, Bool-cases, false,
  inl, some, none, refl, inr, ◌∙◌, ap,
}

abbrev pub is_reply : ChannelMessage → ℕ
is_reply request_success = 1
is_reply request_failure = 1
is_reply _ = 0

abbrev pub replies : List ChannelMessage → ℕ
replies [] = 0
replies (m ∷ ms) = is_reply m + replies ms

abbrev pub wants_reply : ChannelMessage → ℕ
wants_reply (request r true) = 1
wants_reply _ = 0

abbrev pub session_of : Turn → Session
session_of (goes_on s) = s
session_of (returns s launch) = s
session_of (fails s) = s

replies-append : (xs ys : List ChannelMessage) → replies (xs ++ ys) ≡ replies xs + replies ys
replies-append [] ys = omega arith
replies-append (x ∷ xs) ys = omega (arith, replies-append xs ys)

module _ (exists : Text → Bool) (config : ServerConfig) (link : List ChannelMessage → Bool) where
  send_then-replies :
      (m : ChannelMessage) (s : Session) (next : Session → Turn)
      → ((s' : Session) → replies (session_of (next s')).sent ≡ replies s'.sent)
      → replies (session_of (send_then exists config link m s next)).sent
        ≡ replies s.sent + is_reply m
  send_then-replies m s next f =
      let one = replies-append s.sent (m ∷ []) in
      elim (Bool-cases (link s.sent)) [
        | inl e ↦ rw e (omega (arith, one, f (record s { sent = s.sent ++ m ∷ [] })))
        | inr e ↦ rw e (omega (arith, one))
      ]

  reply_if-replies :
      (b : Bool) (m : ChannelMessage) (s : Session) (next : Session → Turn)
      → is_reply m ≡ 1
      → ((s' : Session) → replies (session_of (next s')).sent ≡ replies s'.sent)
      → replies (session_of (reply_if exists config link b m s next)).sent
        ≡ replies s.sent + (if b then 1 else 0)
  reply_if-replies true m s next i f = omega (arith, send_then-replies m s next f)
  reply_if-replies false m s next i f = omega (arith, f s)

  open_subsystem-replies :
      (o : Option Text) (b : Bool) (s : Session)
      → replies (session_of (open_subsystem exists config link o b s)).sent
        ≡ replies s.sent + (if b then 1 else 0)
  open_subsystem-replies (some command) b s = reply_if-replies b request_success s _ refl λ s'. refl
  open_subsystem-replies none b s = reply_if-replies b request_failure s _ refl λ s'.
      omega (arith, send_then-replies close s' (λ s''. returns s'' closed_channel) λ s''. refl)

  add_env-sent :
      (name value : Text) (s : Session) → (add_env exists config link name value s).sent ≡ s.sent
  unfolding add_env
  add_env-sent name value s = ground arith

  request_turn-replies :
      (r : RequestType) (b : Bool) (s : Session)
      → replies (session_of (request_turn exists config link r b s)).sent
        ≡ replies s.sent + (if b then 1 else 0)
  request_turn-replies (env name value) b s =
      reply_if-replies b request_success (add_env exists config link name value s) goes_on refl
        (λ s'. refl)
      ∙ ap (λ l. replies l + (if b then 1 else 0)) (add_env-sent name value s)
  request_turn-replies (subsystem name) b s =
      open_subsystem-replies (resolve_subsystem exists config name) b s
  request_turn-replies (signal name) b s = reply_if-replies b request_failure s _ refl λ s'. refl
  request_turn-replies (pty_req params) b s =
      reply_if-replies b request_success (record s { pty_params = some params }) goes_on refl
        λ s'. refl
  request_turn-replies _ b s = reply_if-replies b request_success s _ refl λ s'. refl

  wants_reply-if : (r : RequestType) (b : Bool) → wants_reply (request r b) ≡ (if b then 1 else 0)
  wants_reply-if r true = refl
  wants_reply-if r false = refl

  -- In a turn of the loop a request that wants a reply is answered once, by success or failure,
  -- and no other message is answered.
  pub turn-replies :
      (m : ChannelMessage) (s : Session)
      → replies (session_of (turn exists config link m s)).sent ≡ replies s.sent + wants_reply m
  turn-replies (request r b) s = rw (wants_reply-if r b) (request_turn-replies r b s)
  turn-replies close s = send_then-replies close s (λ s'. returns s' closed_channel) λ s'. refl
  turn-replies eof s = send_then-replies close s (λ s'. returns s' closed_channel) λ s'. refl
  turn-replies _ s = omega arith
