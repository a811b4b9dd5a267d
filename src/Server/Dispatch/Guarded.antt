-- ===== src/Server/Dispatch/Guarded.antt =====
-- Who gets a direct connection from `dispatch_channel` of crates/sqshd/src/connection.rs.
use squish.Server.Access.Exact.{Names, direct_tcpip_allowed_iff}
use squish.Server.Access.{direct_tcpip_allowed}
use squish.Proto.Stream.{FramedBiStream, fresh}
use squish.Text.{Text}
use squish.Server.Dispatch.{
  dispatch_channel, Handler, confirm, open_direct_tcpip, direct_tcpip_handler, max_packet_size,
  dispatch_message, open_unsupported, session_handler,
}
use squish.Proto.Channel.{
  ChannelMessage, TcpipParams, open_confirmation, ChannelType, open_channel, direct_tcpip_params,
  session, direct_tcpip,
}
use squish.Server.Config.{ServerConfig}
use squish.Prelude.{
  ◌≡◌, List, Bool, ℕ, ok, true, ◌++◌, Any, ◌∷◌, [], Bool-cases, inl, sym, inr, false, ok-injective,
  refl,
}

module _ (config : ServerConfig) (link : List ChannelMessage → Bool) where
  confirm-sent :
      (k : Handler) (s : FramedBiStream ChannelMessage) {r : Handler}
      → (confirm config link k s).1 ≡ ok r
      → (r ≡ k)
        × ((confirm config link k s).0.sent ≡ s.sent ++ open_confirmation max_packet_size ∷ [])
  confirm-sent k s h = elim (Bool-cases (link s.sent)) [
    | inl t ↦ (sym (ok-injective (rw t at h)), rw t)
    | inr t ↦ cc (rw t at h)
  ]

  abbrev Opened : Text → ℕ → Type 0
  Opened host port = direct_tcpip_allowed host port config.direct_tcpip_allowlist ≡ true

  open_direct_tcpip-allowed :
      (q p : TcpipParams) (b : Bool) (s : FramedBiStream ChannelMessage)
      → direct_tcpip_allowed q.host q.port config.direct_tcpip_allowlist ≡ b
      → (open_direct_tcpip config link q b s).1 ≡ ok (direct_tcpip_handler p)
      → (p ≡ q)
        × (b ≡ true)
        × ((open_direct_tcpip config link q b s).0.sent
            ≡ s.sent ++ open_confirmation max_packet_size ∷ [])
  open_direct_tcpip-allowed q p true s e h =
      let (x, y) = confirm-sent (direct_tcpip_handler q) s h in (cc, refl, y)
  open_direct_tcpip-allowed q p false s e h = elim (Bool-cases (link s.sent)) [
    | inl t ↦ cc (rw t at h)
    | inr t ↦ cc (rw t at h)
  ]

  open_unsupported-fails :
      (t : ChannelType) (s : FramedBiStream ChannelMessage) {r : Handler}
      → ¬ ((open_unsupported config link t s).1 ≡ ok r)
  open_unsupported-fails t s h = elim (Bool-cases (link s.sent)) [
    | inl e ↦ cc (rw e at h)
    | inr e ↦ cc (rw e at h)
  ]

  dispatch_message-allowed :
      (m : ChannelMessage) (p : TcpipParams) (s : FramedBiStream ChannelMessage)
      → (dispatch_message config link m s).1 ≡ ok (direct_tcpip_handler p)
      → (m ≡ open_channel direct_tcpip (direct_tcpip_params p))
        × Opened p.host p.port
        × ((dispatch_message config link m s).0.sent
            ≡ s.sent ++ open_confirmation max_packet_size ∷ [])
  dispatch_message-allowed (open_channel session params) p s h =
      let (x, y) = confirm-sent session_handler s h in cc x
  dispatch_message-allowed (open_channel direct_tcpip (direct_tcpip_params q)) p s h =
      let b = direct_tcpip_allowed q.host q.port config.direct_tcpip_allowlist in
      let (same, t, sent) = open_direct_tcpip-allowed q p b s refl h in
      (rw same refl, rw same t, sent)
  dispatch_message-allowed (open_channel t params) p s h = absurd (open_unsupported-fails _ s h)
  dispatch_message-allowed _ p s h = cc

  -- A stream is handed to a direct connection only if its first message asked for a direct
  -- connection with exactly these parameters, if an entry of `direct_tcpip_allowlist` names the
  -- target, and after exactly one message, the confirmation.
  pub dispatch_channel-allowed :
      (incoming : List ChannelMessage) (p : TcpipParams)
      → (dispatch_channel config link (fresh incoming)).1 ≡ ok (direct_tcpip_handler p)
      → ((rest : List ChannelMessage) × (incoming
            ≡ open_channel direct_tcpip (direct_tcpip_params p) ∷ rest))
        × Any (Names p.host p.port) config.direct_tcpip_allowlist
        × ((dispatch_channel config link (fresh incoming)).0.sent
            ≡ open_confirmation max_packet_size ∷ [])
  unfolding dispatch_channel
  dispatch_channel-allowed [] p h = cc
  dispatch_channel-allowed (m ∷ ms) p h =
      let (asked, a, sent) = dispatch_message-allowed m p (fresh ms) h in
      (
        (ms, rw asked refl),
        (direct_tcpip_allowed_iff p.host p.port config.direct_tcpip_allowlist).0 a,
        sent,
      )
