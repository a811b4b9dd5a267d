-- ===== src/Server/Handle/Admitted.antt =====
-- Who a connection is served to, from the handshake and the loop together.
use squish.Server.Handle.{served, after_handshake, handle_connection}
use squish.Server.Authenticate.{authenticate}
use squish.Server.Authenticate.Sound.{Verdict, IsAuthentic, authenticate-Verdict, refused, granted}
use squish.Server.Connection.{Event, Flow, state}
use squish.Server.Connection.Invariant.{IsSound, run-start-IsSound}
use squish.Server.Config.{ServerConfig}
use squish.Server.Access.{IpAddr}
use squish.Server.Keys.{Host, Failure}
use squish.Proto.Message.{ControlMessage}
use squish.Proto.Stream.{FramedBiStream, fresh}
use squish.Text.{Text}
use squish.Prelude.{
  ◌≡◌, Option, List, Bool, Result, ok, err, inl, inr, ok-injective, subst, sym, ◌∙◌, refl,
}

served-injective : {u v : Text} {f g : Flow} → served u f ≡ served v g → (u ≡ v) × (f ≡ g)
served-injective h = (cc, cc)

module _ (h : Host) (parse_ip : Text → Option IpAddr) (config : ServerConfig)
    (link : List ControlMessage → Bool) where
  granted-IsAuthentic :
      (x : FramedBiStream ControlMessage × Result Failure Text) {name : Text}
      → Verdict h config link x
      → x.1 ≡ ok name
      → IsAuthentic h config name
  granted-IsAuthentic x (refused e silent) q = cc
  granted-IsAuthentic x (granted {username} a sent (inl e)) q =
      subst (IsAuthentic h config) (ok-injective (sym e ∙ q)) a
  granted-IsAuthentic x (granted {username} a sent (inr e)) q = cc

  after_handshake-served :
      (x : FramedBiStream ControlMessage × Result Failure Text) (events : List Event)
      {username : Text} {flow : Flow}
      → Verdict h config link x
      → after_handshake h parse_ip config link x events ≡ served username flow
      → IsAuthentic h config username × IsSound parse_ip config (state flow)
  after_handshake-served (s, err e) events v q = cc
  after_handshake-served (s, ok name) events v q =
      let (same, end) = served-injective q in
      (
        subst (IsAuthentic h config) same (granted-IsAuthentic (s, ok name) v refl),
        subst (λ f. IsSound parse_ip config (state f)) end
            (run-start-IsSound parse_ip config events),
      )

  -- A connection is served only to a user who exists and whose key, from an accepted keys file, has
  -- signed this challenge, and whatever happens on it then keeps the limits and the access lists.
  pub handle_connection-served :
      (incoming : List ControlMessage) (events : List Event) {username : Text} {flow : Flow}
      → handle_connection h parse_ip config link incoming events ≡ served username flow
      → IsAuthentic h config username × IsSound parse_ip config (state flow)
  handle_connection-served incoming events q =
      after_handshake-served (authenticate h config link (fresh incoming)) events
        (authenticate-Verdict h config link incoming) q
