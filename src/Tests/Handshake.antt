-- ===== src/Tests/Handshake.antt =====
-- A client and a daemon that know each other, and a host whose fingerprint is stored.
use squish.Client.ControlPersist.{disabled}
use squish.Auth.Challenge.{build_challenge_payload}
use squish.Proto.Message.{ControlMessage, auth_challenge, auth_result, success}
use squish.Proto.Stream.{fresh, FramedBiStream}
use squish.Text.{
  Text, text, as_bytes, encode_utf8, str_eq_refl, str_eq, split_once, starts_with, trim, trim_start,
  trim_end, lines, lines_from, to_string, digits_fuel, is_whitespace,
}
use squish.Client.KnownHosts.{load, get, insert_lines, insert}
use squish.Client.Resolve.{ClientConfig}
use squish.Client.Authenticate.{
  Signer, authenticate, answer_challenge, load_seed, load_signing_key, Failure,
}
use squish.Client.Authenticate.Agreement.{SameScheme, IsEnrolled, authenticate_agree}
use squish.Server.Authenticate as Daemon
use squish.Tests.Server.{config, up, alice_keys, alice_found}
use squish.Tests.Instances.{host, alice, alice_key, letter_code}
use squish.Client.Connect.{Network, World, Peer, open_authenticated, certificates}
use squish.Client.Connect.Pinned.{IsPinned, IsStored, open_authenticated-IsPinned}
use squish.Prelude.{
  List, ◌++◌, some, ok, [], ◌≡◌, replicate, none, length, true, ◌∷◌, false, Result, refl, here, ◌<◌,
  arith,
}

abbrev signer : Signer
signer = record {
  mode = λ path. ok 384;
  read = λ path. ok (replicate 32 9);
  sha512 = λ bs. bs;
  verifying_key = λ seed. alice_key;
  sign = λ seed payload. alice_key ++ payload;
}

abbrev replies : List ControlMessage
replies = auth_challenge host.nonce ∷ auth_result success ∷ []

abbrev client_run : FramedBiStream ControlMessage × Result Failure (Unit {0})
client_run =
    authenticate signer up (text "alice") (text "id") config.live_cert_fingerprint (fresh replies)

alice-accepted : client_run.1 ≡ ok tt
unfolding authenticate answer_challenge load_seed load_signing_key build_challenge_payload as_bytes
    encode_utf8
alice-accepted = refl

same_scheme : SameScheme signer host
same_scheme = record {
  same_hash = refl;
  verifies = λ seed payload.
      (alice_key, alice_key ++ payload, refl, refl, str_eq_refl (alice_key ++ payload));
}

alice_seed : load_seed signer (text "id") ≡ ok (replicate 32 9)
unfolding load_seed load_signing_key
alice_seed = refl

alice_fits : length (as_bytes (text "alice")) < 65536
unfolding as_bytes encode_utf8
alice_fits = omega arith

abbrev enrolled : IsEnrolled signer host (text "alice") (text "id")
enrolled = record {
  fits = alice_fits;
  seed = replicate 32 9;
  loaded = alice_seed;
  user = alice;
  exists = alice_found;
  keys = alice_key ∷ [];
  keys_loaded = alice_keys;
  listed = here refl;
}

authenticate_agree_example :
    let daemon_run = Daemon.authenticate host config up (fresh client_run.0.sent) in
    (client_run.1 ≡ ok tt) × (daemon_run.1 ≡ ok (text "alice")) × (daemon_run.0.sent ≡ replies)
authenticate_agree_example =
    authenticate_agree signer host config up up (text "alice") (text "id") same_scheme enrolled
      (λ sent. refl) (λ sent. refl)

abbrev pub alice_config : ClientConfig
alice_config = record {
  host = text "h";
  port = 22;
  ssh_port = 22;
  username = text "alice";
  identity_path = text "id";
  known_hosts_path = text "known_hosts";
  command = some (text "ls");
  subsystem = none;
  local_forwards = [];
  remote_forwards = [];
  no_shell = false;
  control_path = text "cm";
  control_path_explicit = false;
  control_master = false;
  control_master_auto = false;
  control_persist = disabled;
}

-- The certificate is its own fingerprint.
abbrev peer : Peer
peer = record {
  identity = some (certificates ((1 ∷ 2 ∷ []) ∷ []));
  opens = true;
  incoming = replies;
  link = up;
}

abbrev network : Network
network = record {
  Addr = Text;
  resolve = λ name. some name;
  reach = λ lines addr name. some peer;
  sha256 = λ bs. bs;
  signer = signer;
  base64 = letter_code;
  install_authorized_key = λ user name port line. true;
  order = λ m. m;
  fault = λ contents. none;
}

abbrev world : World
world = record {
  hosts = some (record { contents = some (text "h:22 0102"); mode = 384 });
  installed = [];
  sent = [];
}

fingerprint-IsStored : IsStored network alice_config (text "0102") world.hosts
unfolding load get insert_lines insert str_eq split_once starts_with trim trim_start trim_end lines
    lines_from to_string digits_fuel is_whitespace
fingerprint-IsStored = ((text "h:22", text "0102") ∷ [], refl, refl)

open_authenticated-IsPinned_example :
    IsPinned network alice_config
      (text "0102")
      world
      (open_authenticated network alice_config world)
open_authenticated-IsPinned_example =
    open_authenticated-IsPinned network alice_config (text "0102") world fingerprint-IsStored
