-- ===== src/Client/Resolve/Overrides.antt =====
-- Which source decides the values of a configuration (crates/sqsh/src/config.rs).
use squish.Client.Resolve.{
  Options, ClientConfig, resolve_with_home, load_ssh_config, finish_resolve, assemble,
  parse_forwards, map_err, bad_target, bad_persist, ◌or◌, command_of, err, unwrap_or, expanded_in,
  default_control_path,
}
use squish.Client.Target.{Target}
use squish.Client.Target as Target
use squish.Client.ForwardSpec.{ForwardSpec}
use squish.Client.ControlPersist as ControlPersist
use squish.Client.SshConfig.{SshHostConfig}
use squish.Proto.Message.{Bytes, IoError}
use squish.Text.{Text, text, join_path}
use squish.Prelude.{
  ◌≡◌, refl, Option, none, some, List, ◌++◌, ◌∷◌, [], Result, ok, ◌>>=◌, >>=-eq-ok, ok-injective,
  ◌⊎◌, inl, inr,
}

map_err-eq-ok {ℓ} :
    {A : Type ℓ} {E F : Type 0} (f : E → F) (r : Result E A) {a : A} → map_err f r ≡ ok a → r ≡ ok a
map_err-eq-ok f (ok a) h = cc
map_err-eq-ok f (err e) h = cc

command_of-exclusive :
    (subsystem : Option Text) (parts : List Text)
    → (subsystem ≡ none) ⊎ (command_of subsystem parts ≡ none)
command_of-exclusive none parts = inl refl
command_of-exclusive (some s) parts = inr refl

-- The first source that gives a value decides.
pub data Decides {ℓ} {A : Type ℓ} : List (Option A) → A → Type ℓ where
  here : {a : A} {sources : List (Option A)} → Decides (some a ∷ sources) a
  there : {a : A} {sources : List (Option A)} → Decides sources a → Decides (none ∷ sources) a

module _ {ℓ} {A : Type ℓ} where
  decides_2 : (o : Option A) (d : A) → Decides (o ∷ some d ∷ []) (unwrap_or o d)
  decides_2 (some a) d = Decides.here
  decides_2 none d = Decides.there Decides.here

  decides_or :
      (o p : Option A) (d : A) (sources : List (Option A))
      → Decides sources (unwrap_or p d)
      → Decides (o ∷ sources) (unwrap_or (o or p) d)
  decides_or (some a) p d sources h = Decides.here
  decides_or none p d sources h = Decides.there h

  decides_3 : (o p : Option A) (d : A) → Decides (o ∷ p ∷ some d ∷ []) (unwrap_or (o or p) d)
  decides_3 o p d = decides_or o p d _ (decides_2 p d)

  decides_4 :
      (o p q : Option A) (d : A) → Decides (o ∷ p ∷ q ∷ some d ∷ []) (unwrap_or (o or p or q) d)
  decides_4 o p q d = decides_or o (p or q) d _ (decides_3 p q d)

  decides_5 :
      (o p q r : Option A) (d : A)
      → Decides (o ∷ p ∷ q ∷ r ∷ some d ∷ []) (unwrap_or (o or p or q or r) d)
  decides_5 o p q r d = decides_or o (p or q or r) d _ (decides_4 p q r d)

module _ (read_to_string : Text → Result IoError Text) (sha256 : Bytes → Bytes) where
  -- The forwards of the file come first, then those of the command line.
  pub record IsAssembled (target_str : Text) (o : Options) (c : ClientConfig) : Type 0 where
    pub target : Target
    pub parsed : Target.parse target_str ≡ ok target
    pub ssh : SshHostConfig
    pub loaded :
        load_ssh_config read_to_string sha256
          (join_path (join_path o.home (text ".ssh")) (text "config"))
          target.host
        ≡ ok ssh
    pub local : List ForwardSpec
    pub locals : parse_forwards o.local_forward_strs ≡ ok local
    pub remote : List ForwardSpec
    pub remotes : parse_forwards o.remote_forward_strs ≡ ok remote
    pub local_forwards : c.local_forwards ≡ ssh.local_forwards ++ local
    pub remote_forwards : c.remote_forwards ≡ ssh.remote_forwards ++ remote

  abbrev pub config_dir : Options → Text
  config_dir o = join_path (join_path o.home (text ".config")) (text "sqsh")

  -- Each value comes from the first source that has one, in the order of the lists.
  pub record IsOverridden (o : Options) (t : Target) (ssh : SshHostConfig) (c : ClientConfig)
      : Type 0 where
    pub host : Decides (ssh.host_name ∷ some t.host ∷ []) c.host
    pub port : Decides (o.port_override ∷ t.port ∷ ssh.port ∷ some 2222 ∷ []) c.port
    pub ssh_port : Decides (o.ssh_port_override ∷ some 22 ∷ []) c.ssh_port
    pub username :
        Decides
          (o.user_override ∷ t.user ∷ ssh.user ∷ o.user_env ∷ some (text "root") ∷ [])
          c.username
    pub identity :
        Decides
          (o.identity_override
            ∷ expanded_in read_to_string sha256 o t c.host c.port c.username ssh.identity_file
            ∷ some (join_path (config_dir o) (text "id_ml_dsa_65"))
            ∷ [])
          c.identity_path
    pub control_path :
        Decides
          (o.control_path_override
            ∷ expanded_in read_to_string sha256 o t c.host c.port c.username ssh.control_path
            ∷ some (default_control_path sha256 (config_dir o) c.username c.host c.port)
            ∷ [])
          c.control_path
    pub subsystem : c.subsystem ≡ o.subsystem
    pub no_command : (c.subsystem ≡ none) ⊎ (c.command ≡ none)

  assemble-IsOverridden :
      (o : Options) (t : Target) (ssh : SshHostConfig) (local remote : List ForwardSpec)
      (persist : ControlPersist.ControlPersist)
      → IsOverridden o t ssh (assemble read_to_string sha256 o t ssh local remote persist)
  assemble-IsOverridden o t ssh local remote persist = record {
    host = decides_2 ssh.host_name t.host;
    port = decides_4 o.port_override t.port ssh.port 2222;
    ssh_port = decides_2 o.ssh_port_override 22;
    username = decides_5 o.user_override t.user ssh.user o.user_env (text "root");
    identity = decides_3 o.identity_override _ _;
    control_path = decides_3 o.control_path_override _ _;
    subsystem = refl;
    no_command = command_of-exclusive o.subsystem o.command_parts;
  }

  -- A configuration that is resolved takes these values from the first source that gives one: the
  -- port from its option, the target `user@host:port`, the ssh config file, or 2222; the user from
  -- its option, the target, the file, the environment, or `root`; identity and control path from
  -- their options, the file, or the defaults; the host from the file or the target; the ssh port
  -- from its option, or 22. It runs no command beside a subsystem, and its forwards are those that
  -- the file sets for the host, followed by those of the command line.
  pub resolve_with_home-IsOverridden :
      (target_str : Text) (o : Options) {c : ClientConfig}
      → resolve_with_home read_to_string sha256 target_str o ≡ ok c
      → (a : IsAssembled target_str o c) × IsOverridden o a.target a.ssh c
  unfolding resolve_with_home
  resolve_with_home-IsOverridden target_str o h =
      let path = join_path (join_path o.home (text ".ssh")) (text "config") in
      let load = load_ssh_config read_to_string sha256 path in
      let finish = finish_resolve read_to_string sha256 o in
      let (target, e₁, h₁) =
        >>=-eq-ok (map_err bad_target (Target.parse target_str))
          (λ target. load target.host >>= finish target) h in
      let (ssh, e₂, h₂) = >>=-eq-ok (load target.host) (finish target) h₁ in
      let (local, e₃, h₃) = >>=-eq-ok (parse_forwards o.local_forward_strs) _ h₂ in
      let (remote, e₄, h₄) = >>=-eq-ok (parse_forwards o.remote_forward_strs) _ h₃ in
      let (persist, e₅, h₅) =
        >>=-eq-ok
          (map_err bad_persist (ControlPersist.parse (o.control_persist or ssh.control_persist))) _
          h₄ in
      rw (← ok-injective h₅) (
        record {
          target = target;
          parsed = map_err-eq-ok bad_target (Target.parse target_str) e₁;
          ssh = ssh;
          loaded = e₂;
          local = local;
          locals = e₃;
          remote = remote;
          remotes = e₄;
          local_forwards = refl;
          remote_forwards = refl;
        },
        assemble-IsOverridden o target ssh local remote persist,
      )
