-- ===== src/Client/Bootstrap/Sequence.antt =====
-- The rest of `run` of crates/sqsh/src/bootstrap/mod.rs: the client's key, the service of service.rs,
-- and the fingerprint that is pinned.
pub mod Verified
use squish.Proto.Message.{Bytes}
use squish.Client.KnownHosts.{KnownHosts, load, KnownHostsError, Entries, pin, KnownHostsFile}
use squish.Text.{Text, text, to_string, trim}
use squish.Auth.AuthorizedKeys.{format_authorized_key, Base64}
use squish.Client.Bootstrap.{
  Release, BootstrapError, pin_failed, key_failed, Text, Result, text, Bool, Bytes, KnownHostsError,
  [], ok, trim, Option, err,
}
use squish.Client.Bootstrap.Run.{
  Runner, Steps, OsKind, linux, macos, perform, perform_only, sudo, install_release, write_config,
  is_sqshd_running, BootstrapConfig, Remote, run_command, write_file, remote_key_path,
}
use squish.Proto.Stream.{Talk, FramedBiStream, pure, bail, ◌>>=◌, ◌>>◌, fresh}
use squish.Prelude.{ℕ, Result, ◌++◌, Bool, List, [], true, false, Option}

-- `authorized_key_install_command`.
unfoldable pub authorized_key_install_command : Text → Text
authorized_key_install_command key =
    text "sh -c 'mkdir -p \"$HOME/.squish\" && chmod 700 \"$HOME/.squish\" && "
    ++ (text "touch \"$HOME/.squish/authorized_keys\" && "
        ++ (text "chmod 600 \"$HOME/.squish/authorized_keys\" && { grep -qxF -f "
            ++ (key
                ++ (text " \"$HOME/.squish/authorized_keys\" || cat "
                    ++ (key
                        ++ (text " >> \"$HOME/.squish/authorized_keys\"; } && rm -f "
                            ++ (key ++ text "'")))))))

abbrev pub systemd_unit : Text
systemd_unit =
    text "[Unit]\nDescription=SQSH daemon\nAfter=network.target\n\n[Service]\n"
    ++ (text "ExecStart=/usr/local/bin/sqshd --config /etc/sqsh/sqshd.toml\n"
        ++ text "Restart=on-failure\nRestartSec=5\n\n[Install]\nWantedBy=multi-user.target\n")

abbrev pub launchd_plist : Text
launchd_plist =
    text "<?xml version=\"1.0\" encoding=\"UTF-8\"?>\n"
    ++ (text "<!DOCTYPE plist PUBLIC \"-//Apple//DTD PLIST 1.0//EN\"\n"
        ++ (text "  \"http://www.apple.com/DTDs/PropertyList-1.0.dtd\">\n"
            ++ (text "<plist version=\"1.0\">\n<dict>\n  <key>Label</key>\n"
                ++ (text "  <string>com.sqsh.sqshd</string>\n  <key>ProgramArguments</key>\n"
                    ++ (text "  <array>\n    <string>/usr/local/bin/sqshd</string>\n"
                        ++ (text
                              "    <string>--config</string>\n    <string>/etc/sqsh/sqshd.toml</string>\n"
                            ++ (text
                                  "  </array>\n  <key>RunAtLoad</key>\n  <true/>\n  <key>KeepAlive</key>\n"
                                ++ (text "  <true/>\n  <key>StandardErrorPath</key>\n"
                                    ++ (text
                                          "  <string>/var/log/sqshd.log</string>\n  <key>StandardOutPath</key>\n"
                                        ++ (text
                                            "  <string>/var/log/sqshd.log</string>\n</dict>\n</plist>\n"))))))))))

abbrev pub fingerprint_query : Remote
fingerprint_query =
    run_command (text "/usr/local/bin/sqshd --config /etc/sqsh/sqshd.toml --emit-fingerprint")

module _ (runner : Runner) where
  -- `install_authorized_key`.
  abbrev pub install_authorized_key : Text → Steps runner (Unit {0})
  install_authorized_key line =
      perform_only runner (write_file remote_key_path (line ++ text "\n"))
      >> perform_only runner (run_command (authorized_key_install_command remote_key_path))

  -- `install_and_start`, and `reload_service`.
  abbrev pub install_and_start : OsKind → Steps runner (Unit {0})
  install_and_start linux =
      perform_only runner (write_file (text "/tmp/sqshd.service") systemd_unit)
      >> sudo runner (text "install -m 644 /tmp/sqshd.service /etc/systemd/system/sqshd.service")
      >> sudo runner (text "systemctl daemon-reload")
      >> sudo runner (text "systemctl enable --now sqshd")
  install_and_start macos =
      perform_only runner (write_file (text "/tmp/com.sqsh.sqshd.plist") launchd_plist)
      >> sudo runner (
          text
            "install -m 644 /tmp/com.sqsh.sqshd.plist /Library/LaunchDaemons/com.sqsh.sqshd.plist")
      >> sudo runner (text "launchctl load -w /Library/LaunchDaemons/com.sqsh.sqshd.plist")

  abbrev pub reload_service : OsKind → Steps runner (Unit {0})
  reload_service linux = sudo runner (text "systemctl restart sqshd")
  reload_service macos = sudo runner (
      text "launchctl unload /Library/LaunchDaemons/com.sqsh.sqshd.plist 2>/dev/null; "
      ++ text "launchctl load -w /Library/LaunchDaemons/com.sqsh.sqshd.plist")

  abbrev pub start_service : OsKind → Bool → Steps runner (Unit {0})
  start_service os true = reload_service os
  start_service os false = install_and_start os

  abbrev pub fetch_fingerprint : Steps runner Text
  fetch_fingerprint = perform runner fingerprint_query

-- What the bootstrap takes from its surroundings.
pub record Bootstrap : Type 1 where
  pub runner : Runner
  pub release : Release
  pub staging : Text
  -- `ensure_client_keypair`: the encoded public key of the identity file.
  pub client_key : Result (Unit {0}) Bytes
  pub base64 : Base64
  pub hosts : Option KnownHostsFile
  pub order : Entries → Entries
  pub fault : Text → Option (Option KnownHostsFile)

-- What a bootstrap leaves: the requests to the host, the known hosts file, and its result.
pub record Bootstrapped : Type 0 where
  pub requests : List Remote
  pub hosts : Option KnownHostsFile
  pub result : Result BootstrapError (Unit {0})

module _ (b : Bootstrap) (cfg : BootstrapConfig) where
  open b use {runner, release, staging, client_key, base64, hosts, order, fault}

  abbrev pub host_port_of : Text
  host_port_of = cfg.host ++ (text ":" ++ to_string cfg.sqshd_port)

  -- Step 6: the file is loaded, and the fingerprint pinned.
  abbrev pub pinned : List Remote → KnownHosts × Result KnownHostsError (Unit {0}) → Bootstrapped
  pinned requests (k, ok u) = record { requests = requests; hosts = k.file; result = ok tt }
  pinned requests (k, err e) = record {
    requests = requests;
    hosts = k.file;
    result = err (pin_failed e);
  }

  abbrev pub pin_into : List Remote → Result KnownHostsError Entries → Text → Bootstrapped
  pin_into requests (err e) fingerprint = record {
    requests = requests;
    hosts = hosts;
    result = err (pin_failed e);
  }
  pin_into requests (ok entries) fingerprint =
      pinned requests
        (pin order fault host_port_of fingerprint (record { entries = entries; file = hosts }))

  abbrev pub pin_fingerprint : FramedBiStream Remote × Result BootstrapError Text → Bootstrapped
  pin_fingerprint (s, ok fingerprint) = pin_into s.sent (load hosts) (trim fingerprint)
  pin_fingerprint (s, err e) = record { requests = s.sent; hosts = hosts; result = err e }

  abbrev pub own_key : Result (Unit {0}) Bytes → Steps runner Bytes
  own_key (ok pubkey) = pure pubkey
  own_key (err e) = bail key_failed

  -- Steps 4 and 5.
  abbrev pub configure : OsKind → Steps runner (Unit {0})
  configure os = own_key client_key >>= λ pubkey.
      install_authorized_key runner (format_authorized_key base64 pubkey [])
      >> (is_sqshd_running runner >>= start_service runner os)

  -- The steps on the remote host, the last of which asks for the fingerprint.
  unfoldable pub remote_steps : Steps runner Text
  unfolding install_release write_config
  remote_steps = install_release runner release staging cfg.squishd_version >>= λ os.
      write_config runner cfg.sqshd_port >> (configure os >> fetch_fingerprint runner)

  -- `run`.
  unfoldable pub run : Bootstrapped
  unfolding remote_steps load pin
  run = pin_fingerprint (remote_steps (fresh []))
