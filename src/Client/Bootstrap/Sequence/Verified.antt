-- ===== src/Client/Bootstrap/Sequence/Verified.antt =====
-- A bootstrap of crates/sqsh/src/bootstrap/mod.rs that succeeds.
use mathlib.Core.List.{Permᴰ}
use squish.Client.KnownHosts.Lookup.{get-insert}
use squish.Client.KnownHosts.Saved.{IsEntry}
use squish.Client.KnownHosts.Reloaded.{Holds, save-Holds, insert-IsMap, load-IsMap, insert-All}
use squish.Client.KnownHosts.{KnownHosts, Entries, pin, load, KnownHostsError, save, insert}
use squish.Proto.Stream.Steps.{lift-eq-ok}
use squish.Proto.Stream.{FramedBiStream, ◌>>◌, lift, pure, ◌>>=◌, fresh}
use squish.Text.{Text, join_path, text, trim}
use squish.Client.Bootstrap.Sequence.{
  Bootstrap, run, remote_steps, pin_into, pinned, pin_fingerprint, configure, host_port_of,
  fetch_fingerprint, fingerprint_query,
}
use squish.Client.Bootstrap.Run.{
  stdout_of, Steps, ensure_installed, with_target, with_arch, with_os, install_release,
  is_sqshd_installed, says_installed, detect_os, perform, check_version, install_binary,
  write_config, BootstrapConfig, OsKind, Remote, require, run_command, release_target,
  installed_query, attempt,
}
use squish.Client.Bootstrap.Signed.{IsSigned, download_and_verify-IsSigned}
use squish.Client.Bootstrap.{
  BootstrapError, release_archive_name, Option, Text, Bool, true, join_path, ok,
  download_and_verify_sqshd_release, text, List, Result, some, KnownHostsError, err, trim,
}
use squish.Proto.Stream.Steps
use squish.Prelude.{
  Option, ◌≡◌, Bool, true, ok, false, ok-injective, List, ap, Result, some, none, Result-cases, inr,
  ◌∙◌, inl, All, refl, err, [],
}

module _ (b : Bootstrap) (cfg : BootstrapConfig) where
  -- The daemon was there, or the release that was fetched is the signed one.
  pub data Released : Type 0 where
    present :
        (earlier : List Remote)
        → says_installed (stdout_of b.runner earlier installed_query) ≡ true
        → Released
    verified :
        (target : Text)
        → IsSigned b.release
            (join_path b.staging (release_archive_name target))
            (join_path b.staging (text "SHA256SUMS"))
            (join_path b.staging (text "SHA256SUMS.minisig"))
            (release_archive_name target)
        → Released

  ensure_installed-Released :
      (target : Text) (earlier : List Remote) (installed : Bool) (s t : FramedBiStream Remote)
      → says_installed (stdout_of b.runner earlier installed_query) ≡ installed
      → ensure_installed b.runner b.release b.staging cfg.squishd_version target installed s
        ≡ (t, ok tt)
      → Released
  ensure_installed-Released target earlier true s t a h = present earlier a
  ensure_installed-Released target earlier false s t a h =
      let version = cfg.squishd_version in
      let fetched = download_and_verify_sqshd_release b.release b.staging version target in
      let (s₁, u, e₁, h₁) =
        Steps.>>=-eq-ok (lift (check_version b.runner version))
          (λ _. lift fetched >>= install_binary b.runner) s h in
      let (s₂, binary, e₂, h₂) = Steps.>>=-eq-ok (lift fetched) (install_binary b.runner) s₁ h₁ in
      verified target (
        download_and_verify-IsSigned b.release b.staging version target
          (lift-eq-ok fetched s₁ e₂).1)

  with_target-Released :
      (os : OsKind) (target : Text) (s t : FramedBiStream Remote) {os' : OsKind}
      → with_target b.runner b.release b.staging cfg.squishd_version os target s ≡ (t, ok os')
      → Released
  with_target-Released os target s t h =
      let install = ensure_installed b.runner b.release b.staging cfg.squishd_version target in
      let go_on : Bool → Steps b.runner OsKind = λ installed. install installed >> pure os in
      let (s₁, installed, e₁, h₁) = Steps.>>=-eq-ok (is_sqshd_installed b.runner) go_on s h in
      let (s₂, u, e₂, h₂) = Steps.>>=-eq-ok (install installed) (λ _. pure os) s₁ h₁ in
      ensure_installed-Released target s.sent installed s₁ s₂ (ok-injective (ap (λ x. x.1) e₁)) e₂

  install_release-Released :
      (s t : FramedBiStream Remote) {os : OsKind}
      → install_release b.runner b.release b.staging cfg.squishd_version s ≡ (t, ok os)
      → Released
  unfolding install_release
  install_release-Released s t h =
      let next = with_target b.runner b.release b.staging cfg.squishd_version in
      let arch_next = with_arch b.runner b.release b.staging cfg.squishd_version in
      let os_next = with_os b.runner b.release b.staging cfg.squishd_version in
      let (s₁, os, e₁, h₁) = Steps.>>=-eq-ok (detect_os b.runner) os_next s h in
      let (s₂, arch, e₂, h₂) =
        Steps.>>=-eq-ok (perform b.runner (run_command (text "uname -m"))) (arch_next os) s₁ h₁ in
      let (s₃, target, e₃, h₃) = Steps.>>=-eq-ok (lift (release_target os arch)) (next os) s₂ h₂ in
      with_target-Released os target s₃ t h₃

  require-eq-ok :
      (o : Option Text) (s t : FramedBiStream Remote) {output : Text}
      → require b.runner o s ≡ (t, ok output)
      → o ≡ some output
  require-eq-ok none s t h = cc
  require-eq-ok (some out) s t h = cc

  -- The host's own answer to the question for its fingerprint.
  abbrev pub Answers : Text → Type 0
  Answers output =
      (earlier : List Remote) × (stdout_of b.runner earlier fingerprint_query ≡ some output)

  fetch_fingerprint-Answers :
      (s t : FramedBiStream Remote) {output : Text}
      → fetch_fingerprint b.runner s ≡ (t, ok output)
      → Answers output
  fetch_fingerprint-Answers s t h =
      let (s₂, answer, e₂, h₂) =
        Steps.>>=-eq-ok (attempt b.runner fingerprint_query) (require b.runner) s h in
      let asked : stdout_of b.runner s.sent fingerprint_query ≡ answer =
        ok-injective (ap (λ x. x.1) e₂) in
      (s.sent, asked ∙ require-eq-ok answer s₂ t h₂)

  remote_steps-Released :
      (s t : FramedBiStream Remote) {output : Text}
      → remote_steps b cfg s ≡ (t, ok output)
      → Released × Answers output
  unfolding remote_steps
  remote_steps-Released s t h =
      let install = install_release b.runner b.release b.staging cfg.squishd_version in
      let fetch : Steps b.runner Text = fetch_fingerprint b.runner in
      let after : OsKind → Steps b.runner Text =
        λ os. write_config b.runner cfg.sqshd_port >> (configure b cfg os >> fetch) in
      let (s₁, os, e₁, h₁) = Steps.>>=-eq-ok install after s h in
      let (s₂, u, e₂, h₂) =
        Steps.>>=-eq-ok (write_config b.runner cfg.sqshd_port) (λ _. configure b cfg os >> fetch) s₁
          h₁ in
      let (s₃, v, e₃, h₃) = Steps.>>=-eq-ok (configure b cfg os) (λ _. fetch) s₂ h₂ in
      (install_release-Released s s₁ e₁, fetch_fingerprint-Answers s₃ t h₃)

  pinned-saved :
      (requests : List Remote) (x : KnownHosts × Result KnownHostsError (Unit {0}))
      → (pinned b cfg requests x).result ≡ ok tt
      → (x.1 ≡ ok tt) × ((pinned b cfg requests x).hosts ≡ x.0.file)
  pinned-saved requests (k, ok u) h = (refl, refl)
  pinned-saved requests (k, err e) h = cc

  module _ (permutes : (l : Entries) → Permᴰ (b.order l) l)
      (fits : (m : Entries) → load b.hosts ≡ ok m → All IsEntry m) where
    pin_into-Holds :
        (requests : List Remote) (fingerprint : Text)
        → IsEntry (host_port_of b cfg, fingerprint)
        → (pin_into b cfg requests (load b.hosts) fingerprint).result ≡ ok tt
        → Holds
            (pin_into b cfg requests (load b.hosts) fingerprint).hosts
            (host_port_of b cfg)
            fingerprint
    unfolding pin
    pin_into-Holds requests fingerprint e h = elim (Result-cases (load b.hosts)) [
      | inr (why, q) ↦ cc (rw q at h)
      | inl (entries, q) ↦
          let map = insert (host_port_of b cfg) fingerprint entries in
          let saved = save b.order b.fault map in
          let (done, file) = pinned-saved requests saved (rw q at h) in
          rw (q, file)
            (save-Holds b.order b.fault permutes map (host_port_of b cfg) fingerprint
              (insert-IsMap (host_port_of b cfg) fingerprint entries (load-IsMap b.hosts q))
              (insert-All IsEntry (host_port_of b cfg) fingerprint entries e (fits entries q))
              (get-insert (host_port_of b cfg) fingerprint entries) done)
    ]

    pin_fingerprint-IsVerified :
        (x : FramedBiStream Remote × Result BootstrapError Text)
        → ((t : FramedBiStream Remote) (output : Text)
            → x ≡ (t, ok output)
            → Released × Answers output)
        → ((output : Text) → Answers output → IsEntry (host_port_of b cfg, trim output))
        → (pin_fingerprint b cfg x).result ≡ ok tt
        → Released
          × ((output : Text) × Answers output
              × Holds (pin_fingerprint b cfg x).hosts (host_port_of b cfg) (trim output))
    pin_fingerprint-IsVerified (s, err e) r one_word h = cc
    pin_fingerprint-IsVerified (s, ok output) r one_word h =
        let (released, answers) = r s output refl in
        (
          released,
          (output, answers, pin_into-Holds s.sent (trim output) (one_word output answers) h),
        )

    -- A bootstrap that succeeds has found the daemon on the host, or has fetched a release whose
    -- manifest the embedded key signed and lists once with the SHA-256 of the archive; and the
    -- known hosts file that it leaves can be loaded, and has, for the host and the daemon's port,
    -- the fingerprint that the host itself gave. This takes a map that is iterated in some order of
    -- its entries, and that the entries the file had before, and the name and the fingerprint that
    -- are added, fit the format of the file.
    pub run-IsVerified :
        ((output : Text) → Answers output → IsEntry (host_port_of b cfg, trim output))
        → (run b cfg).result ≡ ok tt
        → Released
          × ((output : Text) × Answers output
              × Holds (run b cfg).hosts (host_port_of b cfg) (trim output))
    unfolding run
    run-IsVerified one_word h =
        pin_fingerprint-IsVerified (remote_steps b cfg (fresh []))
          (λ t output e. remote_steps-Released (fresh []) t e) one_word h
