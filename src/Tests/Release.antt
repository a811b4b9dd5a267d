-- ===== src/Tests/Release.antt =====
-- A bootstrap of a host that has the daemon, and a manifest with `./` before the name.
use squish.Proto.Message.{not_found}
use squish.Text.{
  lines, split_whitespace, text, str_eq, Text, words_from, starts_with, lines_from, strip_cr, trim,
  trim_start, trim_end, is_whitespace, to_string, digits_fuel,
}
use squish.Client.Bootstrap.{Release, checksum_for_asset, missing_entry}
use squish.Client.Bootstrap.Run.{
  BootstrapConfig, Remote, run_command, install_release, release_target, contains_text, ends_with,
  write_config,
}
use mathlib.Core.List.Permᴰ
use squish.Client.Bootstrap.Sequence.{Bootstrap, run, remote_steps, host_port_of}
use squish.Client.Bootstrap.Sequence.Verified.{Released, Answers, run-IsVerified}
use squish.Client.Bootstrap.Listed.{IsDotSlash, checksum_for_asset_dot_slash}
use squish.Tests.Instances.{letter_code, alice_key}
use squish.Client.KnownHosts.{Entries, load, pin, save, insert}
use squish.Client.KnownHosts.Saved.{IsEntry}
use squish.Client.KnownHosts.Reloaded.{Holds}
use squish.Prelude.{
  List, err, [], ok, if◌then◌else◌, ◌∷◌, ◌≡◌, Option, none, some, inr, refl, true, All,
  some-injective, ok-injective,
}

abbrev release : Release
release = record {
  read_to_string = λ path. err not_found;
  read = λ path. err not_found;
  sha256 = λ bs. bs;
  Key = Unit {0};
  Signature = Unit {0};
  signing_key = some tt;
  decode = λ s. some tt;
  verify = λ key bs sig. true;
  download = λ url path. true;
  extract = λ path. true;
}

-- A Linux host with a running daemon.
abbrev answers : Text → Text
answers cmd =
    if str_eq cmd (text "uname -s")
    then text "Linux"
    else if str_eq cmd (text "uname -m")
    then text "x86_64"
    else if contains_text (text "command -v") cmd
    then text "yes"
    else if contains_text (text "--emit-fingerprint") cmd
    then text "ab12"
    else text "running"

abbrev runner : List Remote → Remote → Option Text
runner earlier (run_command cmd) = some (answers cmd)
runner earlier _ = some []

abbrev bootstrap : Bootstrap
bootstrap = record {
  runner = runner;
  release = release;
  staging = text "/tmp/x";
  client_key = ok alice_key;
  base64 = letter_code;
  hosts = none;
  order = λ m. m;
  fault = λ contents. none;
}

abbrev settings : BootstrapConfig
settings = record {
  host = text "h";
  ssh_port = 22;
  sqshd_port = 2222;
  ssh_user = none;
  squishd_version = none;
}

bootstrapped : (run bootstrap settings).result ≡ ok tt
unfolding run remote_steps install_release release_target str_eq contains_text ends_with starts_with
    write_config load pin save insert trim trim_start trim_end is_whitespace to_string digits_fuel
bootstrapped = refl

pinned_file :
    (run bootstrap settings).hosts
    ≡ some (record { contents = some (text "h:2222 ab12\n"); mode = 384 })
unfolding run remote_steps install_release release_target str_eq contains_text ends_with starts_with
    write_config load pin save insert trim trim_start trim_end is_whitespace to_string digits_fuel
pinned_file = refl

fingerprint-IsEntry : IsEntry (host_port_of bootstrap settings, trim (text "ab12"))
unfolding trim trim_start trim_end is_whitespace to_string digits_fuel starts_with
fingerprint-IsEntry = record {
  host_word = ((refl, (refl, (refl, (refl, (refl, (refl, tt)))))), λ e. cc e);
  no_comment = refl;
  fingerprint_word = ((refl, (refl, (refl, (refl, tt)))), λ e. cc e);
}

answer-IsEntry :
    (output : Text)
    → Answers bootstrap settings output
    → IsEntry (host_port_of bootstrap settings, trim output)
unfolding contains_text str_eq starts_with trim is_whitespace
answer-IsEntry output (earlier, e) =
    let same : text "ab12" ≡ output = some-injective e in rw (← same) fingerprint-IsEntry

empty_file-fits : (m : Entries) → load bootstrap.hosts ≡ ok m → All IsEntry m
unfolding load
empty_file-fits m h = rw (← ok-injective h) tt

run-IsVerified_example :
    Released bootstrap settings
    × ((output : Text) × Answers bootstrap settings output
        × Holds (run bootstrap settings).hosts (host_port_of bootstrap settings) (trim output))
run-IsVerified_example =
    run-IsVerified bootstrap settings (λ l. Permᴰ.refl l) empty_file-fits answer-IsEntry
      bootstrapped

abbrev manifest : Text
manifest = text "00  ./a"

manifest-IsDotSlash : IsDotSlash (text "a") manifest
unfolding split_whitespace words_from trim trim_start trim_end is_whitespace
manifest-IsDotSlash = (text "00", [], refl)

manifest-lines : lines manifest ≡ manifest ∷ []
unfolding lines lines_from strip_cr
manifest-lines = refl

checksum_for_asset_dot_slash_example : checksum_for_asset manifest (text "a") ≡ err missing_entry
checksum_for_asset_dot_slash_example =
    checksum_for_asset_dot_slash manifest (text "a")
      (rw manifest-lines (inr manifest-IsDotSlash, tt))
