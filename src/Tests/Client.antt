-- ===== src/Tests/Client.antt =====
-- Targets, known hosts and configuration lines.
use mathlib.Core.List.Permᴰ
use squish.Client.Target.{Target}
use squish.Client.Target as Target
use squish.Client.Target.RoundTrip.{parse-to_text, to_text, named_user, u16_port}
use squish.Client.KnownHosts.{
  verify, verify_file, save, get, insert, Entries, KnownHostsFile, load, insert_lines,
}
use squish.Client.KnownHosts.Reloaded.{verify_file-pinned, Fits}
use squish.Client.KnownHosts.Saved.{load-save, Loads, IsEntry}
use squish.Client.HostPatterns.{wildcard_match, host_patterns_match, match_patterns, match_bytes}
use squish.Client.HostPatterns.Matching.{
  wildcard_match_iff, host_patterns_match_iff, Matches, Selects, Excludes,
}
use squish.Client.Tokens.{tokenize_config_line, tokens_from, token_char}
use squish.Client.Tokens.Quoting.{tokenize_config_line-quote_words, quote_words}
use squish.Client.ForwardSpec as ForwardSpec
use squish.Client.ForwardSpec.{ForwardSpec}
use squish.Client.ForwardSpec.RoundTrip.{parse-long_text, long_text, short_text}
use squish.Client.ControlPersist as ControlPersist
use squish.Client.ControlPersist.{disabled, as_arg, timeout}
use squish.Client.ControlPersist.RoundTrip.{parse-as_arg}
use squish.Client.SshConfig.{
  parse_lines, parse_keyword, apply_keyword, default_ssh_config, SshHostConfig,
}
use squish.Client.SshConfig.FirstWins.{parse_lines-Extends, Extends}
use squish.Text.{
  Text, text, as_bytes, str_eq, contains, is_whitespace, starts_with, to_ascii_lowercase, to_lower,
  join, to_string, digits_fuel, encode_utf8, strip_prefix, eq_ignore_case, split_once, rsplit_once,
  lines, lines_from, strip_cr, trim, trim_start, trim_end,
}
use squish.Client.Resolve.{Options, ClientConfig, assemble, resolve_with_home}
use squish.Client.Resolve.Overrides.{resolve_with_home-IsOverridden, IsAssembled, IsOverridden}
use squish.Client.ControlPersist.{disabled, as_arg, timeout}
use squish.Proto.Message.{IoError, not_found}
use squish.Client.RemotePath.{parse_remote, path_or_dot}
use squish.Client.RemotePath.RoundTrip.{parse_remote-append}
use squish.Prelude.{
  ◌≡◌, refl, List, [], ◌∷◌, ◌↔◌, Any, some, none, ok, true, Option, arith, false, Result, err,
  ok-injective,
}

abbrev ipv6_target : Target
ipv6_target = record { user = some (text "bob"); host = text "::1"; port = some 2222 }

to_text-ipv6_target : to_text ipv6_target ≡ text "bob@[::1]:2222"
unfolding to_text contains to_string digits_fuel
to_text-ipv6_target = refl

parse-to_text_example : Target.parse (to_text ipv6_target) ≡ ok ipv6_target
unfolding contains
parse-to_text_example = parse-to_text ipv6_target (record {
  user_ok = named_user (λ e. cc e) refl;
  host_ok = record { nonempty = λ e. cc e; no_at = refl; no_open = refl; no_close = refl };
  port_ok = u16_port (omega arith);
})

abbrev no_fault : Text → Option (Option KnownHostsFile)
no_fault contents = none

abbrev in_order : Entries → Entries
in_order m = m

h-IsEntry : IsEntry (text "h:1", text "aa")
unfolding starts_with is_whitespace
h-IsEntry = record {
  host_word = ((refl, (refl, (refl, tt))), λ e. cc e);
  no_comment = refl;
  fingerprint_word = ((refl, (refl, tt)), λ e. cc e);
}

g-IsEntry : IsEntry (text "g:1", text "bb")
unfolding starts_with is_whitespace
g-IsEntry = record {
  host_word = ((refl, (refl, (refl, tt))), λ e. cc e);
  no_comment = refl;
  fingerprint_word = ((refl, (refl, tt)), λ e. cc e);
}

no_file-Fits : Fits in_order no_fault (λ l. Permᴰ.refl l) none
unfolding load
no_file-Fits m h = rw (← ok-injective h) tt

-- The second connection goes to another host, and the third to the first one again.
verify_file-pinned_example : text "aa" ≡ text "aa"
unfolding verify_file verify load save get insert str_eq insert_lines lines lines_from strip_cr trim
    trim_start trim_end is_whitespace starts_with split_once
verify_file-pinned_example =
    verify_file-pinned in_order no_fault (λ l. Permᴰ.refl l) (text "h:1") (text "aa") none
      ((text "g:1", text "bb") ∷ []) (text "aa") (λ contents. refl) no_file-Fits h-IsEntry
      (g-IsEntry, tt) refl refl

abbrev two_hosts : Entries
two_hosts = (text "h:1", text "aa") ∷ (text "g:1", text "bb") ∷ []

load-save_example : Loads (save in_order no_fault two_hosts).0.file two_hosts
unfolding save get str_eq starts_with is_whitespace
load-save_example =
    load-save in_order no_fault two_hosts (λ l. Permᴰ.refl l) (refl, (refl, tt))
      (h-IsEntry, (g-IsEntry, tt)) refl

wildcard_match_iff_example :
    (wildcard_match (text "*.Example.c?m") (text "a.example.com") ≡ true)
    ↔ Matches (as_bytes (text "*.Example.c?m")) (as_bytes (text "a.example.com"))
wildcard_match_iff_example = wildcard_match_iff (text "*.Example.c?m") (text "a.example.com")

abbrev patterns : List Text
patterns = text "*.example.com" ∷ text "!b.*" ∷ []

host_patterns_match_iff_example : (host_patterns_match patterns (text "a.example.com") ≡ true) ↔ (
    Any (Selects (text "a.example.com")) patterns
    × ¬ Any (Excludes (text "a.example.com")) patterns)
host_patterns_match_iff_example = host_patterns_match_iff patterns (text "a.example.com")

tokenize_config_line-quote_words_example :
    tokenize_config_line (quote_words (text "Host" ∷ text "a # \"b\"\\" ∷ []))
    ≡ text "Host" ∷ text "a # \"b\"\\" ∷ []
tokenize_config_line-quote_words_example =
    tokenize_config_line-quote_words (text "Host" ∷ text "a # \"b\"\\" ∷ [])
      ((λ e. cc e), ((λ e. cc e), tt))

abbrev web : ForwardSpec
web = record {
  bind_addr = text "0.0.0.0";
  bind_port = 8080;
  target_host = text "web";
  target_port = 80;
}

parse-long_text_example :
    (ForwardSpec.parse (long_text web) ≡ ok web)
    × (ForwardSpec.parse (short_text web) ≡ ok (record web { bind_addr = text "127.0.0.1" }))
unfolding contains
parse-long_text_example = parse-long_text web (record {
  addr_clean = refl;
  host_clean = refl;
  bind_fits = omega arith;
  target_fits = omega arith;
})

parse-as_arg_example : ControlPersist.parse (as_arg (timeout 600)) ≡ ok (timeout 600)
parse-as_arg_example = parse-as_arg (timeout 600) (omega arith)

abbrev config_lines : List Text
config_lines = text "User bob" ∷ text "Host *.org" ∷ text "Port 22" ∷ []

abbrev with_user : SshHostConfig
with_user = record default_ssh_config { user = some (text "al") }

parse_lines-Extends_example : Extends with_user with_user
unfolding parse_lines parse_keyword apply_keyword tokenize_config_line tokens_from token_char
    is_whitespace to_ascii_lowercase to_lower str_eq join host_patterns_match match_patterns
    wildcard_match match_bytes as_bytes encode_utf8 strip_prefix eq_ignore_case
parse_lines-Extends_example =
    parse_lines-Extends (text "h") 1 config_lines (true, with_user) {s' = (false, with_user)} refl

abbrev options : Options
options = record {
  port_override = some 2200;
  ssh_port_override = none;
  user_override = none;
  identity_override = some (text "/k");
  command_parts = text "ls" ∷ [];
  subsystem = none;
  local_forward_strs = [];
  remote_forward_strs = [];
  no_shell = false;
  control_path_override = none;
  control_master = false;
  control_persist = none;
  home = text "/home/al";
  user_env = some (text "al");
}

abbrev no_config : Text → Result IoError Text
no_config path = err not_found

abbrev al_at_h : Target
al_at_h = record { user = none; host = text "h"; port = none }

abbrev resolved : ClientConfig
resolved = assemble no_config (λ bs. bs) options al_at_h default_ssh_config [] [] disabled

resolve_with_home-IsOverridden_example :
    (a : IsAssembled no_config (λ bs. bs) (text "h") options resolved) × IsOverridden no_config
      (λ bs. bs)
      options
      a.target
      a.ssh
      resolved
unfolding resolve_with_home Target.parse split_once rsplit_once strip_prefix ControlPersist.parse
resolve_with_home-IsOverridden_example =
    resolve_with_home-IsOverridden no_config (λ bs. bs) (text "h") options {c = resolved} refl

parse_remote-append_example :
    (parse_remote (text "bob:f") ≡ some (text "bob", path_or_dot (text "f")))
    × (parse_remote (text "bob[::1]:f") ≡ some (text "bob[::1]", path_or_dot (text "f")))
    × (parse_remote (text "bob:f[::1].c") ≡ none)
unfolding contains
parse_remote-append_example =
    parse_remote-append (text "bob") (text "f") (text "bob") (text "::1") (text "f") (text "::1")
      (text ".c") refl refl refl refl refl refl refl
