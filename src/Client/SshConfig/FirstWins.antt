-- ===== src/Client/SshConfig/FirstWins.antt =====
-- The values of an ssh config file while further lines are parsed (crates/sqsh/src/config.rs).
use squish.Client.Tokens.{tokenize_config_line}
use squish.Client.ForwardSpec.{ForwardError, ForwardSpec, parse_ssh_config}
use squish.Client.SshConfig.{
  SshHostConfig, set_once, apply_keyword, set_master, SshConfigError, set_port, ok, with_context,
  err, bad_remote_forward, bad_local_forward, parse_lines, parse_keyword, ParseState, parse_line,
}
use squish.Text.{Text, str_eq, text, parse_unsigned, u16_max, to_ascii_lowercase, join}
use squish.Prelude.{
  ◌>>=◌, ◌≡◌, Option, none, some, List, ◌++◌, Result, append_assoc, Bool, ℕ, [], sym, append-nil,
  if◌then◌else◌, ◌∙◌, true, Option-cases, false, ◌∷◌, inl, inr, refl, subst, ok-injective,
  >>=-eq-ok, ◌+◌, Bool-cases, ap, not, ◌||◌, is_empty,
}

-- A value, once set, stays.
abbrev pub Keeps {ℓ} : {A : Type ℓ} → Option A → Option A → Type ℓ
Keeps {A = A} a b = (v : A) → a ≡ some v → b ≡ some v

-- The list goes on as it was.
abbrev pub Grows {ℓ} : {A : Type ℓ} → List A → List A → Type ℓ
Grows {A = A} xs ys = (zs : List A) × (ys ≡ xs ++ zs)

-- What is set stays, field by field, and the forwards are kept.
abbrev pub Extends : SshHostConfig → SshHostConfig → Type 0
Extends c c' =
    Keeps c.host_name c'.host_name
    × Keeps c.user c'.user
    × Keeps c.port c'.port
    × Keeps c.identity_file c'.identity_file
    × Grows c.local_forwards c'.local_forwards
    × Grows c.remote_forwards c'.remote_forwards
    × Keeps c.control_path c'.control_path
    × Keeps c.control_master c'.control_master
    × Keeps c.control_persist c'.control_persist

set_once-Keeps : (o : Option Text) (value : Text) → Keeps o (set_once o value)
set_once-Keeps none value v h = cc
set_once-Keeps (some w) value v h = h

set_master-Keeps : (o : Option Bool) (value : Text) → Keeps o (set_master o value)
set_master-Keeps none value v h = cc
set_master-Keeps (some w) value v h = h

kept {ℓ} : {A : Type ℓ} (o : Option A) → Keeps o o
kept o v h = h

same {ℓ} : {A : Type ℓ} (xs : List A) → Grows xs xs
same xs = ([], sym (append-nil xs))

Grows-trans {ℓ} :
    {A : Type ℓ} (xs : List A) {ys zs : List A} → Grows xs ys → Grows ys zs → Grows xs zs
Grows-trans xs (us, e) (vs, f) = (us ++ vs, rw (f, e) (append_assoc xs us vs))

Extends-trans :
    (c : SshHostConfig) {c' c'' : SshHostConfig} → Extends c c' → Extends c' c'' → Extends c c''
Extends-trans c a b = (
  λ v h. b.0 v (a.0 v h),
  λ v h. b.1 v (a.1 v h),
  λ v h. b.2 v (a.2 v h),
  λ v h. b.3 v (a.3 v h),
  Grows-trans c.local_forwards a.4 b.4,
  Grows-trans c.remote_forwards a.5 b.5,
  λ v h. b.6 v (a.6 v h),
  λ v h. b.7 v (a.7 v h),
  λ v h. b.8 v (a.8 v h),
)

-- A successful result extends the configuration.
abbrev OkExtends : SshHostConfig → Result SshConfigError SshHostConfig → Type 0
OkExtends c (ok c') = Extends c c'
OkExtends c (err e) = Unit

if-OkExtends :
    (c : SshHostConfig) (b : Bool) (x y : Result SshConfigError SshHostConfig)
    → OkExtends c x
    → OkExtends c y
    → OkExtends c (if b then x else y)
if-OkExtends c true x y p q = p
if-OkExtends c false x y p q = q

port-OkExtends :
    (line_no : ℕ) (value : Text) (c : SshHostConfig) (o : Option ℕ)
    → c.port ≡ o
    → OkExtends c (set_port line_no o value >>= λ p. ok (record c { port = p }))
port-OkExtends line_no value c (some p) e = (
  kept c.host_name,
  kept c.user,
  λ v h. sym e ∙ h,
  kept c.identity_file,
  same c.local_forwards,
  same c.remote_forwards,
  kept c.control_path,
  kept c.control_master,
  kept c.control_persist,
)
port-OkExtends line_no value c none e = elim (Option-cases (parse_unsigned u16_max value)) [
  | inl n ↦ rw n tt
  | inr (p, q) ↦ rw q (
      (
        kept c.host_name,
        kept c.user,
        λ v h. cc (e, h),
        kept c.identity_file,
        same c.local_forwards,
        same c.remote_forwards,
        kept c.control_path,
        kept c.control_master,
        kept c.control_persist,
      ))
]

local-OkExtends :
    (line_no : ℕ) (c : SshHostConfig) (r : Result ForwardError ForwardSpec)
    → OkExtends c (
        with_context r (bad_local_forward line_no) >>= λ f.
        ok (record c { local_forwards = c.local_forwards ++ f ∷ [] }))
local-OkExtends line_no c (err e) = tt
local-OkExtends line_no c (ok f) = (
  kept c.host_name,
  kept c.user,
  kept c.port,
  kept c.identity_file,
  (f ∷ [], refl),
  same c.remote_forwards,
  kept c.control_path,
  kept c.control_master,
  kept c.control_persist,
)

remote-OkExtends :
    (line_no : ℕ) (c : SshHostConfig) (r : Result ForwardError ForwardSpec)
    → OkExtends c (
        with_context r (bad_remote_forward line_no) >>= λ f.
        ok (record c { remote_forwards = c.remote_forwards ++ f ∷ [] }))
remote-OkExtends line_no c (err e) = tt
remote-OkExtends line_no c (ok f) = (
  kept c.host_name,
  kept c.user,
  kept c.port,
  kept c.identity_file,
  same c.local_forwards,
  (f ∷ [], refl),
  kept c.control_path,
  kept c.control_master,
  kept c.control_persist,
)

apply_keyword-OkExtends :
    (line_no : ℕ) (keyword value : Text) (c : SshHostConfig)
    → OkExtends c (apply_keyword line_no keyword value c)
unfolding apply_keyword
apply_keyword-OkExtends line_no keyword value c =
    if-OkExtends c (str_eq keyword (text "hostname")) _ _
      (
        set_once-Keeps c.host_name value,
        kept c.user,
        kept c.port,
        kept c.identity_file,
        same c.local_forwards,
        same c.remote_forwards,
        kept c.control_path,
        kept c.control_master,
        kept c.control_persist,
      )
      (if-OkExtends c (str_eq keyword (text "user")) _ _
        (
          kept c.host_name,
          set_once-Keeps c.user value,
          kept c.port,
          kept c.identity_file,
          same c.local_forwards,
          same c.remote_forwards,
          kept c.control_path,
          kept c.control_master,
          kept c.control_persist,
        )
        (if-OkExtends c (str_eq keyword (text "port")) _ _
          (port-OkExtends line_no value c c.port refl)
          (if-OkExtends c (str_eq keyword (text "identityfile")) _ _
            (
              kept c.host_name,
              kept c.user,
              kept c.port,
              set_once-Keeps c.identity_file value,
              same c.local_forwards,
              same c.remote_forwards,
              kept c.control_path,
              kept c.control_master,
              kept c.control_persist,
            )
            (if-OkExtends c (str_eq keyword (text "localforward")) _ _
              (local-OkExtends line_no c (parse_ssh_config value))
              (if-OkExtends c (str_eq keyword (text "remoteforward")) _ _
                (remote-OkExtends line_no c (parse_ssh_config value))
                (if-OkExtends c (str_eq keyword (text "controlpath")) _ _
                  (
                    kept c.host_name,
                    kept c.user,
                    kept c.port,
                    kept c.identity_file,
                    same c.local_forwards,
                    same c.remote_forwards,
                    set_once-Keeps c.control_path value,
                    kept c.control_master,
                    kept c.control_persist,
                  )
                  (if-OkExtends c (str_eq keyword (text "controlmaster")) _ _
                    (
                      kept c.host_name,
                      kept c.user,
                      kept c.port,
                      kept c.identity_file,
                      same c.local_forwards,
                      same c.remote_forwards,
                      kept c.control_path,
                      set_master-Keeps c.control_master value,
                      kept c.control_persist,
                    )
                    (if-OkExtends c (str_eq keyword (text "controlpersist")) _ _
                      (
                        kept c.host_name,
                        kept c.user,
                        kept c.port,
                        kept c.identity_file,
                        same c.local_forwards,
                        same c.remote_forwards,
                        kept c.control_path,
                        kept c.control_master,
                        set_once-Keeps c.control_persist value,
                      )
                      (
                        kept c.host_name,
                        kept c.user,
                        kept c.port,
                        kept c.identity_file,
                        same c.local_forwards,
                        same c.remote_forwards,
                        kept c.control_path,
                        kept c.control_master,
                        kept c.control_persist,
                      )))))))))

apply_keyword-Extends :
    (line_no : ℕ) (keyword value : Text) (c : SshHostConfig) {c' : SshHostConfig}
    → apply_keyword line_no keyword value c ≡ ok c'
    → Extends c c'
apply_keyword-Extends line_no keyword value c h =
    subst (OkExtends c) h (apply_keyword-OkExtends line_no keyword value c)

Extends-refl : (c : SshHostConfig) → Extends c c
Extends-refl c = (
  kept c.host_name,
  kept c.user,
  kept c.port,
  kept c.identity_file,
  same c.local_forwards,
  same c.remote_forwards,
  kept c.control_path,
  kept c.control_master,
  kept c.control_persist,
)

parse_keyword-Extends :
    (host : Text) (line_no : ℕ) (keyword : Text) (args : List Text) (s : ParseState)
    {s' : ParseState}
    → parse_keyword host line_no keyword args s ≡ ok s'
    → Extends s.1 s'.1
unfolding parse_keyword
parse_keyword-Extends host line_no keyword args (active, c) h =
    elim (Bool-cases (str_eq keyword (text "host"))) [
      | inl e ↦ rw (← ap (λ s. s.1) (ok-injective (rw e at h))) (Extends-refl c)
      | inr e ↦ elim (Bool-cases (not active || is_empty args)) [
        | inl skip ↦ rw (← ap (λ s. s.1) (ok-injective (rw (e, skip) at h))) (Extends-refl c)
        | inr use_it ↦
            let (c', a, k) =
              >>=-eq-ok (apply_keyword line_no keyword (join (text " ") args) c)
                (λ c'. ok (active, c')) (rw (e, use_it) at h) in
            rw (← ap (λ s. s.1) (ok-injective k))
              (apply_keyword-Extends line_no keyword (join (text " ") args) c a)
      ]
    ]

parse_line-Extends :
    (host : Text) (line_no : ℕ) (tokens : List Text) (s : ParseState) {s' : ParseState}
    → parse_line host line_no tokens s ≡ ok s'
    → Extends s.1 s'.1
parse_line-Extends host line_no [] s h = rw (← ok-injective h) (Extends-refl s.1)
parse_line-Extends host line_no (keyword ∷ args) s h =
    parse_keyword-Extends host line_no (to_ascii_lowercase keyword) args s h

-- Whatever lines follow in an ssh config file, a value that an earlier line has set for the host
-- stays, and the forwards that it has added are kept, in order.
pub parse_lines-Extends :
    (host : Text) (line_no : ℕ) (ls : List Text) (s : ParseState) {s' : ParseState}
    → parse_lines host line_no ls s ≡ ok s'
    → Extends s.1 s'.1
unfolding parse_lines
parse_lines-Extends host line_no [] s h = rw (← ok-injective h) (Extends-refl s.1)
parse_lines-Extends host line_no (l ∷ ls) s h =
    let (s1, e, k) =
      >>=-eq-ok (parse_line host line_no (tokenize_config_line l) s)
        (parse_lines host (line_no + 1) ls) h in
    Extends-trans s.1 (parse_line-Extends host line_no (tokenize_config_line l) s e)
      (parse_lines-Extends host (line_no + 1) ls s1 k)
