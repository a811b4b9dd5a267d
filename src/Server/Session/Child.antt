-- ===== src/Server/Session/Child.antt =====
-- `configure_child` and the helpers of crates/sqshd/src/channel/session.rs: who a process runs as,
-- with which variables, and what its end is reported as.
use squish.Text.{Text, text, str_eq, contains}
use squish.Server.Keys.{User}
use squish.Prelude.{
  ◌≡◌, List, Option, ℕ, Bool, ◌∷◌, not, none, some, [], ◌++◌, true, ◌==◌, if◌then◌else◌, false,
  ◌&&◌, ◌⊎◌, refl, Bool-cases, inl, inr, some-injective, ==_iff, ◌+◌,
}

-- What runs between `fork` and `exec`.
pub data Syscall : Type 0 where
  initgroups : (username : Text) (gid : ℕ) → Syscall
  setgid setuid : ℕ → Syscall
  setsid : Syscall
  set_controlling_tty : (fd : ℕ) → Syscall

-- `std::process::Command` as far as it is configured: each call of `env` in order.
pub record ChildSetup : Type 0 where
  pub env_calls : List (Text × Text)
  pub current_dir : Text
  pub pre_exec : List Syscall

abbrev pub term_call : Option Text → List (Text × Text)
term_call none = []
term_call (some term) = (text "TERM", term) ∷ []

abbrev pub identity_calls : User → List (Text × Text)
identity_calls user =
    (text "USER", user.name)
    ∷ (text "LOGNAME", user.name)
    ∷ (text "HOME", user.dir)
    ∷ (text "SHELL", user.shell)
    ∷ (text "PATH", text "/usr/local/bin:/usr/bin:/bin")
    ∷ []

abbrev pub drop_calls : Bool → User → List Syscall
drop_calls true user = initgroups user.name user.gid ∷ setgid user.gid ∷ setuid user.uid ∷ []
drop_calls false user = []

abbrev pub tty_calls : Option ℕ → List Syscall
tty_calls none = []
tty_calls (some fd) = set_controlling_tty fd ∷ []

-- `none` is the refusal to run as another user without being root, or a name with a zero byte.
unfoldable pub configure_child :
    ℕ → User → List (Text × Text) → Option Text → Option ℕ → Option ChildSetup
configure_child effective_uid user env_vars term controlling_tty =
    let needs_drop = not (effective_uid == user.uid) in
    if needs_drop && not (effective_uid == 0)
    then none
    else if contains 0 user.name
    then none
    else some (record {
      env_calls = env_vars ++ (term_call term ++ identity_calls user);
      current_dir = user.dir;
      pre_exec = drop_calls needs_drop user ++ setsid ∷ tty_calls controlling_tty;
    })

-- `ExitStatus`: a code as an `i32` seen as a `u32`, or the signal that ended the process.
pub data ExitStatus : Type 0 where
  exited : (code : ℕ) → ExitStatus
  signalled : (signal : ℕ) → ExitStatus
  other_status : ExitStatus

abbrev pub exit_code_from_status : ExitStatus → ℕ
exit_code_from_status (exited code) = code
exit_code_from_status (signalled signal) = 128 + signal
exit_code_from_status other_status = 255

-- The value of a variable after the calls: the last one counts.
unfoldable pub value_of : Text → List (Text × Text) → Option Text
value_of k [] = none
value_of k ((j, v) ∷ calls) = elim (value_of k calls) [
  | some w ↦ some w
  | none ↦ if str_eq j k then some v else none
]

value_of-append :
    (k : Text) (xs ys : List (Text × Text)) {v : Text}
    → value_of k ys ≡ some v
    → value_of k (xs ++ ys) ≡ some v
unfolding value_of
value_of-append k [] ys h = h
value_of-append k ((j, w) ∷ xs) ys h = rw (value_of-append k xs ys h)

-- The identity that the user database gives.
pub record IsIdentity (user : User) (value : Text → Option Text) : Type 0 where
  pub user_var : value (text "USER") ≡ some user.name
  pub logname : value (text "LOGNAME") ≡ some user.name
  pub home : value (text "HOME") ≡ some user.dir
  pub shell_var : value (text "SHELL") ≡ some user.shell
  pub path : value (text "PATH") ≡ some (text "/usr/local/bin:/usr/bin:/bin")

-- The groups and ids are dropped before the program runs.
abbrev pub IsDropped : User → List Syscall → Type 0
IsDropped user calls =
    (rest : List Syscall) × (calls
      ≡ initgroups user.name user.gid ∷ setgid user.gid ∷ setuid user.uid ∷ rest)

identity_calls-last :
    (user : User) (k : Text) (xs : List (Text × Text)) (term : Option Text) {v : Text}
    → value_of k (identity_calls user) ≡ some v
    → value_of k (xs ++ (term_call term ++ identity_calls user)) ≡ some v
identity_calls-last user k xs none h = value_of-append k xs (identity_calls user) h
identity_calls-last user k xs (some term) h =
    value_of-append k xs _ (value_of-append k ((text "TERM", term) ∷ []) (identity_calls user) h)

identity_calls-IsIdentity :
    (user : User) (xs : List (Text × Text)) (term : Option Text)
    → IsIdentity user (λ k. value_of k (xs ++ (term_call term ++ identity_calls user)))
unfolding value_of str_eq
identity_calls-IsIdentity user xs term = record {
  user_var = identity_calls-last user (text "USER") xs term refl;
  logname = identity_calls-last user (text "LOGNAME") xs term refl;
  home = identity_calls-last user (text "HOME") xs term refl;
  shell_var = identity_calls-last user (text "SHELL") xs term refl;
  path = identity_calls-last user (text "PATH") xs term refl;
}

-- A process is set up with the identity of the user, whatever variables the client sent, and one
-- whose user is not the server's own drops its groups and ids before it runs.
pub configure_child-IsIdentity :
    (effective_uid : ℕ) (user : User) (vars : List (Text × Text)) (term : Option Text)
    (tty : Option ℕ) {setup : ChildSetup}
    → configure_child effective_uid user vars term tty ≡ some setup
    → IsIdentity user (λ k. value_of k setup.env_calls)
      × ((effective_uid ≡ user.uid) ⊎ IsDropped user setup.pre_exec)
unfolding configure_child
configure_child-IsIdentity e user vars term tty h = elim (Bool-cases (e == user.uid)) [
  | inl same ↦ elim (Bool-cases (contains 0 user.name)) [
    | inl zero_byte ↦ cc (rw (same, zero_byte) at h)
    | inr clean ↦
        rw (← some-injective (rw (same, clean) at h))
          (identity_calls-IsIdentity user vars term, inl ((==_iff e user.uid).0 same))
  ]
  | inr other ↦ elim (Bool-cases (e == 0)) [
    | inr unprivileged ↦ cc (rw (other, unprivileged) at h)
    | inl root ↦ elim (Bool-cases (contains 0 user.name)) [
      | inl zero_byte ↦ cc (rw (other, root, zero_byte) at h)
      | inr clean ↦
          rw (← some-injective (rw (other, root, clean) at h))
            (identity_calls-IsIdentity user vars term, inr (_, refl))
    ]
  ]
]
