-- ===== src/Auth/Challenge/Binding.antt =====
-- When two challenge payloads of crates/sqsh-core/src/auth/challenge.rs agree.
use squish.Proto.Codec.Words.{u16_mod, u16_to_le, length-u16_to_le}
use squish.Text.{Text, str_eq, as_bytes, eq_of_str_eq, str_eq_iff}
use squish.Auth.Challenge.{build_challenge_payload, challenge_bytes, domain_separator}
use squish.Proto.Message.{Bytes}
use squish.Prelude.{
  ◌≡◌, length, ◌⊎◌, ◌≢◌, ◌<◌, Bool-cases, some, append-injective, inl, arith, inr, ◌∙◌, sym, refl,
}

-- The two inputs differ, and the hash function maps them to one value.
abbrev pub Collision : (Bytes → Bytes) → Bytes → Bytes → Type 0
Collision hash x y = (x ≢ y) × (hash x ≡ hash y)

-- The hashed bytes determine the three parts.
pub challenge_bytes-injective :
    (n n' f f' u u' : Bytes)
    → length n ≡ length n'
    → length f ≡ length f'
    → length u < u16_mod
    → length u' < u16_mod
    → challenge_bytes n f u ≡ challenge_bytes n' f' u'
    → (n ≡ n') × (f ≡ f') × (u ≡ u')
unfolding challenge_bytes
challenge_bytes-injective n n' f f' u u' hn hf hu hu' e =
    let (_, e₁) = append-injective domain_separator domain_separator refl e in
    let (a, e₂) = append-injective n n' hn e₁ in
    let (b, e₃) = append-injective f f' hf e₂ in
    let (_, c) =
      append-injective (u16_to_le (length u)) (u16_to_le (length u'))
        (length-u16_to_le (length u) ∙ sym (length-u16_to_le (length u'))) e₃ in
    (a, b, c)

equal_or_Collision :
    (hash : Bytes → Bytes) (x y : Bytes) → hash x ≡ hash y → (x ≡ y) ⊎ Collision hash x y
equal_or_Collision hash x y h = elim (Bool-cases (str_eq x y)) [
  | inl same ↦ inl (eq_of_str_eq x y same)
  | inr other ↦ inr ((λ e. cc (other, (str_eq_iff x y).1 e)), h)
]

payload_hashes :
    (sha512 : Bytes → Bytes) (n f : Bytes) (u : Text) {h : Bytes}
    → build_challenge_payload sha512 n f u ≡ some h
    → (length (as_bytes u) < u16_mod) × (sha512 (challenge_bytes n f (as_bytes u)) ≡ h)
unfolding build_challenge_payload
payload_hashes sha512 n f u e = ground arith

-- Payloads of two challenges with nonces and fingerprints of 32 bytes agree only if nonce,
-- fingerprint and user name (as bytes) agree, or the bytes that were hashed are a collision of the
-- hash function.
pub build_challenge_payload-binds :
    (sha512 : Bytes → Bytes) (n n' f f' : Bytes) (u u' : Text) {h : Bytes}
    → length n ≡ 32
    → length n' ≡ 32
    → length f ≡ 32
    → length f' ≡ 32
    → build_challenge_payload sha512 n f u ≡ some h
    → build_challenge_payload sha512 n' f' u' ≡ some h
    → ((n ≡ n') × (f ≡ f') × (as_bytes u ≡ as_bytes u'))
      ⊎ Collision sha512 (challenge_bytes n f (as_bytes u)) (challenge_bytes n' f' (as_bytes u'))
build_challenge_payload-binds sha512 n n' f f' u u' ln ln' lf lf' e e' =
    let (small, p) = payload_hashes sha512 n f u e in
    let (small', p') = payload_hashes sha512 n' f' u' e' in
    let x = challenge_bytes n f (as_bytes u) in
    let y = challenge_bytes n' f' (as_bytes u') in
    elim (equal_or_Collision sha512 x y (p ∙ sym p')) [
      | inl same ↦ inl (
          challenge_bytes-injective n n' f f' (as_bytes u) (as_bytes u') (omega arith) (omega arith)
            small small' same)
      | inr c ↦ inr c
    ]
