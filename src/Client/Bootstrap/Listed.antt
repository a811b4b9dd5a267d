-- ===== src/Client/Bootstrap/Listed.antt =====
-- A manifest whose entries have `./` before the name (crates/sqsh/src/bootstrap/mod.rs).
use squish.Text.{
  Text, text, split_whitespace, strip_prefix, trim, strip_prefix-eq-some, lines, str_eq,
  eq_of_str_eq,
}
use squish.Client.Bootstrap.{
  entry_of, stripped_asset, scan_lines, checksum_for_asset, missing_entry, Text, List, text,
  split_whitespace, length, trim, strip_prefix, none, is_empty, ok, lines, err, str_eq,
}
use squish.Prelude.{
  List, ◌<◌, ◌++◌, length, ◌≢◌, ◌≡◌, Option-cases, ◌∷◌, ap, inl, arith, length-append, inr, All,
  none, ◌⊎◌, Bool-cases, sym, ok, is_empty, ◌∙◌, err, [], refl, false,
}

-- The line gives a checksum for `./` and the name.
abbrev pub IsDotSlash : Text → Text → Type 0
IsDotSlash asset_name line =
    (checksum : Text) × (rest : List Text) × (split_whitespace (trim line)
      ≡ checksum ∷ (text "./" ++ asset_name) ∷ rest)

-- A text is not a longer one.
longer-ne : (s p : Text) → 0 < length p → p ++ s ≢ s
longer-ne s p h q =
    let lengths : length (p ++ s) ≡ length s = ap length q in
    absurd (omega (arith, h, lengths, length-append p s))

-- Only the part behind a `*` is taken, and never the part behind `./` alone.
stripped_asset-dot_slash :
    (asset_name : Text) → stripped_asset (text "./" ++ asset_name) ≢ asset_name
unfolding stripped_asset
stripped_asset-dot_slash asset_name = elim (Option-cases (strip_prefix (text "*") asset_name)) [
  | inl n ↦ rw (stripped_asset, n) (longer-ne asset_name (text "./") (omega arith))
  | inr (s, e) ↦
      let parts = strip_prefix-eq-some (text "*") asset_name e in
      rw (stripped_asset, e) (λ q. longer-ne s (text "*") (omega arith) (sym parts ∙ sym q))
]

str_eq-eq-false : (s t : Text) → s ≢ t → str_eq s t ≡ false
str_eq-eq-false s t n = elim (Bool-cases (str_eq s t)) [
  | inl same ↦ absurd (n (eq_of_str_eq s t same))
  | inr other ↦ other
]

entry_of-dot_slash :
    (asset_name line : Text) → IsDotSlash asset_name line → entry_of asset_name line ≡ none
unfolding entry_of
entry_of-dot_slash asset_name line (checksum, rest, words) =
    elim (Bool-cases (is_empty (trim line))) [
      | inl t ↦ rw t refl
      | inr f ↦
          rw
            (
              f,
              words,
              str_eq-eq-false (stripped_asset (text "./" ++ asset_name)) asset_name
                  (stripped_asset-dot_slash asset_name),
            )
            refl
    ]

scan_lines-dot_slash :
    (asset_name : Text) (ls : List Text)
    → All (λ l. (entry_of asset_name l ≡ none) ⊎ IsDotSlash asset_name l) ls
    → scan_lines asset_name ls none ≡ ok none
unfolding scan_lines
scan_lines-dot_slash asset_name [] a = refl
scan_lines-dot_slash asset_name (l ∷ ls) (inl n, a) = rw n (scan_lines-dot_slash asset_name ls a)
scan_lines-dot_slash asset_name (l ∷ ls) (inr d, a) =
    rw (entry_of-dot_slash asset_name l d) (scan_lines-dot_slash asset_name ls a)

-- A manifest that lists an asset only as `./` and its name is refused as one without an entry for
-- it, whatever the checksum. The code means to accept such a name.
pub checksum_for_asset_dot_slash :
    (checksums asset_name : Text)
    → All (λ l. (entry_of asset_name l ≡ none) ⊎ IsDotSlash asset_name l) (lines checksums)
    → checksum_for_asset checksums asset_name ≡ err missing_entry
unfolding checksum_for_asset
checksum_for_asset_dot_slash checksums asset_name a =
    rw (scan_lines-dot_slash asset_name (lines checksums) a) refl
