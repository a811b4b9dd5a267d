-- ===== src/Client/KnownHosts/Lookup.antt =====
-- What is found in the map of crates/sqsh/src/known_hosts.rs after an insertion, and after saving.
use squish.Client.KnownHosts.{Entries, get, insert, KnownHostsFile, save, format_entries}
use squish.Text.{Text, str_eq, str_eq_refl, eq_of_str_eq}
use squish.Prelude.{◌≡◌, Option, some, [], ◌∷◌, false, Bool-cases, Option-cases, inl, inr}

pub get-insert : (k v : Text) (m : Entries) → get k (insert k v m) ≡ some v
unfolding get insert
get-insert k v [] = rw (str_eq_refl k)
get-insert k v ((j, w) ∷ m) = elim (Bool-cases (str_eq j k)) [
  | inl e ↦ rw (e, str_eq_refl k)
  | inr e ↦ rw (e, get, e) (get-insert k v m)
]

pub get-insert-other :
    (k j v : Text) (m : Entries) → str_eq j k ≡ false → get k (insert j v m) ≡ get k m
unfolding get insert
get-insert-other k j v [] n = rw n
get-insert-other k j v ((i, w) ∷ m) n = elim (Bool-cases (str_eq i j)) [
  | inl e ↦ let d : str_eq i k ≡ false = rw (eq_of_str_eq i j e) n in rw (e, d, get, n)
  | inr e ↦ rw (e, get, get-insert-other k j v m n)
]

module _ (order : Entries → Entries) (fault : Text → Option (Option KnownHostsFile)) where
  pub save-entries : (m : Entries) → (save order fault m).0.entries ≡ m
  unfolding save
  save-entries m = elim (Option-cases (fault (format_entries (order m)))) [
    | inl n ↦ rw n
    | inr (left, e) ↦ rw e
  ]
