-- ===== src/Client/KnownHosts/Saved.antt =====
-- `KnownHosts::load` on a file of `KnownHosts::save` (crates/sqsh/src/known_hosts.rs).
use mathlib.Core.List.{Permᴰ}
use squish.Client.KnownHosts.{
  Entries, get, insert, insert_line, insert_lines, format_entries, load, save, KnownHostsFile,
}
use squish.Client.KnownHosts.Lookup.{get-insert, get-insert-other}
use squish.Text.{
  Text, text, str_eq, eq_of_str_eq, trim, trim_start, trim_end, lines, IsWord, NoSpace, starts_with,
  is_whitespace, split_once-append, lines-append, strip_cr-absent, NoSpace-contains,
  contains-append, contains, str_eq_refl,
}
use squish.Prelude.{
  ◌≡◌, refl, Option, none, some, [], ◌∷◌, ◌++◌, true, false, ok, Bool-cases, Option-cases, inl, inr,
  arith, All, is_empty, append_assoc, ℕ, ap, ◌≢◌, ◌∙◌, ◌==◌, subst, sym,
}

-- A map holds a key once.
abbrev pub IsMap : Entries → Type 0
IsMap [] = Unit
IsMap ((k, v) ∷ m) = (get k m ≡ none) × IsMap m

-- The names and fingerprints that fit the format of the file.
pub record IsEntry (e : Text × Text) : Type 0 where
  pub host_word : IsWord e.0
  pub no_comment : starts_with (text "#") e.0 ≡ false
  pub fingerprint_word : IsWord e.1

abbrev pub insert_all : Entries → Entries → Entries
insert_all [] acc = acc
insert_all ((k, v) ∷ l) acc = insert_all l (insert k v acc)

trim_end-word : (w : Text) → NoSpace w → trim_end w ≡ w
unfolding trim_end
trim_end-word [] h = refl
trim_end-word (x ∷ w) h = let same = trim_end-word w h.1 in ground (arith, same, h.0)

is_empty-append : (s w : Text) → w ≢ [] → is_empty (s ++ w) ≡ false
is_empty-append [] [] h = absurd (h refl)
is_empty-append [] (x ∷ w) h = refl
is_empty-append (x ∷ s) w h = refl

trim_end-append : (s w : Text) → IsWord w → trim_end (s ++ w) ≡ s ++ w
unfolding trim_end
trim_end-append [] w h = trim_end-word w h.0
trim_end-append (x ∷ s) w h = rw (trim_end-append s w h, is_empty-append s w h.1)

trim-words : (a b : Text) → IsWord a → IsWord b → trim (a ++ b' ' ∷ b) ≡ a ++ b' ' ∷ b
unfolding trim trim_start
trim-words [] b h k = absurd (h.1 refl)
trim-words (x ∷ a) b h k = rw h.0.0 (
    subst (λ t. trim_end t ≡ t) (append_assoc (x ∷ a) (b' ' ∷ []) b)
      (trim_end-append (x ∷ a ++ b' ' ∷ []) b k))

-- The line of an entry is read back.
insert_line-entry :
    (host fp : Text) (m : Entries)
    → IsEntry (host, fp)
    → insert_line (trim (host ++ b' ' ∷ fp)) m ≡ insert host fp m
unfolding starts_with is_whitespace
insert_line-entry [] fp m v = absurd (v.host_word.1 refl)
insert_line-entry (x ∷ host) fp m v = rw (
  trim-words (x ∷ host) fp v.host_word v.fingerprint_word,
  starts_with,
  v.no_comment,
  split_once-append b' ' (x ∷ host) fp (NoSpace-contains b' ' (x ∷ host) refl v.host_word.0),
)

entry-clean :
    (c : ℕ) (host fp : Text)
    → is_whitespace c ≡ true
    → (b' ' == c) ≡ false
    → IsEntry (host, fp)
    → contains c (host ++ b' ' ∷ fp) ≡ false
unfolding contains
entry-clean c host fp s n v =
    rw (contains-append c host (b' ' ∷ fp), NoSpace-contains c host s v.host_word.0, n)
      (NoSpace-contains c fp s v.fingerprint_word.0)

pub insert_lines-format :
    (l acc : Entries)
    → All IsEntry l
    → insert_lines (lines (format_entries l)) acc ≡ insert_all l acc
unfolding insert_lines lines is_whitespace
insert_lines-format [] acc h = refl
insert_lines-format ((host, fp) ∷ l) acc (v, h) =
    let line = host ++ b' ' ∷ fp in
    let clean = entry-clean b'\n' host fp refl refl v in
    let dry = entry-clean b'\r' host fp refl refl v in
    rw
      (
        lines-append line (format_entries l) clean,
        strip_cr-absent line dry,
        insert_lines,
        insert_line-entry host fp acc v,
      )
      (insert_lines-format l (insert host fp acc) h)

abbrev or_else : Option Text → Option Text → Option Text
or_else (some v) o = some v
or_else none o = o

get-insert_all :
    (k : Text) (l acc : Entries)
    → IsMap l
    → get k (insert_all l acc) ≡ or_else (get k l) (get k acc)
unfolding get
get-insert_all k [] acc h = refl
get-insert_all k ((j, v) ∷ l) acc (n, h) = elim (Bool-cases (str_eq j k)) [
  | inl e ↦
      let absent : get k l ≡ none = rw (← eq_of_str_eq j k e) n in
      let put : get k (insert j v acc) ≡ some v = rw (← eq_of_str_eq j k e) (get-insert j v acc) in
      rw (get-insert_all k l (insert j v acc) h, absent, put, e)
  | inr e ↦ rw (get-insert_all k l (insert j v acc) h, get-insert-other k j v acc e, e)
]

pub str_eq_comm : (s t : Text) → str_eq s t ≡ false → str_eq t s ≡ false
str_eq_comm s t h = elim (Bool-cases (str_eq t s)) [
  | inl e ↦ cc (h, subst (λ x. str_eq s x ≡ true) (sym (eq_of_str_eq t s e)) (str_eq_refl s))
  | inr e ↦ e
]

swap-IsMap :
    (j v i w : Text) (l : Entries)
    → IsMap ((j, v) ∷ (i, w) ∷ l)
    → IsMap ((i, w) ∷ (j, v) ∷ l)
      × ((k : Text) → get k ((i, w) ∷ (j, v) ∷ l) ≡ get k ((j, v) ∷ (i, w) ∷ l))
unfolding get
swap-IsMap j v i w l (n, (n', h)) = elim (Bool-cases (str_eq i j)) [
  | inl e ↦ cc (rw e at n)
  | inr e ↦
      let absent : get j l ≡ none = rw e at n in
      (
        (rw (str_eq_comm i j e) n', (absent, h)),
        λ k. elim (Bool-cases (str_eq i k)) [
          | inl p ↦
              let other : str_eq j k ≡ false = rw (← eq_of_str_eq i k p) (str_eq_comm i j e) in
              rw (p, other)
          | inr p ↦ rw p
        ],
      )
]

Permᴰ-IsMap : {l m : Entries} → Permᴰ l m → IsMap m → IsMap l × ((k : Text) → get k l ≡ get k m)
unfolding get
Permᴰ-IsMap Permᴰ.nil h = (tt, λ k. refl)
Permᴰ-IsMap (Permᴰ.cons {a = a} {b = b} e d) h =
    let (map, same) = Permᴰ-IsMap d h.1 in rw e ((same b.0 ∙ h.0, map), λ k. rw (same k))
Permᴰ-IsMap (Permᴰ.swap {a} {b} {a' = a'} {b' = b'} {l = l} e e') h =
    let q : a ∷ b ∷ l ≡ b' ∷ a' ∷ l = cc in
    subst (λ m. IsMap m × ((k : Text) → get k m ≡ get k (a' ∷ b' ∷ l))) (sym q)
      (swap-IsMap a'.0 a'.1 b'.0 b'.1 l h)
Permᴰ-IsMap (Permᴰ.trans d d') h =
    let (map, same) = Permᴰ-IsMap d' h in
    let (map', same') = Permᴰ-IsMap d map in (map', λ k. same' k ∙ same k)

pub Permᴰ-All : (P : Text × Text → Type 0) {l m : Entries} → Permᴰ l m → All P m → All P l
Permᴰ-All P Permᴰ.nil h = tt
Permᴰ-All P (Permᴰ.cons e d) h = (rw e h.0, Permᴰ-All P d h.1)
Permᴰ-All P (Permᴰ.swap e e') h = (rw e h.1.0, (rw e' h.0, h.1.1))
Permᴰ-All P (Permᴰ.trans d d') h = Permᴰ-All P d (Permᴰ-All P d' h)

-- What `load` finds in a file is what the map holds, whatever the order.
abbrev pub Loads : Option KnownHostsFile → Entries → Type 0
Loads file m = (m' : Entries) × (load file ≡ ok m') × ((k : Text) → get k m' ≡ get k m)

or_else-none : (o : Option Text) → or_else o none ≡ o
or_else-none none = refl
or_else-none (some v) = refl

module _ (order : Entries → Entries) (fault : Text → Option (Option KnownHostsFile)) where
  -- A file that `save` wrote is accepted by `load`, which finds the same fingerprint for every
  -- host, in whatever order the map is iterated, if hosts and fingerprints are words without white
  -- space and no host begins with `#`.
  pub load-save :
      (m : Entries)
      → ((l : Entries) → Permᴰ (order l) l)
      → IsMap m
      → All IsEntry m
      → (save order fault m).1 ≡ ok tt
      → Loads (save order fault m).0.file m
  unfolding save load get
  load-save m p h v s = elim (Option-cases (fault (format_entries (order m)))) [
    | inr (left, e) ↦ cc (rw e at s)
    | inl e ↦
        let (map, same) = Permᴰ-IsMap (p m) h in
        rw e (
          insert_all (order m) [],
          ap ok (insert_lines-format (order m) [] (Permᴰ-All IsEntry (p m) v)),
          λ k. get-insert_all k (order m) [] map ∙ or_else-none (get k (order m)) ∙ same k,
        )
  ]
