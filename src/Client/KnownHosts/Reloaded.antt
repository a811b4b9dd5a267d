-- ===== src/Client/KnownHosts/Reloaded.antt =====
-- Trust on first use over the file: each connection loads it again (`establish_connection` of
-- crates/sqsh/src/connection.rs with crates/sqsh/src/known_hosts.rs).
use mathlib.Core.List.{Permᴰ}
use squish.Client.KnownHosts.{
  Entries, get, insert, insert_line, insert_pair, insert_lines, load, save, verify, verify_file,
  verify_loaded, KnownHostsFile, format_entries, validate_permissions, io_error,
}
use squish.Client.KnownHosts.Lookup.{get-insert, get-insert-other}
use squish.Client.KnownHosts.Saved.{
  IsMap, IsEntry, load-save, insert_all, insert_lines-format, str_eq_comm, Permᴰ-All,
}
use squish.Text.{Text, text, str_eq, eq_of_str_eq, trim, lines, split_once, starts_with}
use squish.Prelude.{
  ◌≡◌, refl, Option, none, some, List, [], ◌∷◌, Bool-cases, Option-cases, Result-cases, inl, inr,
  All, ok, ◌∙◌, ap, ◌||◌, is_empty, >>=-eq-ok, ok-injective, ok_or, ◌>>◌,
}

pub insert-IsMap : (k v : Text) (m : Entries) → IsMap m → IsMap (insert k v m)
unfolding insert get
insert-IsMap k v [] h = (refl, tt)
insert-IsMap k v ((j, w) ∷ m) (n, h) = elim (Bool-cases (str_eq j k)) [
  | inl e ↦ rw e (rw (eq_of_str_eq j k e) at n, h)
  | inr e ↦ rw e (get-insert-other j k v m (str_eq_comm j k e) ∙ n, insert-IsMap k v m h)
]

insert_pair-IsMap : (o : Option (Text × Text)) (m : Entries) → IsMap m → IsMap (insert_pair o m)
insert_pair-IsMap none m h = h
insert_pair-IsMap (some (host, fp)) m h = insert-IsMap host fp m h

insert_lines-IsMap : (ls : List Text) (m : Entries) → IsMap m → IsMap (insert_lines ls m)
unfolding insert_lines
insert_lines-IsMap [] m h = h
insert_lines-IsMap (l ∷ ls) m h =
    insert_lines-IsMap ls (insert_line (trim l) m)
      (elim (Bool-cases (is_empty (trim l) || starts_with (text "#") (trim l))) [
        | inl e ↦ rw e h
        | inr e ↦ rw e (insert_pair-IsMap (split_once b' ' (trim l)) m h)
      ])

pub load-IsMap : (file : Option KnownHostsFile) {m : Entries} → load file ≡ ok m → IsMap m
unfolding load
load-IsMap none h = rw (← ok-injective h) tt
load-IsMap (some f) h =
    let (contents, e, k) =
      >>=-eq-ok (validate_permissions f >> ok_or f.contents io_error)
        (λ contents. ok (insert_lines (lines contents) [])) h in
    rw (← ok-injective k) (insert_lines-IsMap (lines contents) [] tt)

module _ (P : Text × Text → Type 0) where
  pub insert-All : (k v : Text) (m : Entries) → P (k, v) → All P m → All P (insert k v m)
  unfolding insert
  insert-All k v [] p h = (p, tt)
  insert-All k v ((j, w) ∷ m) p (q, h) = elim (Bool-cases (str_eq j k)) [
    | inl e ↦ rw e (p, h)
    | inr e ↦ rw e (q, insert-All k v m p h)
  ]

  insert_all-All : (l acc : Entries) → All P l → All P acc → All P (insert_all l acc)
  insert_all-All [] acc h a = a
  insert_all-All ((k, v) ∷ l) acc (p, h) a =
      insert_all-All l (insert k v acc) h (insert-All k v acc p a)

-- The file can be loaded, with entries that fit its format, among them this one.
pub record Holds (file : Option KnownHostsFile) (host fp : Text) : Type 0 where
  pub entries : Entries
  pub loaded : load file ≡ ok entries
  pub fits : All IsEntry entries
  pub found : get host entries ≡ some fp

module _ (order : Entries → Entries) (fault : Text → Option (Option KnownHostsFile))
    (permutes : (l : Entries) → Permᴰ (order l) l) where
  -- What `save` wrote holds every entry of the map.
  pub save-Holds :
      (m : Entries) (host fp : Text)
      → IsMap m
      → All IsEntry m
      → get host m ≡ some fp
      → (save order fault m).1 ≡ ok tt
      → Holds (save order fault m).0.file host fp
  unfolding save load
  save-Holds m host fp h v g s =
      let (m', loaded, same) = load-save order fault m permutes h v s in
      elim (Option-cases (fault (format_entries (order m)))) [
        | inr (left, e) ↦ cc (rw e at s)
        | inl e ↦
            let perm = Permᴰ-All IsEntry (permutes m) v in
            let read : insert_lines (lines (format_entries (order m))) [] ≡ m' =
              ok-injective (rw e at loaded) in
            let fits : All IsEntry (insert_all (order m) []) =
              insert_all-All IsEntry (order m) [] perm tt in
            record {
              entries = m';
              loaded = loaded;
              fits = rw (← read, insert_lines-format (order m) [] perm) fits;
              found = same host ∙ g;
            }
      ]

  save-ok :
      (m : Entries) → ((contents : Text) → fault contents ≡ none) → (save order fault m).1 ≡ ok tt
  unfolding save
  save-ok m works = rw (works (format_entries (order m)))

  -- Connections one after the other, to the hosts and servers of a list.
  abbrev pub verify_files : List (Text × Text) → Option KnownHostsFile → Option KnownHostsFile
  verify_files [] file = file
  verify_files ((host, fp) ∷ calls) file =
      verify_files calls (verify_file order fault host fp file).0

  -- The entries of the file, if it loads, fit its format.
  abbrev pub Fits : Option KnownHostsFile → Type 0
  Fits file = (m : Entries) → load file ≡ ok m → All IsEntry m

  verify_file-stored :
      (host fp : Text) (file : Option KnownHostsFile)
      → Fits file
      → IsEntry (host, fp)
      → (verify_file order fault host fp file).1 ≡ ok tt
      → Holds (verify_file order fault host fp file).0 host fp
  unfolding verify_file verify
  verify_file-stored host fp file fits v s = elim (Result-cases (load file)) [
    | inr (e, q) ↦ cc (rw q at s)
    | inl (m, q) ↦ elim (Option-cases (get host m)) [
      | inl n ↦
          rw (q, verify_loaded, n)
            (save-Holds (insert host fp m) host fp (insert-IsMap host fp m (load-IsMap file q))
              (insert-All IsEntry host fp m v (fits m q)) (get-insert host fp m)
              (rw (q, verify_loaded, n) at s))
      | inr (stored, g) ↦ elim (Bool-cases (str_eq stored fp)) [
        | inr other ↦ cc (rw (q, g, other) at s)
        | inl same ↦
            rw (q, verify_loaded, g)
              (record {
                entries = m;
                loaded = q;
                fits = fits m q;
                found = g ∙ ap some (eq_of_str_eq stored fp same);
              })
      ]
    ]
  ]

  verify_file-Holds :
      (k v host fp : Text) (file : Option KnownHostsFile)
      → ((contents : Text) → fault contents ≡ none)
      → IsEntry (host, fp)
      → Holds file k v
      → Holds (verify_file order fault host fp file).0 k v
  unfolding verify_file verify
  verify_file-Holds k v host fp file works e h = elim (Option-cases (get host h.entries)) [
    | inr (stored, g) ↦ rw (h.loaded, verify_loaded, g) h
    | inl n ↦ elim (Bool-cases (str_eq host k)) [
      | inl same ↦ cc (rw (← eq_of_str_eq host k same, n) at h.found)
      | inr other ↦
          rw (h.loaded, verify_loaded, n)
            (save-Holds (insert host fp h.entries) k v
              (insert-IsMap host fp h.entries (load-IsMap file h.loaded))
              (insert-All IsEntry host fp h.entries e h.fits)
              (get-insert-other k host fp h.entries other ∙ h.found)
              (save-ok (insert host fp h.entries) works))
    ]
  ]

  verify_files-Holds :
      (k v : Text) (calls : List (Text × Text)) (file : Option KnownHostsFile)
      → ((contents : Text) → fault contents ≡ none)
      → All IsEntry calls
      → Holds file k v
      → Holds (verify_files calls file) k v
  verify_files-Holds k v [] file works es h = h
  verify_files-Holds k v ((host, fp) ∷ calls) file works (e, es) h =
      verify_files-Holds k v calls (verify_file order fault host fp file).0 works es
        (verify_file-Holds k v host fp file works e h)

  Holds-accepted :
      (host fp fp' : Text) (file : Option KnownHostsFile)
      → Holds file host fp
      → (verify_file order fault host fp' file).1 ≡ ok tt
      → fp ≡ fp'
  unfolding verify_file verify
  Holds-accepted host fp fp' file h s = elim (Bool-cases (str_eq fp fp')) [
    | inl same ↦ eq_of_str_eq fp fp' same
    | inr other ↦ cc (rw (h.loaded, h.found, other) at s)
  ]

  -- Once a connection has accepted a fingerprint for a host, no later one accepts another, however
  -- many connections to this and other hosts, successful or not, come between, each of which loads
  -- the file again: as long as saving does not fail, the map is iterated in some order of its
  -- entries, and the entries of the file, hosts and fingerprints fit the format of the file.
  pub verify_file-pinned :
      (host fp : Text) (file : Option KnownHostsFile) (calls : List (Text × Text)) (fp' : Text)
      → ((contents : Text) → fault contents ≡ none)
      → Fits file
      → IsEntry (host, fp)
      → All IsEntry calls
      → (verify_file order fault host fp file).1 ≡ ok tt
      → (verify_file order fault host fp'
          (verify_files calls (verify_file order fault host fp file).0)).1
        ≡ ok tt
      → fp ≡ fp'
  verify_file-pinned host fp file calls fp' works fits e es first later =
      Holds-accepted host fp fp' (verify_files calls (verify_file order fault host fp file).0)
        (verify_files-Holds host fp calls (verify_file order fault host fp file).0 works es
          (verify_file-stored host fp file fits e first))
        later
