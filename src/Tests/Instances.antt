-- ===== src/Tests/Instances.antt =====
-- Streams in memory, and a host with one user.
use squish.Proto.Codec.{Writer, Reader, Postcard}
use squish.Proto.Message.{Bytes, IoError, unexpected_eof}
use squish.Auth.AuthorizedKeys.{Base64}
use squish.Auth.AuthorizedKeys.RoundTrip.{EncodesWords, format_file}
use squish.Server.Keys.{Host, User, FileSystem}
use squish.Text.{Text, text, str_eq, is_whitespace, NoSpace}
use squish.Prelude.{
  ℕ, ◌+◌, ◌-◌, ◌<◌, ◌≡◌, refl, sym, [], ◌∷◌, ◌++◌, take, drop, length, replicate, leb,
  if◌then◌else◌, ok, err, Option, none, some, le→leb, arith, ap, suc, zero, Result, false,
}

abbrev pub memory_writer : Writer
memory_writer = record {
  State = Bytes;
  write_all = λ w bs. (w ++ bs, ok tt);
  sent = λ w. w;
  sent-write_all = λ w bs h. refl;
}

abbrev read_memory : Bytes → ℕ → Bytes × Result IoError Bytes
read_memory r n = if leb n (length r) then (drop n r, ok (take n r)) else ([], err unexpected_eof)

pub gt-leb : (n m : ℕ) → m < n → leb n m ≡ false
gt-leb n m h = ground arith

abbrev pub memory_reader : Reader
memory_reader = record {
  State = Bytes;
  read_exact = read_memory;
  pending = λ r. r;
  read_exact-enough = λ r n h. rw (le→leb n (length r) h);
  pending-read_exact = λ r n h. rw (le→leb n (length r) h);
  read_exact-short = λ r n h. rw (gt-leb n (length r) h);
}

abbrev pub raw_messages : Postcard Bytes
raw_messages = record {
  to_allocvec = λ t. some t;
  from_bytes = λ bs. some bs;
  from_bytes-to_allocvec = λ t bs h. sym h;
}

pub length-replicate : (n x : ℕ) → length (replicate n x) ≡ n
length-replicate zero x = refl
length-replicate (suc n) x = ap suc (length-replicate n x)

pub padding-decoded :
    (n : ℕ) (bs : Bytes)
    → ◌≡◌ {A = Option Bytes} (some (replicate n 0)) (some bs)
    → ◌≡◌ {A = Option ℕ} (some (length bs)) (some n)
padding-decoded n bs h = cc (h, length-replicate n 0)

-- A message is a number of zero bytes.
abbrev pub padding : Postcard ℕ
padding = record {
  to_allocvec = λ n. some (replicate n 0);
  from_bytes = λ bs. some (length bs);
  from_bytes-to_allocvec = padding-decoded;
}

abbrev letters : Bytes → Text
letters [] = []
letters (x ∷ xs) = (x + 0x4000) ∷ letters xs

abbrev of_letters : Text → Bytes
of_letters [] = []
of_letters (x ∷ xs) = (x - 0x4000) ∷ of_letters xs

pub of_letters-letters : (bs : Bytes) → of_letters (letters bs) ≡ bs
of_letters-letters [] = refl
of_letters-letters (x ∷ bs) =
    let e : x + 0x4000 - 0x4000 ≡ x = omega arith in rw (e, of_letters-letters bs)

abbrev pub letter_code : Base64
letter_code = record {
  encode = letters;
  decode = λ s. some (of_letters s);
  decode-encode = λ bs. ap some (of_letters-letters bs);
}

letters-NoSpace : (bs : Bytes) → NoSpace (letters bs)
unfolding is_whitespace
letters-NoSpace [] = tt
letters-NoSpace (x ∷ bs) = (ground arith, letters-NoSpace bs)

pub letter_code-EncodesWords : EncodesWords letter_code
letter_code-EncodesWords [] h = absurd (h refl)
letter_code-EncodesWords (x ∷ bs) h = (letters-NoSpace (x ∷ bs), λ e. cc e)

abbrev pub alice : User
alice = record {
  name = text "alice";
  uid = 1000;
  gid = 100;
  dir = text "/home/alice";
  shell = text "/bin/sh";
}

abbrev pub alice_key : Bytes
alice_key = 1 ∷ 2 ∷ []

abbrev pub keys_file : Text
keys_file = format_file letter_code ((alice_key, text "laptop") ∷ [])

abbrev files : FileSystem
files = record {
  metadata = λ path. ok (record { owner = 1000; mode = 384 });
  read_to_string = λ path. ok keys_file;
}

-- The signature of a payload is the key before the payload.
abbrev pub host : Host
host = record {
  from_name = λ u. if str_eq u (text "alice") then ok (some alice) else ok none;
  files = files;
  base64 = letter_code;
  nonce = replicate 32 7;
  sha512 = λ bs. bs;
  VerifyingKey = Bytes;
  Signature = Bytes;
  verifying_key = λ bs. some bs;
  signature = λ bs. some bs;
  verify = λ key payload sig. str_eq sig (key ++ payload);
}
