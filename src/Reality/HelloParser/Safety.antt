-- ===== src/Reality/HelloParser/Safety.antt =====
-- src/transport/reality/hello_parser.rs: its reads, on any bytes.
use xray_lite.Prelude.{
  ℕ, zero, suc, ◌≢◌, ◌&&◌, ◌==◌, Option, none, some, length, drop, arith, Bool-cases, inl, inr,
}
use xray_lite.Prelude.Outcome.{panic}
use xray_lite.Prelude.Bytes.{Bytes}
use xray_lite.Prelude.Read.{Read}
use xray_lite.Prelude.Safe.{
  Fits, Fits-pure, Fits-fail, Fits-if, Fits-if_short, Fits-within, Fits-require, Fits-take,
  Fits-bind, Fits-mono, Takes-u8, Takes-u16, Takes-bytes, Takes-advance,
}
use xray_lite.Reality.HelloParser.{
  HelloError, name_entry, scan_names, scan_sni, share_entry, scan_shares, scan_key_share, Found,
  next_round, after_shares, scan_extension, scan_extensions, parse_extensions, parse_suites,
  parse_body, parse_handshake, parse_record, parse_client_hello,
}

name_entry-Fits :
    (old : Option Bytes) (t n : ℕ) (rest : Read HelloError (Option Bytes))
    → Fits 0 rest
    → Fits n (name_entry old t n rest)
unfolding name_entry
name_entry-Fits old t n rest h =
    Fits-if _ (Fits-take n n (Takes-bytes n) (omega arith) λ name. Fits-pure _ _)
      (Fits-take n n (Takes-advance n) (omega arith) λ u. Fits-mono _ 0 (omega arith) h)

scan_names-Fits : (fuel : ℕ) (old : Option Bytes) → Fits 0 (scan_names fuel old)
unfolding scan_names
scan_names-Fits zero old = Fits-fail 0 _
scan_names-Fits (suc fuel) old = Fits-if_short 0 1 (Fits-pure 0 _) (
    Fits-if_short 1 3 (Fits-pure 1 _) (
      Fits-take 3 1 Takes-u8 (omega arith) λ t. Fits-take 2 2 Takes-u16 (omega arith) λ n.
        Fits-if_short 0 n (Fits-pure 0 _)
          (name_entry-Fits old t n (scan_names fuel old) (scan_names-Fits fuel old))))

scan_sni-Fits : (old : Option Bytes) → Fits 0 (scan_sni old)
unfolding scan_sni
scan_sni-Fits old = Fits-if_short 0 2 (Fits-pure 0 _) (
    Fits-take 2 2 Takes-u16 (omega arith) λ n. Fits-if_short 0 n (Fits-pure 0 _) (
      Fits-take n n (Takes-bytes n) (omega arith)
        λ list. Fits-within _ list (scan_names-Fits (suc (length list)) old)))

share_entry-Fits :
    (old : Option Bytes) (g n : ℕ) (rest : Read HelloError (Option Bytes))
    → Fits 0 rest
    → Fits n (share_entry old g n rest)
unfolding share_entry
share_entry-Fits old g n rest h = elim (Bool-cases (g == 0x001d && n == 32)) [
  | inl x25519 ↦ rw x25519 (
      Fits-mono n 32 (ground arith)
        (Fits-take 32 32 (Takes-bytes 32) (omega arith) λ key. Fits-pure _ _))
  | inr other ↦
      rw other (Fits-take n n (Takes-advance n) (omega arith) λ u. Fits-mono _ 0 (omega arith) h)
]

scan_shares-Fits : (fuel : ℕ) (old : Option Bytes) → Fits 0 (scan_shares fuel old)
unfolding scan_shares
scan_shares-Fits zero old = Fits-fail 0 _
scan_shares-Fits (suc fuel) old = Fits-if_short 0 1 (Fits-pure 0 _) (
    Fits-if_short 1 4 (Fits-pure 1 _) (
      Fits-take 4 2 Takes-u16 (omega arith) λ g. Fits-take 2 2 Takes-u16 (omega arith) λ n.
        Fits-if_short 0 n (Fits-pure 0 _)
          (share_entry-Fits old g n (scan_shares fuel old) (scan_shares-Fits fuel old))))

scan_key_share-Fits : (old : Option Bytes) → Fits 0 (scan_key_share old)
unfolding scan_key_share
scan_key_share-Fits old = Fits-if_short 0 2 (Fits-pure 0 _) (
    Fits-take 2 2 Takes-u16 (omega arith) λ n. Fits-if_short 0 n (Fits-pure 0 _) (
      Fits-take n n (Takes-bytes n) (omega arith) λ list.
        Fits-bind _ (Fits-within _ list (scan_shares-Fits (suc (length list)) old))
          λ key. Fits-pure 0 _))

next_round-Fits :
    (found : Found) (rest : Found → Read HelloError Found)
    → ((f : Found) → Fits 0 (rest f))
    → Fits 0 (next_round found rest)
unfolding next_round
next_round-Fits found rest h = Fits-if _ (Fits-pure 0 _) (h found)

after_shares-Fits :
    (key : Option (Option Bytes)) (found : Found) (rest : Found → Read HelloError Found)
    → ((f : Found) → Fits 0 (rest f))
    → Fits 0 (after_shares key found rest)
unfolding after_shares
after_shares-Fits none found rest h = h found
after_shares-Fits (some key) found rest h = next_round-Fits _ rest h

scan_extension-Fits :
    (t : ℕ) (body : Bytes) (found : Found) (rest : Found → Read HelloError Found)
    → ((f : Found) → Fits 0 (rest f))
    → Fits 0 (scan_extension t body found rest)
unfolding scan_extension
scan_extension-Fits t body found rest h =
    Fits-if _
      (Fits-bind 0 (Fits-within 0 body (scan_sni-Fits found.1)) λ name. next_round-Fits _ rest h)
      (Fits-if _
        (Fits-bind 0 (Fits-within 0 body (scan_key_share-Fits found.0))
          λ key. after_shares-Fits key found rest h)
        (next_round-Fits found rest h))

scan_extensions-Fits : (fuel : ℕ) (found : Found) → Fits 0 (scan_extensions fuel found)
unfolding scan_extensions
scan_extensions-Fits zero found = Fits-fail 0 _
scan_extensions-Fits (suc fuel) found = Fits-if_short 0 1 (Fits-pure 0 _) (
    Fits-if_short 1 4 (Fits-pure 1 _) (
      Fits-take 4 2 Takes-u16 (omega arith) λ t. Fits-take 2 2 Takes-u16 (omega arith) λ n.
        Fits-if_short 0 n (Fits-pure 0 _) (
          Fits-take n n (Takes-bytes n) (omega arith) λ body.
            Fits-mono _ 0 (omega arith) (
              scan_extension-Fits t body found (scan_extensions fuel)
                (scan_extensions-Fits fuel)))))

parse_extensions-Fits : (id random : Bytes) → Fits 0 (parse_extensions id random)
unfolding parse_extensions
parse_extensions-Fits id random = Fits-if_short 0 2 (Fits-pure 0 _) (
    Fits-take 2 2 Takes-u16 (omega arith) λ n. Fits-require 0 n _ (
      Fits-take n n (Takes-bytes n) (omega arith) λ list.
        Fits-bind _ (Fits-within _ list (scan_extensions-Fits (suc (length list)) (none, none)))
          λ found. Fits-pure 0 _))

parse_suites-Fits : (id random : Bytes) → Fits 0 (parse_suites id random)
unfolding parse_suites
parse_suites-Fits id random = Fits-require 0 2 _ (
    Fits-take 2 2 Takes-u16 (omega arith) λ n. Fits-require 0 n _ (
      Fits-take n n (Takes-advance n) (omega arith) λ u. Fits-require _ 1 _ (
        Fits-take 1 1 Takes-u8 (omega arith) λ k. Fits-require 0 k _ (
          Fits-take k k (Takes-advance k) (omega arith)
            λ v. Fits-mono _ 0 (omega arith) (parse_extensions-Fits id random)))))

parse_body-Fits : Fits 3 parse_body
unfolding parse_body
parse_body-Fits = Fits-take 3 3 (Takes-advance 3) (omega arith) λ u. Fits-require 0 2 _ (
    Fits-take 2 2 (Takes-advance 2) (omega arith) λ v. Fits-require 0 32 _ (
      Fits-take 32 32 (Takes-bytes 32) (omega arith) λ random. Fits-require 0 1 _ (
        Fits-take 1 1 Takes-u8 (omega arith) λ n. Fits-require 0 n _ (
          Fits-take n n (Takes-bytes n) (omega arith)
            λ id. Fits-mono _ 0 (omega arith) (parse_suites-Fits id random)))))

parse_handshake-Fits : Fits 0 parse_handshake
unfolding parse_handshake
parse_handshake-Fits =
    Fits-require 0 4 _
      (Fits-take 4 1 Takes-u8 (omega arith) λ t. Fits-if _ (Fits-pure _ _) parse_body-Fits)

-- Whatever the bytes, the parser does not panic: it reads nothing that is
-- not there.
pub parse_client_hello-ne-panic : (bytes : Bytes) → parse_client_hello bytes ≢ panic
unfolding parse_client_hello parse_record
parse_client_hello-ne-panic bytes =
    ground (arith, parse_handshake-Fits.at (drop 5 bytes) (omega arith))
