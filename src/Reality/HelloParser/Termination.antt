-- ===== src/Reality/HelloParser/Termination.antt =====
-- src/transport/reality/hello_parser.rs: its loops, on any bytes.
use xray_lite.Prelude.{ℕ, zero, suc, ◌-◌, ◌≤◌, ◌≢◌, Option, none, some, length, drop, arith}
use xray_lite.Prelude.Outcome.{err, panic}
use xray_lite.Prelude.Bytes.{Bytes}
use xray_lite.Prelude.Read.{Read}
use xray_lite.Prelude.Ends.{
  Ends, Ends-pure, Ends-if, Ends-if_short, Ends-require, Ends-within, Ends-bind, Shrinks-u8,
  Shrinks-u16, Shrinks-bytes, Shrinks-advance, Shrinks-within,
}
use xray_lite.Reality.HelloParser.Safety.{parse_client_hello-ne-panic}
use xray_lite.Reality.HelloParser.{
  HelloError, out_of_fuel, name_entry, scan_names, scan_sni, share_entry, scan_shares,
  scan_key_share, Found, next_round, after_shares, scan_extension, scan_extensions,
  parse_extensions, parse_suites, parse_body, parse_handshake, parse_record, parse_client_hello,
}

Ends-mono :
    {A : Type 0} {m : Read HelloError A} (k j : ℕ)
    → j ≤ k
    → Ends out_of_fuel k m
    → Ends out_of_fuel j m
Ends-mono k j h f = record { at = λ s l. f.at s (omega arith) }

name_entry-Ends :
    (k : ℕ) (old : Option Bytes) (t n : ℕ) (rest : Read HelloError (Option Bytes))
    → Ends out_of_fuel k rest
    → Ends out_of_fuel k (name_entry old t n rest)
unfolding name_entry
name_entry-Ends k old t n rest h =
    Ends-if _ (Ends-bind k n (Shrinks-bytes out_of_fuel n) λ name. Ends-pure _ _ _)
      (Ends-bind k n (Shrinks-advance out_of_fuel n) λ u. Ends-mono k (k - n) (omega arith) h)

scan_names-Ends : (fuel : ℕ) (old : Option Bytes) → Ends out_of_fuel fuel (scan_names fuel old)
unfolding scan_names
scan_names-Ends zero old = record { at = λ s h. absurd (omega arith) }
scan_names-Ends (suc fuel) old = Ends-if_short 1 (Ends-pure _ _ _) (
    Ends-if_short 3 (Ends-pure _ _ _) (
      Ends-bind (suc fuel) 1 (Shrinks-u8 out_of_fuel) λ t.
        Ends-bind (suc fuel - 1) 2 (Shrinks-u16 out_of_fuel) λ n.
          Ends-if_short n (Ends-pure _ _ _) (
            name_entry-Ends (suc fuel - 1 - 2) old t n (scan_names fuel old)
              (Ends-mono fuel (suc fuel - 1 - 2) (omega arith) (scan_names-Ends fuel old)))))

scan_sni-Ends : (k : ℕ) (old : Option Bytes) → Ends out_of_fuel k (scan_sni old)
unfolding scan_sni
scan_sni-Ends k old = Ends-if_short 2 (Ends-pure _ _ _) (
    Ends-bind k 2 (Shrinks-u16 out_of_fuel) λ n. Ends-if_short n (Ends-pure _ _ _) (
      Ends-bind (k - 2) n (Shrinks-bytes out_of_fuel n) λ list.
        Ends-within (k - 2 - n) (suc (length list)) list (omega arith)
          (scan_names-Ends (suc (length list)) old)))

share_entry-Ends :
    (k : ℕ) (old : Option Bytes) (g n : ℕ) (rest : Read HelloError (Option Bytes))
    → Ends out_of_fuel k rest
    → Ends out_of_fuel k (share_entry old g n rest)
unfolding share_entry
share_entry-Ends k old g n rest h =
    Ends-if _ (Ends-bind k 32 (Shrinks-bytes out_of_fuel 32) λ key. Ends-pure _ _ _)
      (Ends-bind k n (Shrinks-advance out_of_fuel n) λ u. Ends-mono k (k - n) (omega arith) h)

scan_shares-Ends : (fuel : ℕ) (old : Option Bytes) → Ends out_of_fuel fuel (scan_shares fuel old)
unfolding scan_shares
scan_shares-Ends zero old = record { at = λ s h. absurd (omega arith) }
scan_shares-Ends (suc fuel) old = Ends-if_short 1 (Ends-pure _ _ _) (
    Ends-if_short 4 (Ends-pure _ _ _) (
      Ends-bind (suc fuel) 2 (Shrinks-u16 out_of_fuel) λ g.
        Ends-bind (suc fuel - 2) 2 (Shrinks-u16 out_of_fuel) λ n.
          Ends-if_short n (Ends-pure _ _ _) (
            share_entry-Ends (suc fuel - 2 - 2) old g n (scan_shares fuel old)
              (Ends-mono fuel (suc fuel - 2 - 2) (omega arith) (scan_shares-Ends fuel old)))))

scan_key_share-Ends : (k : ℕ) (old : Option Bytes) → Ends out_of_fuel k (scan_key_share old)
unfolding scan_key_share
scan_key_share-Ends k old = Ends-if_short 2 (Ends-pure _ _ _) (
    Ends-bind k 2 (Shrinks-u16 out_of_fuel) λ n. Ends-if_short n (Ends-pure _ _ _) (
      Ends-bind (k - 2) n (Shrinks-bytes out_of_fuel n) λ list.
        Ends-bind (k - 2 - n) 0
          (Shrinks-within out_of_fuel (suc (length list)) list (omega arith)
            (scan_shares-Ends (suc (length list)) old))
          λ key. Ends-pure _ _ _))

next_round-Ends :
    (k : ℕ) (found : Found) (rest : Found → Read HelloError Found)
    → ((f : Found) → Ends out_of_fuel k (rest f))
    → Ends out_of_fuel k (next_round found rest)
unfolding next_round
next_round-Ends k found rest h = Ends-if _ (Ends-pure _ _ _) (h found)

after_shares-Ends :
    (k : ℕ) (key : Option (Option Bytes)) (found : Found) (rest : Found → Read HelloError Found)
    → ((f : Found) → Ends out_of_fuel k (rest f))
    → Ends out_of_fuel k (after_shares key found rest)
unfolding after_shares
after_shares-Ends k none found rest h = h found
after_shares-Ends k (some key) found rest h = next_round-Ends k _ rest h

scan_extension-Ends :
    (k t : ℕ) (body : Bytes) (found : Found) (rest : Found → Read HelloError Found)
    → ((f : Found) → Ends out_of_fuel k (rest f))
    → Ends out_of_fuel k (scan_extension t body found rest)
unfolding scan_extension
scan_extension-Ends k t body found rest h =
    Ends-if _
      (Ends-bind k 0
        (Shrinks-within out_of_fuel (suc (length body)) body (omega arith)
          (scan_sni-Ends (suc (length body)) found.1))
        λ name. next_round-Ends (k - 0) _ rest λ f. Ends-mono k (k - 0) (omega arith) (h f))
      (Ends-if _
        (Ends-bind k 0
          (Shrinks-within out_of_fuel (suc (length body)) body (omega arith)
            (scan_key_share-Ends (suc (length body)) found.0))
          λ key.
            after_shares-Ends (k - 0) key found rest λ f. Ends-mono k (k - 0) (omega arith) (h f))
        (next_round-Ends k found rest h))

scan_extensions-Ends :
    (fuel : ℕ) (found : Found) → Ends out_of_fuel fuel (scan_extensions fuel found)
unfolding scan_extensions
scan_extensions-Ends zero found = record { at = λ s h. absurd (omega arith) }
scan_extensions-Ends (suc fuel) found = Ends-if_short 1 (Ends-pure _ _ _) (
    Ends-if_short 4 (Ends-pure _ _ _) (
      Ends-bind (suc fuel) 2 (Shrinks-u16 out_of_fuel) λ t.
        Ends-bind (suc fuel - 2) 2 (Shrinks-u16 out_of_fuel) λ n.
          Ends-if_short n (Ends-pure _ _ _) (
            Ends-bind (suc fuel - 2 - 2) n (Shrinks-bytes out_of_fuel n) λ body.
              scan_extension-Ends (suc fuel - 2 - 2 - n) t body found (scan_extensions fuel) λ f.
                Ends-mono fuel (suc fuel - 2 - 2 - n) (omega arith) (scan_extensions-Ends fuel f))))

parse_extensions-Ends :
    (k : ℕ) (id random : Bytes) → Ends out_of_fuel k (parse_extensions id random)
unfolding parse_extensions
parse_extensions-Ends k id random = Ends-if_short 2 (Ends-pure _ _ _) (
    Ends-bind k 2 (Shrinks-u16 out_of_fuel) λ n.
      Ends-require n _ (λ p. cc)
        (Ends-bind (k - 2) n (Shrinks-bytes out_of_fuel n) λ list.
          Ends-bind (k - 2 - n) 0
            (Shrinks-within out_of_fuel (suc (length list)) list (omega arith)
              (scan_extensions-Ends (suc (length list)) (none, none)))
            λ found. Ends-pure _ _ _))

parse_suites-Ends : (k : ℕ) (id random : Bytes) → Ends out_of_fuel k (parse_suites id random)
unfolding parse_suites
parse_suites-Ends k id random =
    Ends-require 2 _ (λ p. cc)
      (Ends-bind k 2 (Shrinks-u16 out_of_fuel) λ n.
        Ends-require n _ (λ p. cc)
          (Ends-bind (k - 2) n (Shrinks-advance out_of_fuel n) λ u.
            Ends-require 1 _ (λ p. cc)
              (Ends-bind (k - 2 - n) 1 (Shrinks-u8 out_of_fuel) λ c.
                Ends-require c _ (λ p. cc)
                  (Ends-bind (k - 2 - n - 1) c (Shrinks-advance out_of_fuel c)
                    λ v. parse_extensions-Ends (k - 2 - n - 1 - c) id random))))

parse_body-Ends : (k : ℕ) → Ends out_of_fuel k parse_body
unfolding parse_body
parse_body-Ends k = Ends-bind k 3 (Shrinks-advance out_of_fuel 3) λ u.
    Ends-require 2 _ (λ p. cc)
      (Ends-bind (k - 3) 2 (Shrinks-advance out_of_fuel 2) λ v.
        Ends-require 32 _ (λ p. cc)
          (Ends-bind (k - 3 - 2) 32 (Shrinks-bytes out_of_fuel 32) λ random.
            Ends-require 1 _ (λ p. cc)
              (Ends-bind (k - 3 - 2 - 32) 1 (Shrinks-u8 out_of_fuel) λ n.
                Ends-require n _ (λ p. cc)
                  (Ends-bind (k - 3 - 2 - 32 - 1) n (Shrinks-bytes out_of_fuel n)
                    λ id. parse_suites-Ends (k - 3 - 2 - 32 - 1 - n) id random))))

parse_handshake-Ends : (k : ℕ) → Ends out_of_fuel k parse_handshake
unfolding parse_handshake
parse_handshake-Ends k =
    Ends-require 4 _ (λ p. cc)
      (Ends-bind k 1 (Shrinks-u8 out_of_fuel)
        λ t. Ends-if _ (Ends-pure _ _ _) (parse_body-Ends (k - 1)))

-- Whatever the bytes, the parser of the Reality ClientHello returns: it reads nothing that is not
-- there, and its loops end.
pub parse_client_hello_returns :
    (bytes : Bytes)
    → (parse_client_hello bytes ≢ panic) × (parse_client_hello bytes ≢ err out_of_fuel)
unfolding parse_client_hello parse_record
parse_client_hello_returns bytes =
    let ends =
      (parse_handshake-Ends (suc (length (drop 5 bytes)))).at (drop 5 bytes) (omega arith) in
    (parse_client_hello-ne-panic bytes, ground (arith, ends))
