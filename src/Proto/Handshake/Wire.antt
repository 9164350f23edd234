-- ===== src/Proto/Handshake/Wire.antt =====
-- internal/proto/handshake.go: the messages of the handshake on the wire.
use xessenger_cli.Prelude.{ℕ, suc, ◌+◌, ◌^◌, ◌≤◌, ◌<◌, [], ◌∷◌, ◌++◌}
use xessenger_cli.Prelude.{length, get_or, take, drop, ok, arith, ◌≡◌, refl, ap, sym, ◌∙◌}
use xessenger_cli.Prelude.{length-append, take-append, drop-append}
use xessenger_cli.Prelude.Bytes.{put_uint, uint, slice, length-put_uint, uint-put_uint}
use xessenger_cli.Crypto.{Bytes}
use xessenger_cli.Proto.Handshake.{
  parse_auth, marshal_auth, parse_auth_plain, marshal_auth_plain, hs_type_auth, max_peer_name,
}
use native.Mathlib.Nat.{mod-eq_of_lt}
use mathlib.Core.List.{append_assoc}

-- A slice that stands after a front of known length.
slice-append :
    (from k : ℕ) (a b c : Bytes) → length a ≡ from → length b ≡ k → slice from k (a ++ (b ++ c)) ≡ b
slice-append from k a b c la lb =
    ap (take k) (drop-append from a (b ++ c) la) ∙ take-append k b c lb

-- A length written in `k` bytes is read back if it fits.
uint-length : (k n : ℕ) → n < 256 ^ k → uint (put_uint k n) ≡ n
uint-length k n h = uint-put_uint k n ∙ mod-eq_of_lt h

parse_auth_accepts :
    (msg : Bytes)
    → 37 ≤ length msg
    → get_or msg 0 0 ≡ hs_type_auth
    → 0 < uint (slice 33 4 msg)
    → length msg ≡ 37 + uint (slice 33 4 msg)
    → parse_auth msg ≡ ok (slice 1 32 msg, drop 37 msg)
parse_auth_accepts msg a b c d = ground arith

-- An auth message with a 32-byte ephemeral key and a non-empty blob of less than 2^32 bytes is split back into the key and the blob.
pub parse_auth-marshal_auth :
    (eph_pub blob : Bytes)
    → length eph_pub ≡ 32
    → 0 < length blob
    → length blob < 2 ^ 32
    → parse_auth (marshal_auth eph_pub blob) ≡ ok (eph_pub, blob)
parse_auth-marshal_auth eph_pub blob l some_blob fits =
    parse_auth_accepts (marshal_auth eph_pub blob) (omega (arith, size, some_blob)) refl
      (omega (arith, len, some_blob)) (omega (arith, len, size))
    ∙ ap (λ k. ok (k, drop 37 (marshal_auth eph_pub blob))) key
    ∙ ap (λ b. ok (eph_pub, b)) rest
  where
    size : length (marshal_auth eph_pub blob) ≡ 37 + length blob
    size = omega (
      arith,
      l,
      length-append eph_pub (put_uint 4 (length blob) ++ blob),
      length-append (put_uint 4 (length blob)) blob,
      length-put_uint 4 (length blob),
    )

    field : slice 33 4 (marshal_auth eph_pub blob) ≡ put_uint 4 (length blob)
    field =
        slice-append 33 4 (hs_type_auth ∷ eph_pub) (put_uint 4 (length blob)) blob (ap suc l)
          (length-put_uint 4 (length blob))

    len : uint (slice 33 4 (marshal_auth eph_pub blob)) ≡ length blob
    len = ap uint field ∙ uint-length 4 (length blob) fits

    key : slice 1 32 (marshal_auth eph_pub blob) ≡ eph_pub
    key = slice-append 1 32 (hs_type_auth ∷ []) eph_pub (put_uint 4 (length blob) ++ blob) refl l

    rest : drop 37 (marshal_auth eph_pub blob) ≡ blob
    rest =
        ap (drop 36) (sym (append_assoc eph_pub (put_uint 4 (length blob)) blob))
        ∙ drop-append 36 (eph_pub ++ put_uint 4 (length blob)) blob (
            omega (
              arith,
              l,
              length-append eph_pub (put_uint 4 (length blob)),
              length-put_uint 4 (length blob),
            ))

parse_auth_plain_accepts :
    (b : Bytes) (n : ℕ)
    → uint (slice 32 2 b) ≡ n
    → 0 < n
    → n ≤ max_peer_name
    → length b ≡ 98 + n
    → parse_auth_plain b ≡ ok (take 32 b, slice 34 n b, drop (34 + n) b)
parse_auth_plain_accepts b n field some_name short size = ground arith

-- The payload of an auth message, with a 32-byte key, a name of 1 to 64 bytes and a 64-byte signature, is parsed back exactly.
pub parse_auth_plain-marshal_auth_plain :
    (pub_key name sig : Bytes)
    → length pub_key ≡ 32
    → 0 < length name
    → length name ≤ max_peer_name
    → length sig ≡ 64
    → parse_auth_plain (marshal_auth_plain pub_key name sig) ≡ ok (pub_key, name, sig)
parse_auth_plain-marshal_auth_plain pub_key name sig l some_name short s =
    parse_auth_plain_accepts b (length name) len some_name short size
    ∙ ap (λ k. ok (k, slice 34 (length name) b, drop (34 + length name) b))
        (take-append 32 pub_key (field ++ (name ++ sig)) l)
    ∙ ap (λ k. ok (pub_key, k, drop (34 + length name) b)) middle
    ∙ ap (λ k. ok (pub_key, name, k)) rest
  where
    field : Bytes
    field = put_uint 2 (length name)

    b : Bytes
    b = marshal_auth_plain pub_key name sig

    front : length (pub_key ++ field) ≡ 34
    front = omega (arith, l, length-append pub_key field, length-put_uint 2 (length name))

    size : length b ≡ 98 + length name
    size = omega (
      arith,
      l,
      s,
      length-append pub_key (field ++ (name ++ sig)),
      length-append field (name ++ sig),
      length-append name sig,
      length-put_uint 2 (length name),
    )

    len : uint (slice 32 2 b) ≡ length name
    len =
        ap uint (slice-append 32 2 pub_key field (name ++ sig) l (length-put_uint 2 (length name)))
        ∙ uint-length 2 (length name) (omega (arith, short))

    middle : slice 34 (length name) b ≡ name
    middle =
        ap (λ x. slice 34 (length name) x) (sym (append_assoc pub_key field (name ++ sig)))
        ∙ slice-append 34 (length name) (pub_key ++ field) name sig front refl

    rest : drop (34 + length name) b ≡ sig
    rest =
        ap (drop (34 + length name)) (
          sym (append_assoc pub_key field (name ++ sig))
          ∙ sym (append_assoc (pub_key ++ field) name sig))
        ∙ drop-append (34 + length name) ((pub_key ++ field) ++ name) sig
            (omega (arith, front, length-append (pub_key ++ field) name))
