-- ===== src/Transport.antt =====
-- internal/transport/transport.go: length-prefixed frames over a byte stream. A connection is the
-- bytes that have arrived on it; its end, or a deadline, shows as too few of them.
use xessenger_cli.Prelude.{ℕ, ◌^◌, ◌≤◌, ◌<◌, List, [], ◌∷◌, ◌++◌, ltb, ◌==◌, length, take, drop}
use xessenger_cli.Prelude.{
  Result, ok, err, if◌then◌else◌, arith, ◌≡◌, refl, ap, ◌∙◌, take-append, drop-append,
  length-append,
}
use xessenger_cli.Prelude.Bytes.{put_uint, uint, length-put_uint, uint-put_uint}
use native.Mathlib.Nat.{mod-eq_of_lt}
use mathlib.Core.List.{append_assoc}

pub data Error : Type 0 where
  frame_too_large short_read : Error

abbrev pub max_frame_size : ℕ
max_frame_size = 1048576

-- `Send`, when the writes succeed: the bytes written.
unfoldable pub send : List ℕ → Result Error (List ℕ)
send payload =
    if ltb max_frame_size (length payload)
    then err frame_too_large
    else ok (put_uint 4 (length payload) ++ payload)

-- `io.ReadFull` of `n` bytes.
abbrev pub read_full : ℕ → List ℕ → Result Error (List ℕ × List ℕ)
read_full n stream =
    if ltb (length stream) n then err short_read else ok (take n stream, drop n stream)

-- The rest of `RecvBefore`, once the length is read.
unfoldable pub recv_payload : ℕ → List ℕ → Result Error (List ℕ × List ℕ)
recv_payload n stream =
    if ltb max_frame_size n
    then err frame_too_large
    else if n == 0
    then ok ([], stream)
    else read_full n stream

-- `RecvBefore`: the frame, and what is left of the stream.
unfoldable pub recv_before : List ℕ → Result Error (List ℕ × List ℕ)
unfolding recv_payload
recv_before stream = elim (read_full 4 stream) [
  | err e ↦ err e
  | ok (header, rest) ↦ recv_payload (uint header) rest
]

recv_payload-append :
    (payload rest : List ℕ)
    → length payload ≤ max_frame_size
    → recv_payload (length payload) (payload ++ rest) ≡ ok (payload, rest)
unfolding recv_payload
recv_payload-append [] rest h = ground arith
recv_payload-append (b ∷ bs) rest h = ground (
  arith,
  h,
  length-append bs rest,
  take-append (length bs) bs rest refl,
  drop-append (length bs) bs rest refl,
)

-- A payload that `Send` accepts is received as it was sent, whatever follows it on the stream, which is left whole; a longer payload is refused by both sides, by the receiver on its announced length alone.
pub recv_before-send :
    (payload rest : List ℕ)
    → (length payload ≤ max_frame_size
        → (wire : List ℕ) × (send payload ≡ ok wire)
          × (recv_before (wire ++ rest) ≡ ok (payload, rest)))
      × (max_frame_size < length payload
          → length payload < 2 ^ 32
          → (send payload ≡ err frame_too_large)
            × (recv_before (put_uint 4 (length payload) ++ rest) ≡ err frame_too_large))
unfolding send recv_before recv_payload
recv_before-send payload rest = (
  λ h. (put_uint 4 (length payload) ++ payload, ground (arith, h), received h),
  λ h small. (ground (arith, h), refused h small),
)
  where
    n : ℕ
    n = length payload

    header : n < 2 ^ 32 → uint (put_uint 4 n) ≡ n
    header small = uint-put_uint 4 n ∙ mod-eq_of_lt small

    read : (tail : List ℕ) → read_full 4 (put_uint 4 n ++ tail) ≡ ok (put_uint 4 n, tail)
    read tail = ground (
      arith,
      length-append (put_uint 4 n) tail,
      length-put_uint 4 n,
      take-append 4 (put_uint 4 n) tail (length-put_uint 4 n),
      drop-append 4 (put_uint 4 n) tail (length-put_uint 4 n),
    )

    opened :
        (tail : List ℕ)
        → recv_before (put_uint 4 n ++ tail) ≡ recv_payload (uint (put_uint 4 n)) tail
    opened tail = rw (recv_before, read tail) refl

    received :
        n ≤ max_frame_size → recv_before ((put_uint 4 n ++ payload) ++ rest) ≡ ok (payload, rest)
    received h =
        ap recv_before (append_assoc (put_uint 4 n) payload rest)
        ∙ opened (payload ++ rest)
        ∙ ap (λ k. recv_payload k (payload ++ rest)) (header (omega (arith, h)))
        ∙ recv_payload-append payload rest h

    refused :
        max_frame_size < n → n < 2 ^ 32 → recv_before (put_uint 4 n ++ rest) ≡ err frame_too_large
    refused h small = opened rest ∙ ap (λ k. recv_payload k rest) (header small) ∙ ground (arith, h)
