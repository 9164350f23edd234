-- ===== src/Proto/Frame/Chat.antt =====
-- internal/proto/frame.go: chat payloads, a two-byte length and the text.
use native.Mathlib.Nat.{mod-eq_of_lt}
use mathlib.Core.Path.{ap₂}
use mathlib.Core.List.{append_assoc}
use xessenger_cli.Prelude.{ℕ, ◌+◌, ◌-◌, ◌^◌, ◌≤◌, ◌<◌, List, ◌++◌}
use xessenger_cli.Prelude.{length, take, drop, All, ok, arith, ◌≡◌, refl, ap, sym, ◌∙◌}
use xessenger_cli.Prelude.{length-append, take-append, take-append-drop, length-take, length-drop}
use xessenger_cli.Prelude.Bytes.{
  put_uint, uint, slice, uint-put_uint, IsByte, put_uint-uint, uint-lt, All-take, slice-append-drop,
}
use xessenger_cli.Proto.Frame.{encode_chat_payload, decode_chat_payload}

decode_accepts :
    (b : List ℕ) (n : ℕ)
    → 2 ≤ length b
    → uint (take 2 b) ≡ n
    → n ≤ length b - 2
    → decode_chat_payload b ≡ ok (slice 2 n b)
unfolding decode_chat_payload
decode_accepts b n long e h = ground arith

decode_accepted :
    (b text : List ℕ)
    → decode_chat_payload b ≡ ok text
    → (2 ≤ length b) × (uint (take 2 b) ≤ length b - 2) × (text ≡ slice 2 (uint (take 2 b)) b)
unfolding decode_chat_payload
decode_accepted b text h = ground arith

-- A chat text of up to 65535 bytes survives the payload encoding, also with bytes behind it.
pub decode-encode_chat_payload :
    (text rest : List ℕ)
    → length text < 2 ^ 16
    → decode_chat_payload (encode_chat_payload text ++ rest) ≡ ok text
unfolding encode_chat_payload put_uint
decode-encode_chat_payload text rest h =
    decode_accepts _ (length text) (omega arith) (uint-put_uint 2 (length text) ∙ mod-eq_of_lt h)
      (omega (arith, length-append text rest))
    ∙ ap ok (take-append (length text) text rest refl)

-- Whatever the decoder returns is at most 65535 bytes, and the payload begins with its encoding.
pub encode-decode_chat_payload :
    (b text : List ℕ)
    → All IsByte b
    → decode_chat_payload b ≡ ok text
    → (length text < 2 ^ 16) × (encode_chat_payload text ++ drop (2 + length text) b ≡ b)
unfolding encode_chat_payload
encode-decode_chat_payload b text bytes h = (small, whole)
  where
    facts : (2 ≤ length b) × (uint (take 2 b) ≤ length b - 2) × (text ≡ slice 2 (uint (take 2 b)) b)
    facts = decode_accepted b text h

    prefix : length (take 2 b) ≡ 2
    prefix = omega (arith, length-take 2 b, facts.0)

    len : length text ≡ uint (take 2 b)
    len = omega (
      arith,
      ap length facts.2,
      length-take (uint (take 2 b)) (drop 2 b),
      length-drop 2 b,
      facts.1,
    )

    small : length text < 2 ^ 16
    small =
        rw (len, ap (λ k. 256 ^ k) (sym prefix)) (uint-lt (take 2 b) (All-take IsByte 2 b bytes))

    head : put_uint 2 (length text) ≡ take 2 b
    head =
        ap (put_uint 2) len
        ∙ ap (λ k. put_uint k (uint (take 2 b))) (sym prefix)
        ∙ put_uint-uint (take 2 b) (All-take IsByte 2 b bytes)

    body : text ++ drop (2 + length text) b ≡ drop 2 b
    body =
        ap (λ t. t ++ drop (2 + length text) b) (facts.2 ∙ ap (λ n. slice 2 n b) (sym len))
        ∙ slice-append-drop 2 (length text) (2 + length text) b refl

    whole : (put_uint 2 (length text) ++ text) ++ drop (2 + length text) b ≡ b
    whole =
        append_assoc (put_uint 2 (length text)) text (drop (2 + length text) b)
        ∙ ap₂ ◌++◌ head body
        ∙ take-append-drop 2 b
