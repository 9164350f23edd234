-- ===== src/Rendezvous/Websocket/Sent.antt =====
-- internal/rendezvous/ws.go: frames as `writeFrame` writes them, and the rounds of `nextFrame` on them.
use xessenger_cli.Prelude.{
  ℕ, ◌^◌, ◌≤◌, ◌<◌, [], ◌∷◌, ◌++◌, Bool, true, false, not, ok, if◌then◌else◌, ltb, leb, ◌==◌,
  length, get_or, All, arith, ◌≡◌, inl, inr, refl, ap, ◌∙◌, Bool-cases, length-append, take-append,
  drop-append,
}
use Prim.Native.Nat.{bit_and, bit_or}
use xessenger_cli.Prelude.Bytes.{IsByte, put_uint, length-put_uint, uint-put_uint}
use native.Mathlib.Nat.{mod-eq_of_lt}
use mathlib.Core.List.{append_assoc}
use xessenger_cli.Rendezvous.Websocket.{
  Bytes, max_ws_payload, WsConn, Op, proceed, ◌>>>=◌, proceed, mask_from, frame_header, read_full,
  read_payload, read_length, check_frame, read_key, handle_frame, frame_tail, frame_body,
  frame_round,
}
use xessenger_cli.Rendezvous.Websocket.Header.{
  length-mask_from, mask_from_cancel, flag_of, length_bits, mask_bit, Kind, code_of, no_reserved,
  final_bit, opcode_bits,
}

read_full-append :
    (front rest : Bytes) (n : ℕ) (c : WsConn)
    → c.input ≡ front ++ rest
    → length front ≡ n
    → read_full n c ≡ (record c { input = rest }, ok front)
unfolding read_full
read_full-append front rest n c e l = rw e (
    ground
      (arith, l, length-append front rest, take-append n front rest l, drop-append n front rest l))

-- The small length of a header and its extension.
small : ℕ → ℕ
small n = if ltb n 126 then n else if leb n 65535 then 126 else 127

extension : ℕ → Bytes
extension n = if ltb n 126 then [] else if leb n 65535 then put_uint 2 n else put_uint 8 n

small-lt : (n : ℕ) → small n < 128
unfolding small
small-lt n = ground arith

frame_header-split :
    (opcode flag n : ℕ)
    → frame_header opcode flag n ≡ bit_or 128 opcode ∷ bit_or (small n) flag ∷ extension n
unfolding frame_header small extension
frame_header-split opcode flag n = ground arith

read_length-extension :
    (n : ℕ) (rest : Bytes) (c : WsConn)
    → n < 2 ^ 64
    → c.input ≡ extension n ++ rest
    → read_length (small n) c ≡ (record c { input = rest }, ok n)
unfolding read_length small extension
read_length-extension n rest c fits e = elim (Bool-cases (ltb n 126)) [
  | inl short ↦ ground (arith, short, e)
  | inr long ↦ elim (Bool-cases (leb n 65535)) [
    | inl middle ↦
        let r : read_full 2 c ≡ (record c { input = rest }, ok (put_uint 2 n)) =
          read_full-append (put_uint 2 n) rest 2 c (ground (arith, long, middle, e))
            (length-put_uint 2 n) in
        ground (arith, long, middle, r, uint-put_uint 2 n)
    | inr large ↦
        let r : read_full 8 c ≡ (record c { input = rest }, ok (put_uint 8 n)) =
          read_full-append (put_uint 8 n) rest 8 c (ground (arith, long, large, e))
            (length-put_uint 8 n) in
        ground (arith, long, large, r, uint-put_uint 8 n, mod-eq_of_lt fits)
  ]
]

-- A frame on the wire: of a kind, masked with a key or not, with a payload.
pub record Sent : Type 0 where
  pub kind : Kind
  pub key : Bytes
  pub payload : Bytes

abbrev pub body_of : Bool → Sent → Bytes
body_of masked x = if masked then x.key ++ mask_from x.key 0 x.payload else x.payload

abbrev pub wire : Bool → Sent → Bytes
wire masked x =
    frame_header (code_of x.kind) (flag_of masked) (length x.payload) ++ body_of masked x

-- A frame is two bytes at least.
pub length-wire : (masked : Bool) (x : Sent) → 2 ≤ length (wire masked x)
length-wire masked x = omega (
  arith,
  length-append (frame_header (code_of x.kind) (flag_of masked) (length x.payload))
      (body_of masked x),
  ap length (frame_header-split (code_of x.kind) (flag_of masked) (length x.payload)),
)

-- What `writeFrame` draws and is given.
pub record IsSent (x : Sent) : Type 0 where
  pub four : length x.key ≡ 4
  pub key_bytes : All IsByte x.key
  pub payload_bytes : All IsByte x.payload
  pub fits : length x.payload ≤ max_ws_payload

-- A chain of operations goes on from the first one's result, or stops at its error.
pub bind_ok {ℓ κ} :
    {A : Type ℓ} {B : Type κ} (m : Op A) (f : A → Op B) (c c' : WsConn) (a : A)
    → m c ≡ (c', ok a)
    → (m >>>= f) c ≡ f a c'
bind_ok m f c c' a e = ap (proceed f) e

frame_body-header :
    (b0 b1 op n : ℕ) (masked : Bool) (rest : Bytes) (c : WsConn)
    → bit_and b0 112 ≡ 0
    → bit_and b0 15 ≡ op
    → bit_and b0 128 ≡ 128
    → bit_and b1 127 ≡ small n
    → not (bit_and b1 128 == 0) ≡ masked
    → n ≤ max_ws_payload
    → c.input ≡ extension n ++ rest
    → frame_body b0 b1 c ≡ frame_tail op true masked n (record c { input = rest })
unfolding frame_body
frame_body-header b0 b1 op n masked rest c r o f l m fits e =
    rw (frame_body, r, o, f, l, m)
      (bind_ok (read_length (small n)) (frame_tail op true masked) c (record c { input = rest }) n
        (read_length-extension n rest c (omega (arith, fits)) e))

-- The two header bytes and the length are read.
pub frame_round-frame_tail :
    (k : Kind) (masked : Bool) (n : ℕ) (rest : Bytes) (c : WsConn)
    → n ≤ max_ws_payload
    → c.input ≡ frame_header (code_of k) (flag_of masked) n ++ rest
    → frame_round c ≡ frame_tail (code_of k) true masked n (record c { input = rest })
unfolding frame_round
frame_round-frame_tail k masked n rest c fits e =
    bind_ok (read_full 2) (λ hdr. frame_body (get_or hdr 0 0) (get_or hdr 1 0)) c
      (record c { input = extension n ++ rest }) (b0 ∷ b1 ∷ []) first
    ∙ frame_body-header b0 b1 (code_of k) n masked rest (record c { input = extension n ++ rest })
        (no_reserved k) (opcode_bits k) (final_bit k) (length_bits (small n) masked (small-lt n))
        (mask_bit (small n) masked (small-lt n)) fits refl
  where
    b0 : ℕ
    b0 = bit_or 128 (code_of k)

    b1 : ℕ
    b1 = bit_or (small n) (flag_of masked)

    first : read_full 2 c ≡ (record c { input = extension n ++ rest }, ok (b0 ∷ b1 ∷ []))
    first =
        read_full-append (b0 ∷ b1 ∷ []) (extension n ++ rest) 2 c
          (e ∙ ap (λ h. h ++ rest) (frame_header-split (code_of k) (flag_of masked) n)) refl

frame_tail-allowed :
    (op n : ℕ) (masked : Bool) (c : WsConn)
    → n ≤ max_ws_payload
    → c.mask ≡ not masked
    → frame_tail op true masked n c
      ≡ (read_key masked >>>= λ key. handle_frame op true n key masked) c
unfolding frame_tail check_frame
frame_tail-allowed op n masked c fits role =
    bind_ok (check_frame n masked)
      (λ u. read_key masked >>>= λ key. handle_frame op true n key masked) c c tt
      (allowed masked role)
  where
    allowed : (m : Bool) → c.mask ≡ not m → check_frame n m c ≡ (c, ok tt)
    allowed true r = ap (λ x. (c, x)) (ground (arith, r, fits))
    allowed false r = ap (λ x. (c, x)) (ground (arith, r, fits))

-- The roles agree as well.
frame_round-header :
    (k : Kind) (masked : Bool) (n : ℕ) (rest : Bytes) (c : WsConn)
    → n ≤ max_ws_payload
    → c.mask ≡ not masked
    → c.input ≡ frame_header (code_of k) (flag_of masked) n ++ rest
    → frame_round c
      ≡ (read_key masked >>>= λ key. handle_frame (code_of k) true n key masked)
          (record c { input = rest })
frame_round-header k masked n rest c fits role e =
    frame_round-frame_tail k masked n rest c fits e
    ∙ frame_tail-allowed (code_of k) n masked (record c { input = rest }) fits role

-- The key that the reader keeps of a frame.
abbrev pub key_of : Bool → Sent → Bytes
key_of masked x = if masked then x.key else 0 ∷ 0 ∷ 0 ∷ 0 ∷ []

-- The payload as it stands on the wire.
abbrev pub covered : Bool → Sent → Bytes
covered masked x = if masked then mask_from x.key 0 x.payload else x.payload

pub frame_round-key :
    (masked : Bool) (x : Sent) (rest : Bytes) (c : WsConn)
    → IsSent x
    → c.mask ≡ not masked
    → c.input ≡ wire masked x ++ rest
    → frame_round c
      ≡ handle_frame
          (code_of x.kind)
          true
          (length x.payload)
          (key_of masked x)
          masked
          (record c { input = covered masked x ++ rest })
unfolding read_key
frame_round-key true x rest c s role e =
    frame_round-header x.kind true (length x.payload)
      ((x.key ++ mask_from x.key 0 x.payload) ++ rest) c s.fits role
      (e
        ∙ append_assoc (frame_header (code_of x.kind) 128 (length x.payload))
            (x.key ++ mask_from x.key 0 x.payload) rest)
    ∙ bind_ok (read_key true)
        (λ key. handle_frame (code_of x.kind) true (length x.payload) key true)
        (record c { input = (x.key ++ mask_from x.key 0 x.payload) ++ rest })
        (record c { input = mask_from x.key 0 x.payload ++ rest }) x.key
        (read_full-append x.key (mask_from x.key 0 x.payload ++ rest) 4
          (record c { input = (x.key ++ mask_from x.key 0 x.payload) ++ rest })
          (append_assoc x.key (mask_from x.key 0 x.payload) rest) s.four)
frame_round-key false x rest c s role e =
    frame_round-header x.kind false (length x.payload) (x.payload ++ rest) c s.fits role
      (e ∙ append_assoc (frame_header (code_of x.kind) 0 (length x.payload)) x.payload rest)

read_payload-full :
    (n : ℕ) (key buf : Bytes) (masked : Bool) (c c' : WsConn)
    → 0 < n
    → read_full n c ≡ (c', ok buf)
    → read_payload n key masked c ≡ (c', ok (if masked then mask_from key 0 buf else buf))
unfolding read_payload
read_payload-full n key buf masked c c' some_bytes e = ground (arith, some_bytes, e)

-- The payload of a control frame is read back, unmasked.
pub read_payload-covered :
    (masked : Bool) (key payload rest : Bytes) (c : WsConn)
    → All IsByte key
    → All IsByte payload
    → read_payload
        (length payload)
        (if masked then key else 0 ∷ 0 ∷ 0 ∷ 0 ∷ [])
        masked
        (record c { input = (if masked then mask_from key 0 payload else payload) ++ rest })
      ≡ (record c { input = rest }, ok payload)
unfolding read_payload mask_from
read_payload-covered true key [] rest c hk hp = refl
read_payload-covered false key [] rest c hk hp = refl
read_payload-covered true key (b ∷ bs) rest c hk hp =
    read_payload-full (length (b ∷ bs)) key (mask_from key 0 (b ∷ bs)) true
      (record c { input = mask_from key 0 (b ∷ bs) ++ rest }) (record c { input = rest })
      (omega arith)
      (read_full-append (mask_from key 0 (b ∷ bs)) rest (length (b ∷ bs))
        (record c { input = mask_from key 0 (b ∷ bs) ++ rest }) refl
        (length-mask_from key 0 (b ∷ bs)))
    ∙ ap (λ l. (record c { input = rest }, ok l)) (mask_from_cancel key 0 (b ∷ bs) hk hp)
read_payload-covered false key (b ∷ bs) rest c hk hp =
    read_payload-full (length (b ∷ bs)) (0 ∷ 0 ∷ 0 ∷ 0 ∷ []) (b ∷ bs) false
      (record c { input = (b ∷ bs) ++ rest }) (record c { input = rest }) (omega arith)
      (read_full-append (b ∷ bs) rest (length (b ∷ bs)) (record c { input = (b ∷ bs) ++ rest }) refl
        refl)
