-- ===== src/Proto/Frame/RoundTrip.antt =====
-- internal/proto/frame.go: `marshalFrame` and `parseFrame` together.
use xessenger_cli.Prelude.{◌↔◌, subst, ℕ, ◌+◌, ◌%◌, ◌^◌, ◌≤◌, ◌<◌, List, [], ◌∷◌, ◌++◌, true}
use xessenger_cli.Prelude.{length, get_or, drop, All, ok, arith, ◌≡◌, refl, ap, sym, ◌∙◌}
use xessenger_cli.Prelude.{length-take, length-drop}
use xessenger_cli.Prelude.Bytes.{
  put_uint, uint, slice, uint-put_uint, IsByte, put_uint-uint, All-take, All-drop,
  slice-append-drop, uint-lt,
}
use xessenger_cli.Proto.Frame.{
  Frame, marshal_header_only, marshal_frame, parse_frame, known_type, max_frame, header_size,
  protocol_version,
}
use native.Mathlib.Nat.{mod-eq_of_lt}
use mathlib.Core.List.{append_assoc}

-- What the Go types of the fields say, and the type and size that a sender may use.
pub record IsSendable (f : Frame) : Type 0 where
  pub known : known_type f.typ ≡ true
  pub session_u64 : f.session < 2 ^ 64
  pub sequence_u64 : f.sequence < 2 ^ 64
  pub rotation_u32 : f.rotation < 2 ^ 32
  pub fits : header_size + length f.blob ≤ max_frame

pub length-marshal_header_only : (f : Frame) → length (marshal_header_only f) ≡ header_size
unfolding marshal_header_only put_uint
length-marshal_header_only f = refl

-- The header, which is the associated data, does not depend on the blob.
pub marshal_header_only_blob :
    (f : Frame) (b : List ℕ) → marshal_header_only (record f { blob = b }) ≡ marshal_header_only f
unfolding marshal_header_only
marshal_header_only_blob f b = refl

-- The view that `parseFrame` takes of a buffer, before any check.
pub read_frame : List ℕ → Frame
read_frame buf = record {
  typ = get_or buf 1 0;
  session = uint (slice 2 8 buf);
  sequence = uint (slice 10 8 buf);
  rotation = uint (slice 18 4 buf);
  blob = drop header_size buf;
}

abbrev IsFrame : List ℕ → Type 0
IsFrame buf =
    (header_size ≤ length buf)
    × (length buf ≤ max_frame)
    × (get_or buf 0 0 ≡ protocol_version)
    × (known_type (get_or buf 1 0) ≡ true)

parse_frame_accepts : (buf : List ℕ) → IsFrame buf → parse_frame buf ≡ ok (read_frame buf)
unfolding parse_frame read_frame
parse_frame_accepts buf h = ground arith

parse_frame_accepted :
    (buf : List ℕ) (f : Frame) → parse_frame buf ≡ ok f → IsFrame buf × (f ≡ read_frame buf)
unfolding parse_frame read_frame
parse_frame_accepted buf f h = ground arith

read_frame-marshal_frame : (f : Frame) → IsSendable f → read_frame (marshal_frame f) ≡ f
unfolding read_frame marshal_frame put_uint
read_frame-marshal_frame f s = λ i. record {
  typ = f.typ;
  session = (uint-put_uint 8 f.session ∙ mod-eq_of_lt s.session_u64) i;
  sequence = (uint-put_uint 8 f.sequence ∙ mod-eq_of_lt s.sequence_u64) i;
  rotation = (uint-put_uint 4 f.rotation ∙ mod-eq_of_lt s.rotation_u32) i;
  blob = f.blob;
}

marshal_frame-IsFrame : (f : Frame) → IsSendable f → IsFrame (marshal_frame f)
unfolding marshal_frame put_uint
marshal_frame-IsFrame f s = (omega arith, omega (arith, s.fits), refl, s.known)

-- A frame of a known type, with header fields that fit their Go types and a blob within the limit, is parsed back from its wire form exactly.
pub parse_frame-marshal_frame : (f : Frame) → IsSendable f → parse_frame (marshal_frame f) ≡ ok f
parse_frame-marshal_frame f s =
    parse_frame_accepts (marshal_frame f) (marshal_frame-IsFrame f s)
    ∙ ap ok (read_frame-marshal_frame f s)

slice-put_uint :
    (k from : ℕ) (buf : List ℕ)
    → All IsByte buf
    → from + k ≤ length buf
    → put_uint k (uint (slice from k buf)) ≡ slice from k buf
slice-put_uint k from buf bytes h =
    ap (λ n. put_uint n (uint (slice from k buf))) (sym len)
    ∙ put_uint-uint (slice from k buf) (All-take IsByte k _ (All-drop IsByte from buf bytes))
  where
    len : length (slice from k buf) ≡ k
    len = omega (arith, length-take k (drop from buf), length-drop from buf)

first_two : (buf : List ℕ) → 2 ≤ length buf → buf ≡ get_or buf 0 0 ∷ get_or buf 1 0 ∷ drop 2 buf
first_two [] h = absurd (omega arith)
first_two (a ∷ []) h = absurd (omega arith)
first_two (a ∷ b ∷ rest) h = refl

marshal_frame-read_frame :
    (buf : List ℕ) → All IsByte buf → IsFrame buf → marshal_frame (read_frame buf) ≡ buf
unfolding marshal_frame read_frame
marshal_frame-read_frame buf bytes (long, short, version, known) =
    rw
      (
        slice-put_uint 8 2 buf bytes (omega arith),
        slice-put_uint 8 10 buf bytes (omega arith),
        slice-put_uint 4 18 buf bytes (omega arith),
      )
      (ap (λ rest. protocol_version ∷ get_or buf 1 0 ∷ rest) tail
        ∙ ap (λ v. v ∷ get_or buf 1 0 ∷ drop 2 buf) (sym version)
        ∙ sym (first_two buf (omega arith)))
  where
    tail :
        (slice 2 8 buf ++ (slice 10 8 buf ++ slice 18 4 buf)) ++ drop header_size buf ≡ drop 2 buf
    tail =
        append_assoc (slice 2 8 buf) (slice 10 8 buf ++ slice 18 4 buf) (drop header_size buf)
        ∙ ap (◌++◌ (slice 2 8 buf)) (
            append_assoc (slice 10 8 buf) (slice 18 4 buf) (drop header_size buf)
            ∙ ap (◌++◌ (slice 10 8 buf)) (slice-append-drop 18 4 22 buf refl)
            ∙ slice-append-drop 10 8 18 buf refl)
        ∙ slice-append-drop 2 8 10 buf refl

read_frame-IsSendable : (buf : List ℕ) → All IsByte buf → IsFrame buf → IsSendable (read_frame buf)
unfolding read_frame
read_frame-IsSendable buf bytes (long, short, version, known) = record {
  known = known;
  session_u64 = field 2 8 (omega arith);
  sequence_u64 = field 10 8 (omega arith);
  rotation_u32 = field 18 4 (omega arith);
  fits = omega (arith, length-drop header_size buf);
}
  where
    field : (from k : ℕ) → from + k ≤ length buf → uint (slice from k buf) < 256 ^ k
    field from k h =
        let len : length (slice from k buf) ≡ k =
          omega (arith, length-take k (drop from buf), length-drop from buf) in
        let bound : uint (slice from k buf) < 256 ^ length (slice from k buf) =
          uint-lt (slice from k buf) (All-take IsByte k _ (All-drop IsByte from buf bytes)) in
        rw len at bound

-- Whatever bytes the parser accepts are the wire form of the frame that it returns, a sendable one: no two byte strings parse to one frame.
pub marshal_frame-parse_frame :
    (buf : List ℕ) (f : Frame)
    → All IsByte buf
    → parse_frame buf ≡ ok f
    → (marshal_frame f ≡ buf) × IsSendable f
marshal_frame-parse_frame buf f bytes e =
    let (shape, same) = parse_frame_accepted buf f e in
    rw same (marshal_frame-read_frame buf bytes shape, read_frame-IsSendable buf bytes shape)

-- A byte string parses to a frame exactly when it is the wire form of the frame, and the frame is of a known type, with header fields that fit their Go types and a blob within the limit: what is sent is read, and no two byte strings parse to one frame.
pub parse_frame_iff :
    (buf : List ℕ) (f : Frame)
    → All IsByte buf
    → (parse_frame buf ≡ ok f) ↔ ((marshal_frame f ≡ buf) × IsSendable f)
parse_frame_iff buf f bytes = (
  marshal_frame-parse_frame buf f bytes,
  λ h. subst (λ b. parse_frame b ≡ ok f) h.0 (parse_frame-marshal_frame f h.1),
)

-- The sequence number, read off the wire.
pub wire_sequence : (f : Frame) → uint (slice 10 8 (marshal_frame f)) ≡ f.sequence % 2 ^ 64
unfolding marshal_frame put_uint
wire_sequence f = uint-put_uint 8 f.sequence
