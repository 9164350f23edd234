-- ===== src/Rendezvous/Websocket/Steady.antt =====
-- internal/rendezvous/ws.go: the input that the steps of `nextFrame` leave.
use xessenger_cli.Prelude.{
  ℕ, ◌+◌, ◌≤◌, [], ◌∷◌, ◌++◌, Bool, true, false, not, ◌||◌, Option, none, some, Result, ok, err,
  if◌then◌else◌, ltb, ◌==◌, length, take, drop, arith, ◌≡◌, refl, length-drop,
}
use Prim.Native.Nat.{bit_and}
use xessenger_cli.Prelude.Bytes.{uint}
use xessenger_cli.Rendezvous.Websocket.{
  Bytes, op_continuation, op_text, op_binary, op_close, op_ping, op_pong, max_control_payload,
  Error, reserved_bits, unexpected_text, malformed_ping, malformed_pong, bad_opcode, eof,
  write_failed, csprng_failed, out_of_fuel, WsConn, Op, proceed, ◌>>>=◌, mask_from, write_out,
  frame_header, write_frame, write_control, read_full, read_payload, read_length, check_frame,
  read_key, returns, goes_on, handle_frame, frame_tail, frame_body,
}

abbrev pub ran_out {ℓ} : {A : Type ℓ} → Result Error A → Bool
ran_out (ok a) = false
ran_out (err e) = elim e [ out_of_fuel ↦ true | _ ↦ false ]

-- An operation that has not run out of fuel and has put nothing back on the input.
pub record Steady {ℓ} {A : Type ℓ} (c : WsConn) (r : WsConn × Result Error A) : Type ℓ where
  pub less : length r.0.input ≤ length c.input
  pub fuelled : ran_out r.1 ≡ false

steady {ℓ} :
    {A : Type ℓ} (c c' : WsConn) (r : Result Error A)
    → length c'.input ≤ length c.input
    → ran_out r ≡ false
    → Steady c (c', r)
steady c c' r l h = record { less = l; fuelled = h }

module _ {ℓ κ} {A : Type ℓ} {B : Type κ} where
  proceed-Steady :
      (c c' : WsConn) (r : Result Error A) (f : A → Op B)
      → Steady c (c', r)
      → ((a : A) (d : WsConn) → Steady d (f a d))
      → Steady c (proceed f (c', r))
  proceed-Steady c c' (ok a) f s next = record {
    less = omega (arith, s.less, (next a c').less);
    fuelled = (next a c').fuelled;
  }
  proceed-Steady c c' (err x) f s next = record { less = s.less; fuelled = s.fuelled }

  bind-Steady :
      (m : Op A) (f : A → Op B) (c : WsConn)
      → Steady c (m c)
      → ((a : A) (d : WsConn) → Steady d (f a d))
      → Steady c ((m >>>= f) c)
  bind-Steady m f c = proceed-Steady c (m c).0 (m c).1 f

  -- A result mapped in the code's `if err != nil`.
  map-Steady :
      (c c' : WsConn) (r : Result Error A) (f : A → B)
      → Steady c (c', r)
      → Steady {A = B} c (elim r [ ok a ↦ (c', ok (f a)) | err e ↦ (c', err e) ])
  map-Steady c c' (ok a) f s = record { less = s.less; fuelled = refl }
  map-Steady c c' (err x) f s = record { less = s.less; fuelled = s.fuelled }

-- A Boolean test of the code.
if-Steady {ℓ} :
    {A : Type ℓ} (b : Bool) (c : WsConn) (x y : WsConn × Result Error A)
    → Steady c x
    → Steady c y
    → Steady c (if b then x else y)
if-Steady true c x y s t = s
if-Steady false c x y s t = t

stays {ℓ} : {A : Type ℓ} (c : WsConn) (r : Result Error A) → ran_out r ≡ false → Steady c (c, r)
stays c r h = steady c c r (omega arith) h

read_full-Steady : (n : ℕ) (c : WsConn) → Steady c (read_full n c)
unfolding read_full
read_full-Steady n c =
    if-Steady (ltb (length c.input) n) c (record c { input = [] }, err eof)
      (record c { input = drop n c.input }, ok (take n c.input))
      (steady c (record c { input = [] }) (err eof) (omega arith) refl)
      (steady c (record c { input = drop n c.input }) (ok (take n c.input))
        (omega (arith, length-drop n c.input)) refl)

read_payload-Steady :
    (n : ℕ) (key : Bytes) (masked : Bool) (c : WsConn) → Steady c (read_payload n key masked c)
unfolding read_payload
read_payload-Steady n key masked c = if-Steady (n == 0) c _ _ (stays c (ok []) refl) (
    map-Steady c (read_full n c).0 (read_full n c).1
      (λ buf. if masked then mask_from key 0 buf else buf) (read_full-Steady n c))

read_length-Steady : (n : ℕ) (c : WsConn) → Steady c (read_length n c)
unfolding read_length
read_length-Steady n c =
    if-Steady (n == 126) c _ _
      (map-Steady c (read_full 2 c).0 (read_full 2 c).1 uint (read_full-Steady 2 c))
      (if-Steady (n == 127) c _ _
        (map-Steady c (read_full 8 c).0 (read_full 8 c).1 uint (read_full-Steady 8 c))
        (stays c (ok n) refl))

write_out-Steady : (out : Bytes) (c : WsConn) → Steady c (write_out out c)
unfolding write_out
write_out-Steady out c =
    if-Steady c.up c _ _
      (steady c (record c { output = c.output ++ out }) (ok tt) (omega arith) refl)
      (stays c (err write_failed) refl)

write_frame-Steady : (op : ℕ) (payload : Bytes) (c : WsConn) → Steady c (write_frame op payload c)
unfolding write_frame
write_frame-Steady op payload c =
    if-Steady c.mask c _ _ (drawn (c.draw c.drawn))
      (write_out-Steady (frame_header op 0 (length payload) ++ payload) c)
  where
    drawn :
        (o : Option Bytes)
        → Steady {A = Unit {0}} c (elim o as (λ x. WsConn × Result Error (Unit {0})) [
          | none ↦ (record c { drawn = c.drawn + 1 }, err csprng_failed)
          | some key ↦
              write_out
                (frame_header op 128 (length payload) ++ (key ++ mask_from key 0 payload))
                (record c { drawn = c.drawn + 1 })
        ])
    drawn none = steady c (record c { drawn = c.drawn + 1 }) (err csprng_failed) (omega arith) refl
    drawn (some key) =
        let s =
          write_out-Steady
            (frame_header op 128 (length payload) ++ (key ++ mask_from key 0 payload))
            (record c { drawn = c.drawn + 1 }) in
        record { less = s.less; fuelled = s.fuelled }

check_frame-Steady : (n : ℕ) (masked : Bool) (c : WsConn) → Steady c (check_frame n masked c)
unfolding check_frame
check_frame-Steady n masked c = stays c (check_frame n masked c).1 (ground arith)

read_key-Steady : (masked : Bool) (c : WsConn) → Steady c (read_key masked c)
unfolding read_key
read_key-Steady true c = read_full-Steady 4 c
read_key-Steady false c = stays c (ok (0 ∷ 0 ∷ 0 ∷ 0 ∷ [])) refl

handle_frame-Steady :
    (op : ℕ) (fin : Bool) (n : ℕ) (key : Bytes) (masked : Bool) (c : WsConn)
    → Steady c (handle_frame op fin n key masked c)
unfolding handle_frame write_control
handle_frame-Steady op fin n key masked c =
    if-Steady ((op == op_binary) || (op == op_continuation)) c _ _
      (steady c (record c { rem = n; rmask = key; rmasked = masked; rmask_pos = 0 })
        (ok (if n == 0 then goes_on else returns)) (omega arith) refl)
      (if-Steady (op == op_text) c _ _ (stays c (err unexpected_text) refl) (
        if-Steady (op == op_close) c _ _
          (bind-Steady (read_payload n key masked)
            (λ p. λ c'. ((write_control op_close [] c').0, err eof)) c
            (read_payload-Steady n key masked c)
            (λ p d.
              steady d (write_control op_close [] d).0 (err eof)
                (write_frame-Steady op_close [] d).less refl))
          (if-Steady (op == op_ping) c _ _
            (if-Steady (ltb max_control_payload n || not fin) c _ _
              (stays c (err malformed_ping) refl)
              (bind-Steady (read_payload n key masked)
                (λ p. write_control op_pong p >>>= λ u. λ c'. (c', ok goes_on)) c
                (read_payload-Steady n key masked c)
                (λ p d.
                  bind-Steady (write_control op_pong p) (λ u. λ c'. (c', ok goes_on)) d
                    (write_frame-Steady op_pong (take max_control_payload p) d)
                    (λ u d'. stays d' (ok goes_on) refl))))
            (if-Steady (op == op_pong) c _ _
              (if-Steady (ltb max_control_payload n || not fin) c _ _
                (stays c (err malformed_pong) refl)
                (bind-Steady (read_payload n key masked) (λ p. λ c'. (c', ok goes_on)) c
                  (read_payload-Steady n key masked c) (λ p d. stays d (ok goes_on) refl)))
              (stays c (err bad_opcode) refl)))))

pub frame_body-Steady : (b0 b1 : ℕ) (c : WsConn) → Steady c (frame_body b0 b1 c)
unfolding frame_body frame_tail
frame_body-Steady b0 b1 c =
    if-Steady (not (bit_and b0 112 == 0)) c _ _ (stays c (err reserved_bits) refl) (
      bind-Steady (read_length (bit_and b1 127)) (frame_tail op fin masked) c
        (read_length-Steady (bit_and b1 127) c)
        (λ n d.
          bind-Steady (check_frame n masked)
            (λ u. read_key masked >>>= λ key. handle_frame op fin n key masked) d
            (check_frame-Steady n masked d)
            (λ u d'.
              bind-Steady (read_key masked) (λ key. handle_frame op fin n key masked) d'
                (read_key-Steady masked d')
                (λ key d''. handle_frame-Steady op fin n key masked d''))))
  where
    op : ℕ
    op = bit_and b0 15

    fin : Bool
    fin = not (bit_and b0 128 == 0)

    masked : Bool
    masked = not (bit_and b1 128 == 0)
