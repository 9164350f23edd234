-- ===== src/Rendezvous/Websocket/Totality.antt =====
-- internal/rendezvous/ws.go: the loop of `nextFrame` and its fuel.
use xessenger_cli.Prelude.{
  ℕ, zero, suc, ◌≤◌, ◌<◌, [], Bool, true, false, Option, none, some, Result, ok, err, ltb, length,
  get_or, take, drop, arith, ◌≡◌, ◌≢◌, inl, inr, refl, sym, ap, ◌∙◌, Bool-cases, ltb→lt, lt→ltb,
  ltb-false, ltb_false→le, length-drop,
}
use mathlib.Core.Bool.{true≢false}
use xessenger_cli.Rendezvous.Websocket.{
  Error, eof, out_of_fuel, WsConn, proceed, read_full, Next, returns, goes_on, frame_body,
  frame_round, next_frame, Got, read_data, read,
}
use xessenger_cli.Rendezvous.Websocket.Steady.{ran_out, frame_body-Steady}

frame_round_short :
    (c : WsConn) → length c.input < 2 → frame_round c ≡ (record c { input = [] }, err eof)
unfolding frame_round read_full
frame_round_short c short = rw (lt→ltb (length c.input) 2 short) refl

frame_round-frame_body :
    (c : WsConn)
    → 2 ≤ length c.input
    → frame_round c
      ≡ frame_body
          (get_or (take 2 c.input) 0 0)
          (get_or (take 2 c.input) 1 0)
          (record c { input = drop 2 c.input })
unfolding frame_round read_full
frame_round-frame_body c long = rw (ltb-false (length c.input) 2 long) refl

-- The loop after a round that has not run out of fuel.
next_frame-Fuelled :
    (fuel : ℕ) (c c' : WsConn) (r : Result Error Next)
    → frame_round c ≡ (c', r)
    → ran_out r ≡ false
    → ran_out (next_frame fuel c').1 ≡ false
    → ran_out (next_frame (suc fuel) c).1 ≡ false
unfolding next_frame
next_frame-Fuelled fuel c c' r e h more = rw e (go r h)
  where
    go :
        (x : Result Error Next)
        → ran_out x ≡ false
        → ran_out
            (proceed {B = Unit {0}}
              (λ n. elim n [ returns ↦ λ d. (d, ok tt) | goes_on ↦ next_frame fuel ])
              (c', x)).1
          ≡ false
    go (ok returns) h = refl
    go (ok goes_on) h = more
    go (err x) h = h

next_frame-eof :
    (fuel : ℕ) (c c' : WsConn)
    → frame_round c ≡ (c', err eof)
    → next_frame (suc fuel) c ≡ (c', err eof)
unfolding next_frame
next_frame-eof fuel c c' e =
    ap (proceed (λ n. elim n [ returns ↦ λ d. (d, ok tt) | goes_on ↦ next_frame fuel ])) e

next_frame_ends :
    (fuel : ℕ) (c : WsConn) → length c.input < fuel → ran_out (next_frame fuel c).1 ≡ false
next_frame_ends zero c enough = absurd (omega arith)
next_frame_ends (suc fuel) c enough = elim (Bool-cases (ltb (length c.input) 2)) [
  | inl short ↦
      ap (λ r. ran_out r.1)
        (next_frame-eof fuel c (record c { input = [] })
          (frame_round_short c (ltb→lt (length c.input) 2 short)))
  | inr long ↦
      let s = frame_body-Steady b0 b1 d in
      next_frame-Fuelled fuel c (frame_body b0 b1 d).0 (frame_body b0 b1 d).1
        (frame_round-frame_body c (ltb_false→le (length c.input) 2 long)) s.fuelled
        (next_frame_ends fuel (frame_body b0 b1 d).0
          (omega (arith, s.less, length-drop 2 c.input, ltb_false→le (length c.input) 2 long)))
]
  where
    b0 : ℕ
    b0 = get_or (take 2 c.input) 0 0

    b1 : ℕ
    b1 = get_or (take 2 c.input) 1 0

    d : WsConn
    d = record c { input = drop 2 c.input }

abbrev gave_up : Option Error → Bool
gave_up none = false
gave_up (some e) = elim e [ out_of_fuel ↦ true | _ ↦ false ]

read_data_ends : (len : ℕ) (c : WsConn) → gave_up (read_data len c).1.1 ≡ false
unfolding read_data
read_data_ends len c = ground arith

read_fuelled : (len : ℕ) (c : WsConn) → gave_up (read len c).1.1 ≡ false
unfolding read
read_fuelled len c = elim (Bool-cases (ltb 0 c.rem)) [
  | inl some_left ↦ rw some_left (read_data_ends len c)
  | inr none_left ↦ rw none_left (
      after (next_frame (suc (length c.input)) c).0 (next_frame (suc (length c.input)) c).1
        (next_frame_ends (suc (length c.input)) c (omega arith)))
]
  where
    after :
        (c' : WsConn) (r : Result Error (Unit {0}))
        → ran_out r ≡ false
        → gave_up
            (elim r as (λ x. WsConn × Got) [
              | ok u ↦ read_data len c'
              | err e ↦ (c', ([], some e))
            ]).1.1
          ≡ false
    after c' (ok u) h = read_data_ends len c'
    after c' (err e) h = h

-- `Read` comes to an end on every input.
pub read_ends : (len : ℕ) (c : WsConn) → (read len c).1.1 ≢ some out_of_fuel
read_ends len c e = true≢false (sym (ap gave_up e) ∙ read_fuelled len c)
