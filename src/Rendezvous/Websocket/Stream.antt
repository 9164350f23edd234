-- ===== src/Rendezvous/Websocket/Stream.antt =====
-- internal/rendezvous/ws.go: the byte stream that a side reads from the frames the other side wrote.
use xessenger_cli.Prelude.{
  ℕ, zero, suc, ◌≤◌, ◌<◌, List, [], ◌∷◌, ◌++◌, Bool, true, false, ok, if◌then◌else◌, ◌==◌, length,
  All, arith, ◌≡◌, inl, inr, refl, ap, subst, ◌∙◌, Bool-cases, ==_iff,
}
use xessenger_cli.Prelude.Bytes.{IsByte}
use xessenger_cli.Rendezvous.Websocket.{
  Bytes, WsConn, mask_from, returns, goes_on, frame_round, next_frame,
}
use xessenger_cli.Rendezvous.Websocket.Header.{binary, ping_frame, pong_frame}
use xessenger_cli.Rendezvous.Websocket.Rounds.{binary_round, pong_round, ping_round}
use xessenger_cli.Rendezvous.Websocket.Sent.{Sent, bind_ok, key_of, covered}
use xessenger_cli.Rendezvous.Websocket.Current.{IsTraffic, data_of, content, wires, Ready, Carries}

pub next_frame-returns :
    (fuel : ℕ) (c c' : WsConn)
    → frame_round c ≡ (c', ok returns)
    → next_frame (suc fuel) c ≡ (c', ok tt)
unfolding next_frame
next_frame-returns fuel c c' e =
    bind_ok frame_round (λ n. elim n [ returns ↦ λ c''. (c'', ok tt) | goes_on ↦ next_frame fuel ])
      c c' returns e

next_frame-goes_on :
    (fuel : ℕ) (c c' : WsConn)
    → frame_round c ≡ (c', ok goes_on)
    → next_frame (suc fuel) c ≡ next_frame fuel c'
unfolding next_frame
next_frame-goes_on fuel c c' e =
    bind_ok frame_round (λ n. elim n [ returns ↦ λ c''. (c'', ok tt) | goes_on ↦ next_frame fuel ])
      c c' goes_on e

-- The loop has stopped at a data frame with bytes, the first of the rest of the stream.
abbrev pub Found : ℕ → Bool → WsConn → List Sent → Type 0
Found fuel masked c xs =
    (c' : WsConn) × (cur : Bytes) × (ys : List Sent) × (next_frame fuel c ≡ (c', ok tt))
    × (0 < length cur)
    × (content xs ≡ cur ++ content ys)
    × Carries masked c' cur ys

next_frame-Found :
    (fuel : ℕ) (masked : Bool) (c c' : WsConn) (x : Sent) (xs : List Sent)
    → data_of x ≡ []
    → frame_round c ≡ (c', ok goes_on)
    → Found fuel masked c' xs
    → Found (suc fuel) masked c (x ∷ xs)
unfolding content
next_frame-Found fuel masked c c' x xs d e (c'', cur, ys, run, some_bytes, split, carries) =
    (c'', cur, ys, next_frame-goes_on fuel c c' e ∙ run, some_bytes, rw d split, carries)

pub data_of-binary : (x : Sent) → x.kind ≡ binary → data_of x ≡ x.payload
unfolding data_of
data_of-binary x k = rw k refl

pub data_of-ping_frame : (x : Sent) → x.kind ≡ ping_frame → data_of x ≡ []
unfolding data_of
data_of-ping_frame x k = rw k refl

data_of-pong_frame : (x : Sent) → x.kind ≡ pong_frame → data_of x ≡ []
unfolding data_of
data_of-pong_frame x k = rw k refl

covered_empty :
    (masked : Bool) (key payload : Bytes)
    → (length payload == 0) ≡ true
    → ((if masked then mask_from key 0 payload else payload) ≡ []) × (payload ≡ [])
unfolding mask_from
covered_empty true key [] h = (refl, refl)
covered_empty false key [] h = (refl, refl)
covered_empty masked key (b ∷ bs) h = absurd (omega (arith, (==_iff (suc (length bs)) 0).0 h))

zeros-IsByte : All IsByte (0 ∷ 0 ∷ 0 ∷ 0 ∷ [])
zeros-IsByte = (omega arith, (omega arith, (omega arith, (omega arith, tt))))

-- A data frame as the current frame.
pub binary-Carries :
    (masked : Bool) (c : WsConn) (x : Sent) (xs : List Sent)
    → Ready masked c
    → IsTraffic x
    → All IsTraffic xs
    → Carries masked
        (record c {
          input = covered masked x ++ wires masked xs;
          rem = length x.payload;
          rmask = key_of masked x;
          rmasked = masked;
          rmask_pos = 0;
        })
        x.payload
        xs
binary-Carries true c x xs r t ts = record {
  ready = record { role = r.role; up = r.up; draws = r.draws };
  left = refl;
  input_is = refl;
  key_bytes = t.sent.key_bytes;
  cur_bytes = t.sent.payload_bytes;
  traffic = ts;
}
binary-Carries false c x xs r t ts = record {
  ready = record { role = r.role; up = r.up; draws = r.draws };
  left = refl;
  input_is = refl;
  key_bytes = zeros-IsByte;
  cur_bytes = t.sent.payload_bytes;
  traffic = ts;
}

-- The loop of `nextFrame` stops at the first data frame that is not empty.
pub next_frame-Carries :
    (fuel : ℕ) (masked : Bool) (c : WsConn) (xs : List Sent)
    → length xs ≤ fuel
    → 0 < length (content xs)
    → Ready masked c
    → c.input ≡ wires masked xs
    → All IsTraffic xs
    → Found fuel masked c xs
unfolding content wires
next_frame-Carries fuel masked c [] enough some_bytes r e t = absurd (omega arith)
next_frame-Carries zero masked c (x ∷ xs) enough some_bytes r e t = absurd (omega arith)
next_frame-Carries (suc fuel) masked c (x ∷ xs) enough some_bytes r e t = elim t.0.kinds [
  | inl k ↦ elim (Bool-cases (length x.payload == 0)) [
    | inl empty ↦
        let (bare, none_left) = covered_empty masked x.key x.payload empty in
        let d : data_of x ≡ [] = data_of-binary x k ∙ none_left in
        next_frame-Found fuel masked c (data_frame) x xs d
          (binary_round masked x (wires masked xs) c t.0.sent k r.role e ∙ rw empty refl)
          (next_frame-Carries fuel masked data_frame xs (omega arith) (later d)
            (record { role = r.role; up = r.up; draws = r.draws })
            (ap (λ l. l ++ wires masked xs) bare) t.1)
    | inr full ↦ (
      data_frame,
      x.payload,
      xs,
      next_frame-returns fuel c data_frame
          (binary_round masked x (wires masked xs) c t.0.sent k r.role e ∙ rw full refl),
      ground (arith, full),
      ap (λ l. l ++ content xs) (data_of-binary x k),
      binary-Carries masked c x xs r t.0 t.1,
    )
  ]
  | inr (inl (k, fits)) ↦
      let (c', run, m) =
        ping_round masked x (wires masked xs) c t.0.sent k fits r.role r.up r.draws e in
      next_frame-Found fuel masked c c' x xs (data_of-ping_frame x k) run (
        next_frame-Carries fuel masked c' xs (omega arith) (later (data_of-ping_frame x k))
          (record {
            role = m.mask_is ∙ r.role;
            up = m.up_is ∙ r.up;
            draws = λ i. rw (m.draw_is) (r.draws i);
          })
          m.input_is t.1)
  | inr (inr (k, fits)) ↦
      next_frame-Found fuel masked c (record c { input = wires masked xs }) x xs
        (data_of-pong_frame x k) (pong_round masked x (wires masked xs) c t.0.sent k fits r.role e)
        (next_frame-Carries fuel masked (record c { input = wires masked xs }) xs (omega arith)
          (later (data_of-pong_frame x k)) (record { role = r.role; up = r.up; draws = r.draws })
          refl t.1)
]
  where
    later : data_of x ≡ [] → 0 < length (content xs)
    later d = subst (λ l. 0 < length (l ++ content xs)) d some_bytes

    data_frame : WsConn
    data_frame = record c {
      input = covered masked x ++ wires masked xs;
      rem = length x.payload;
      rmask = key_of masked x;
      rmasked = masked;
      rmask_pos = 0;
    }
