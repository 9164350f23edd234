-- ===== src/Rendezvous/Websocket/Current.antt =====
-- internal/rendezvous/ws.go: the frame that a connection is reading, with the frames behind it.
use xessenger_cli.Prelude.{
  ℕ, ◌+◌, ◌-◌, ◌≤◌, List, [], ◌∷◌, ◌++◌, Bool, true, false, not, none, if◌then◌else◌, ltb, length,
  All, arith, ◌≡◌, ◌⊎◌, inl, inr, refl, sym, ap, subst, ◌∙◌, Bool-cases, length-append, take-append,
  drop-append,
}
use Prim.Native.Nat.{min}
use mathlib.Core.List.{append_assoc}
use xessenger_cli.Prelude.Bytes.{IsByte, All-take, All-drop}
use xessenger_cli.Rendezvous.Websocket.{Bytes, max_control_payload, WsConn, mask_from, read_data}
use xessenger_cli.Rendezvous.Websocket.Header.{
  binary, ping_frame, pong_frame, length-mask_from, mask_from-append, mask_from_cancel,
}
use xessenger_cli.Rendezvous.Websocket.Rounds.{Draws}
use xessenger_cli.Rendezvous.Websocket.Sent.{Sent, wire, IsSent, length-wire}

-- A frame that the other side may send before it closes.
pub record IsTraffic (x : Sent) : Type 0 where
  pub sent : IsSent x
  pub kinds :
      (x.kind ≡ binary)
      ⊎ ((x.kind ≡ ping_frame) × (length x.payload ≤ max_control_payload))
      ⊎ ((x.kind ≡ pong_frame) × (length x.payload ≤ max_control_payload))

-- The stream's bytes in a frame, and in a list of frames.
unfoldable pub data_of : Sent → Bytes
data_of x = elim x.kind [ binary ↦ x.payload | _ ↦ [] ]

unfoldable pub content : List Sent → Bytes
unfolding data_of
content [] = []
content (x ∷ xs) = data_of x ++ content xs

unfoldable pub wires : Bool → List Sent → Bytes
wires masked [] = []
wires masked (x ∷ xs) = wire masked x ++ wires masked xs

-- The reader can answer pings, and reads frames of the other role.
pub record Ready (masked : Bool) (c : WsConn) : Type 0 where
  pub role : c.mask ≡ not masked
  pub up : c.up ≡ true
  pub draws : Draws c

-- The bytes left of the current frame, and the frames behind it.
pub record Carries (masked : Bool) (c : WsConn) (cur : Bytes) (xs : List Sent) : Type 0 where
  pub ready : Ready masked c
  pub left : c.rem ≡ length cur
  pub input_is :
      c.input ≡ (if c.rmasked then mask_from c.rmask c.rmask_pos cur else cur) ++ wires masked xs
  pub key_bytes : All IsByte c.rmask
  pub cur_bytes : All IsByte cur
  pub traffic : All IsTraffic xs

-- A read takes what there is room for from the front of the input.
read_data-append :
    (len : ℕ) (front back : Bytes) (c : WsConn)
    → c.input ≡ front ++ back
    → length front ≡ min len c.rem
    → read_data len c ≡ (
      record c {
        input = back;
        rem = c.rem - length front;
        rmask_pos = if c.rmasked then c.rmask_pos + length front else c.rmask_pos;
      },
      ((if c.rmasked then mask_from c.rmask c.rmask_pos front else front), none),
    )
unfolding read_data
read_data-append len front back c e l =
    rw
      (
        e,
        sym l,
        take-append (length front) front back refl,
        drop-append (length front) front back refl,
        not_short,
      )
      refl
  where
    not_short : ltb (length (front ++ back)) (length front) ≡ false
    not_short = ground (arith, length-append front back)

-- The wire form of a frame's bytes, from a place of the key on.
abbrev masked_at : WsConn → ℕ → Bytes → Bytes
masked_at c pos bs = if c.rmasked then mask_from c.rmask pos bs else bs

length-masked_at : (c : WsConn) (pos : ℕ) (bs : Bytes) → length (masked_at c pos bs) ≡ length bs
length-masked_at c pos bs = elim (Bool-cases c.rmasked) [
  | inl m ↦ rw m (length-mask_from c.rmask pos bs)
  | inr m ↦ rw m refl
]

masked_at-append :
    (c : WsConn) (xs bs : Bytes)
    → masked_at c c.rmask_pos (xs ++ bs)
      ≡ masked_at c c.rmask_pos xs
        ++ masked_at c (if c.rmasked then c.rmask_pos + length xs else c.rmask_pos) bs
masked_at-append c xs bs = elim (Bool-cases c.rmasked) [
  | inl m ↦ rw m (mask_from-append c.rmask c.rmask_pos xs bs)
  | inr m ↦ rw m refl
]

masked_at_cancel :
    (c : WsConn) (pos : ℕ) (bs : Bytes)
    → All IsByte c.rmask
    → All IsByte bs
    → masked_at c pos (masked_at c pos bs) ≡ bs
masked_at_cancel c pos bs hk hb = elim (Bool-cases c.rmasked) [
  | inl m ↦ rw m (mask_from_cancel c.rmask pos bs hk hb)
  | inr m ↦ rw m refl
]

-- Bytes of the current frame are read in order, as many as there is room for.
pub read_data-Carries :
    (masked : Bool) (c : WsConn) (done cur : Bytes) (xs : List Sent) (len : ℕ)
    → Carries masked c (done ++ cur) xs
    → length done ≡ min len (length (done ++ cur))
    → (c' : WsConn) × (read_data len c ≡ (c', (done, none))) × Carries masked c' cur xs
read_data-Carries masked c done cur xs len h l = (
  record c { input = back; rem = c.rem - length done; rmask_pos = pos },
  read_data-append len front back c
        (h.input_is
          ∙ rw (masked_at-append c done cur)
              (append_assoc front (masked_at c pos cur) (wires masked xs)))
        (same_length ∙ l ∙ ap (min len) (sym h.left))
      ∙ rw same_length (
          ap
            (λ bs.
              (record c { input = back; rem = c.rem - length done; rmask_pos = pos }, (bs, none)))
            unmasked),
  record {
    ready = record { role = h.ready.role; up = h.ready.up; draws = h.ready.draws };
    left = omega (arith, h.left, length-append done cur);
    input_is = refl;
    key_bytes = h.key_bytes;
    cur_bytes =
        subst (All IsByte) (drop-append (length done) done cur refl)
          (All-drop IsByte (length done) (done ++ cur) h.cur_bytes);
    traffic = h.traffic;
  },
)
  where
    pos : ℕ
    pos = if c.rmasked then c.rmask_pos + length done else c.rmask_pos

    front : Bytes
    front = masked_at c c.rmask_pos done

    back : Bytes
    back = masked_at c pos cur ++ wires masked xs

    same_length : length front ≡ length done
    same_length = length-masked_at c c.rmask_pos done

    unmasked : masked_at c c.rmask_pos front ≡ done
    unmasked = masked_at_cancel c c.rmask_pos done h.key_bytes (
        subst (All IsByte) (take-append (length done) done cur refl)
          (All-take IsByte (length done) (done ++ cur) h.cur_bytes))

pub length-wires : (masked : Bool) (xs : List Sent) → length xs ≤ length (wires masked xs)
unfolding wires
length-wires masked [] = omega arith
length-wires masked (x ∷ xs) = omega (
  arith,
  length-append (wire masked x) (wires masked xs),
  length-wire masked x,
  length-wires masked xs,
)
