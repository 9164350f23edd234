-- ===== src/Rendezvous/Websocket/Ends.antt =====
-- internal/rendezvous/ws.go: `Read` and `Write` as the two ends of a byte stream.
use xessenger_cli.Prelude.{
  ℕ, zero, suc, ◌-◌, ◌≤◌, ◌<◌, List, [], ◌∷◌, ◌++◌, Bool, true, false, none, some, Result, ok, err,
  if◌then◌else◌, length, take, drop, arith, ◌≡◌, refl, sym, ap, subst, ◌∙◌, lt→ltb, length-append,
  length-take, take-append-drop,
}
use Prim.Native.Nat.{min}
use mathlib.Core.List.{append_assoc}
use xessenger_cli.Rendezvous.Websocket.{
  Bytes, Error, out_of_fuel, WsConn, Op, ◌>>>=◌, mask_from, next_frame, Got, read_data, read,
}
use xessenger_cli.Rendezvous.Websocket.Sent.{Sent, bind_ok}
use xessenger_cli.Rendezvous.Websocket.Stream.{next_frame-Carries}
use xessenger_cli.Rendezvous.Websocket.Current.{
  content, wires, Carries, read_data-Carries, length-wires,
}

-- What a reader that was given some bytes has left.
abbrev Given : Bool → WsConn × Got → Bytes → List Sent → ℕ → Type 0
Given masked r cur xs len =
    (c' : WsConn) × (out : Bytes) × (cur' : Bytes) × (xs' : List Sent) × (r ≡ (c', (out, none)))
    × (0 < length out)
    × (length out ≤ len)
    × (cur ++ content xs ≡ out ++ (cur' ++ content xs'))
    × Carries masked c' cur' xs'

read_data_some :
    (masked : Bool) (c : WsConn) (cur : Bytes) (xs : List Sent) (len : ℕ)
    → Carries masked c cur xs
    → 0 < len
    → 0 < length cur
    → Given masked (read_data len c) cur xs len
read_data_some masked c cur xs len h room some_bytes =
    let (c', run, carries) =
      read_data-Carries masked c front back xs len
        (subst (λ l. Carries masked c l xs) (sym whole) h)
        (length-take k cur ∙ omega (arith, ap length whole)) in
    (
      c',
      front,
      back,
      xs,
      run,
      omega (arith, length-take k cur),
      omega (arith, length-take k cur),
      ap (λ l. l ++ content xs) (sym whole) ∙ append_assoc front back (content xs),
      carries,
    )
  where
    k : ℕ
    k = min len (length cur)

    front : Bytes
    front = take k cur

    back : Bytes
    back = drop k cur

    whole : front ++ back ≡ cur
    whole = take-append-drop k cur

read-rest : (len : ℕ) (c : WsConn) → 0 < c.rem → read len c ≡ read_data len c
unfolding read
read-rest len c some_bytes = rw (lt→ltb 0 c.rem some_bytes) refl

pub read-next_frame :
    (len : ℕ) (c c' : WsConn)
    → c.rem ≡ 0
    → next_frame (suc (length c.input)) c ≡ (c', ok tt)
    → read len c ≡ read_data len c'
unfolding read
read-next_frame len c c' empty run = ground (arith, empty, run)

-- `Read` returns between one byte and a bufferful, the next of the stream.
pub read-Carries :
    (masked : Bool) (c : WsConn) (cur : Bytes) (xs : List Sent) (len : ℕ)
    → Carries masked c cur xs
    → 0 < len
    → 0 < length (cur ++ content xs)
    → Given masked (read len c) cur xs len
unfolding mask_from
read-Carries masked c (b ∷ bs) xs len h room some_bytes =
    subst (λ r. Given masked r (b ∷ bs) xs len) (sym (read-rest len c (omega (arith, h.left))))
      (read_data_some masked c (b ∷ bs) xs len h room (omega arith))
read-Carries masked c [] xs len h room some_bytes =
    let (c', cur, ys, run, some_left, split, carries) =
      next_frame-Carries (suc (length c.input)) masked c xs
        (omega (arith, length-wires masked xs, ap length all_wires)) some_bytes h.ready all_wires
        h.traffic in
    let (c'', out, cur', xs', given, one, most, order, carries') =
      read_data_some masked c' cur ys len carries room some_left in
    (
      c'',
      out,
      cur',
      xs',
      read-next_frame len c c' h.left run ∙ given,
      one,
      most,
      split ∙ order,
      carries',
    )
  where
    none_left : (m : Bool) → (if m then [] else []) ++ wires masked xs ≡ wires masked xs
    none_left true = refl
    none_left false = refl

    all_wires : c.input ≡ wires masked xs
    all_wires = h.input_is ∙ none_left c.rmasked

-- `io.ReadFull` over `Read`: reads until the buffer of `n` bytes is full.
abbrev then_fill : (ℕ → Op Bytes) → ℕ → WsConn × Got → WsConn × Result Error Bytes
then_fill more n (c, (out, none)) =
    (more (n - length out) >>>= λ rest. λ c'. (c', ok (out ++ rest))) c
then_fill more n (c, (out, some e)) = (c, err e)

unfoldable pub read_fully : ℕ → ℕ → Op Bytes
unfolding read
read_fully zero zero c = (c, ok [])
read_fully zero (suc n) c = (c, err out_of_fuel)
read_fully (suc fuel) zero c = (c, ok [])
read_fully (suc fuel) (suc n) c = then_fill (read_fully fuel) (suc n) (read (suc n) c)

read_fully-read :
    (fuel n : ℕ) (c c' c'' : WsConn) (out rest : Bytes)
    → read (suc n) c ≡ (c', (out, none))
    → read_fully fuel (suc n - length out) c' ≡ (c'', ok rest)
    → read_fully (suc fuel) (suc n) c ≡ (c'', ok (out ++ rest))
unfolding read_fully
read_fully-read fuel n c c' c'' out rest one more =
    ap (then_fill (read_fully fuel) (suc n)) one
    ∙ bind_ok (read_fully fuel (suc n - length out))
        (λ more_bytes. λ d. (d, ok (out ++ more_bytes))) c' c'' rest more

module _ {ℓ} {A : Type ℓ} where
  take-beyond :
      (n : ℕ) (xs ys : List A) → length xs ≤ n → take n (xs ++ ys) ≡ xs ++ take (n - length xs) ys
  take-beyond n [] ys h = ap (λ k. take k ys) (omega arith)
  take-beyond zero (x ∷ xs) ys h = absurd (omega arith)
  take-beyond (suc n) (x ∷ xs) ys h =
      ap (λ l. x ∷ l) (take-beyond n xs ys (omega arith) ∙ ap (λ k. xs ++ take k ys) (omega arith))

  drop-beyond :
      (n : ℕ) (xs ys : List A) → length xs ≤ n → drop n (xs ++ ys) ≡ drop (n - length xs) ys
  drop-beyond n [] ys h = ap (λ k. drop k ys) (omega arith)
  drop-beyond zero (x ∷ xs) ys h = absurd (omega arith)
  drop-beyond (suc n) (x ∷ xs) ys h =
      drop-beyond n xs ys (omega arith) ∙ ap (λ k. drop k ys) (omega arith)

-- A buffer is filled with the next bytes of the stream, however they were framed.
pub read_fully-Carries :
    (fuel n : ℕ) (masked : Bool) (c : WsConn) (cur : Bytes) (xs : List Sent)
    → n ≤ fuel
    → Carries masked c cur xs
    → n ≤ length (cur ++ content xs)
    → (c' : WsConn) × (cur' : Bytes) × (xs' : List Sent) × (read_fully fuel n c
        ≡ (c', ok (take n (cur ++ content xs))))
      × (drop n (cur ++ content xs) ≡ cur' ++ content xs')
      × Carries masked c' cur' xs'
unfolding read_fully
read_fully-Carries zero (suc n) masked c cur xs enough h have = absurd (omega (arith, enough))
read_fully-Carries zero zero masked c cur xs enough h have = (c, cur, xs, refl, refl, h)
read_fully-Carries (suc fuel) zero masked c cur xs enough h have = (c, cur, xs, refl, refl, h)
read_fully-Carries (suc fuel) (suc n) masked c cur xs enough h have =
    let (c', out, cur', xs', given, one, most, order, carries) =
      read-Carries masked c cur xs (suc n) h (omega arith) (omega (arith, have)) in
    let (c'', cur'', xs'', run, rest, carries') =
      read_fully-Carries fuel (suc n - length out) masked c' cur' xs' (omega (arith, enough, one))
        carries (omega (arith, have, ap length order, length-append out (cur' ++ content xs'))) in
    (
      c'',
      cur'',
      xs'',
      read_fully-read fuel n c c' c'' out (take (suc n - length out) (cur' ++ content xs')) given
            run
          ∙ ap (λ l. (c'', ok l))
              (sym (ap (take (suc n)) order ∙ take-beyond (suc n) out (cur' ++ content xs') most)),
      ap (drop (suc n)) order ∙ drop-beyond (suc n) out (cur' ++ content xs') most ∙ rest,
      carries',
    )
