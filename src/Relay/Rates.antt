-- ===== src/Relay/Rates.antt =====
-- internal/relay/limits.go: the publish counter over a run of calls.
use xessenger_cli.Prelude.{ℕ, suc, ◌+◌, ◌-◌, ◌≤◌, ◌<◌, List, [], ◌∷◌, true, false, ◌&&◌, All, some}
use xessenger_cli.Prelude.{
  if◌then◌else◌, arith, ◌≡◌, subst, sym, ◌∙◌, ◌⊎◌, inl, inr, Option-cases, Bool-cases,
}
use xessenger_cli.Prelude.Assoc.{Map, lookup, insert, lookup-insert, lookup-insert_self}
use xessenger_cli.Prelude.Bytes.{bytes_eq, bytes_eq_refl, bytes_eq_iff}
use xessenger_cli.Relay.Limits.{Window, allow}

-- How many of the calls of `allow`, each a key and a time, are admitted for one key.
unfoldable pub admitted : List ℕ → ℕ → ℕ → List (List ℕ × ℕ) → Map Window → ℕ
unfolding allow
admitted key limit per [] m = 0
admitted key limit per ((k, now) ∷ calls) m =
    let (m', passed) = allow k limit per now m in
    let rest = admitted key limit per calls m' in
    if bytes_eq k key && passed then suc rest else rest

allow_other :
    (key k : List ℕ) (limit per now : ℕ) (m : Map Window)
    → bytes_eq k key ≡ false
    → lookup key (allow k limit per now m).0 ≡ lookup key m
unfolding allow
allow_other key k limit per now m ne = elim (Option-cases (lookup k m)) [
  | inl e ↦ ground (arith, ne, e, lookup-insert k key (record { count = 1; start = now }) m)
  | inr (w, e) ↦ ground (
    arith,
    ne,
    e,
    lookup-insert k key (record { count = 1; start = now }) m,
    lookup-insert k key (record w { count = w.count + 1 }) m,
  )
]

allow_open :
    (key : List ℕ) (limit per now : ℕ) (m : Map Window) (w : Window)
    → lookup key m ≡ some w
    → now ≤ w.start + per
    → (((allow key limit per now m).1 ≡ false)
        × (lookup key (allow key limit per now m).0 ≡ some w))
      ⊎ ((w.count < limit)
          × ((allow key limit per now m).1 ≡ true)
          × (lookup key (allow key limit per now m).0 ≡ some (record w { count = w.count + 1 })))
unfolding allow
allow_open key limit per now m w held soon =
    ground (arith, held, soon, lookup-insert_self key (record w { count = w.count + 1 }) m)

-- In a window that is open, no more than its remaining room is admitted, whatever the other keys do.
admitted_room :
    (key : List ℕ) (limit per : ℕ) (calls : List (List ℕ × ℕ)) (m : Map Window) (w : Window)
    → lookup key m ≡ some w
    → All (λ (c : List ℕ × ℕ). c.1 ≤ w.start + per) calls
    → admitted key limit per calls m ≤ limit - w.count
unfolding admitted
admitted_room key limit per [] m w held soon = omega arith
admitted_room key limit per ((k, now) ∷ calls) m w held soon = elim (Bool-cases (bytes_eq k key)) [
  | inr ne ↦
      let rest =
        admitted_room key limit per calls (allow k limit per now m).0 w
          (allow_other key k limit per now m ne ∙ held) soon.1 in
      ground (arith, ne, rest)
  | inl e ↦
      subst (λ x. admitted key limit per ((x, now) ∷ calls) m ≤ limit - w.count)
        (sym ((bytes_eq_iff k key).0 e))
        (own (λ m'. λ w'. λ same. λ later. admitted_room key limit per calls m' w' same later)
          (allow_open key limit per now m w held soon.0))
]
  where
    own :
        ((m' : Map Window) (w' : Window)
          → lookup key m' ≡ some w'
          → All (λ (c : List ℕ × ℕ). c.1 ≤ w'.start + per) calls
          → admitted key limit per calls m' ≤ limit - w'.count)
        → (((allow key limit per now m).1 ≡ false)
            × (lookup key (allow key limit per now m).0 ≡ some w))
          ⊎ ((w.count < limit)
              × ((allow key limit per now m).1 ≡ true)
              × (lookup key (allow key limit per now m).0
                  ≡ some (record w { count = w.count + 1 })))
        → admitted key limit per ((key, now) ∷ calls) m ≤ limit - w.count
    own others (inl (refused, same)) =
        let rest = others (allow key limit per now m).0 w same soon.1 in
        ground (arith, refused, rest)
    own others (inr (less, passed, more)) =
        let rest =
          others (allow key limit per now m).0 (record w { count = w.count + 1 }) more soon.1 in
        ground (arith, less, passed, rest, bytes_eq_refl key)

-- From any state of the counter in which a key has no window or one that has expired, over any calls that all come within `per` of the first call for that key, the key is admitted at most `limit` times (once, if the limit is 0), whatever the calls for the other keys are.
pub admitted_limit :
    (key : List ℕ) (limit per now : ℕ) (calls : List (List ℕ × ℕ)) (m : Map Window)
    → ((w : Window) → lookup key m ≡ some w → per < now - w.start)
    → All (λ (c : List ℕ × ℕ). c.1 ≤ now + per) calls
    → admitted key limit per ((key, now) ∷ calls) m ≤ 1 + (limit - 1)
unfolding admitted allow
admitted_limit key limit per now calls m expired soon =
    let w : Window = record { count = 1; start = now } in
    let rest =
      admitted_room key limit per calls (insert key w m) w (lookup-insert_self key w m) soon in
    elim (Option-cases (lookup key m)) [
      | inl new ↦ ground (arith, new, bytes_eq_refl key, rest)
      | inr (old, held) ↦ ground (arith, held, expired old held, bytes_eq_refl key, rest)
    ]
