-- ===== src/Prelude/Assoc.antt =====
-- Go maps with string keys, as association lists: a key stands in the list at most once if the map
-- was built by these operations, and iteration is in list order (Go leaves the order open, so a
-- theorem about every list covers every order).
use Prim.Native.Nat.{ℕ, ◌+◌, ◌≤◌}
use mathlib.Core.Path.{◌≡◌, refl, ap, sym, subst, ◌∙◌}
use mathlib.Core.Bool.{Bool}
use mathlib.Core.Option.{Option, none, some}
use mathlib.Core.List.{List, [], ◌∷◌}
use native.Mathlib.Omega.{arith}
use xessenger_cli.Prelude.Lists.{length, All}
use xessenger_cli.Prelude.Tests.{if◌then◌else◌, if_elim}
use xessenger_cli.Prelude.Bytes.{bytes_eq, bytes_eq_iff, bytes_eq_refl}

abbrev pub Map {ℓ} : Type ℓ → Type ℓ
Map V = List (List ℕ × V)

module _ {ℓ} {V : Type ℓ} where
  unfoldable pub lookup : List ℕ → Map V → Option V
  lookup k [] = none
  lookup k ((j, v) ∷ m) = if bytes_eq j k then some v else lookup k m

  -- `m[k] = v`
  unfoldable pub insert : List ℕ → V → Map V → Map V
  insert k v [] = (k, v) ∷ []
  insert k v ((j, w) ∷ m) = if bytes_eq j k then (j, v) ∷ m else (j, w) ∷ insert k v m

  -- `delete(m, k)`
  unfoldable pub delete : List ℕ → Map V → Map V
  delete k [] = []
  delete k ((j, w) ∷ m) = if bytes_eq j k then delete k m else (j, w) ∷ delete k m

  -- Drops the entries whose value passes the test, as a loop of `delete` over the map does.
  unfoldable pub delete_if : (V → Bool) → Map V → Map V
  delete_if test [] = []
  delete_if test ((j, w) ∷ m) = if test w then delete_if test m else (j, w) ∷ delete_if test m

module _ {ℓ} {V : Type ℓ} where
  pub lookup-insert :
      (k j : List ℕ) (v : V) (m : Map V)
      → lookup j (insert k v m) ≡ (if bytes_eq k j then some v else lookup j m)
  unfolding lookup insert
  lookup-insert k j v [] = refl
  lookup-insert k j v ((i, w) ∷ m) =
      ground (arith, bytes_eq_iff k j, bytes_eq_iff i k, bytes_eq_iff i j, lookup-insert k j v m)

  pub lookup-delete :
      (k j : List ℕ) (m : Map V)
      → lookup j (delete k m) ≡ (if bytes_eq k j then none else lookup j m)
  unfolding lookup delete
  lookup-delete k j [] = ground arith
  lookup-delete k j ((i, w) ∷ m) =
      ground (arith, bytes_eq_iff k j, bytes_eq_iff i k, bytes_eq_iff i j, lookup-delete k j m)

  pub lookup-insert_self : (k : List ℕ) (v : V) (m : Map V) → lookup k (insert k v m) ≡ some v
  lookup-insert_self k v m =
      lookup-insert k k v m ∙ ap (λ b. if b then some v else lookup k m) (bytes_eq_refl k)

  pub lookup-delete_self : (k : List ℕ) (m : Map V) → lookup k (delete k m) ≡ none
  lookup-delete_self k m =
      lookup-delete k k m ∙ ap (λ b. if b then none else lookup k m) (bytes_eq_refl k)

  pub length-insert : (k : List ℕ) (v : V) (m : Map V) → length (insert k v m) ≤ length m + 1
  unfolding insert
  length-insert k v [] = omega arith
  length-insert k v ((i, w) ∷ m) = ground (arith, length-insert k v m)

  pub length-delete : (k : List ℕ) (m : Map V) → length (delete k m) ≤ length m
  unfolding delete
  length-delete k [] = omega arith
  length-delete k ((i, w) ∷ m) = ground (arith, length-delete k m)

  pub length-delete_if : (test : V → Bool) (m : Map V) → length (delete_if test m) ≤ length m
  unfolding delete_if
  length-delete_if test [] = omega arith
  length-delete_if test ((i, w) ∷ m) = ground (arith, length-delete_if test m)

module _ {ℓ κ} {V : Type ℓ} (P : List ℕ × V → Type κ) where
  pub All-insert : (k : List ℕ) (v : V) (m : Map V) → All P m → P (k, v) → All P (insert k v m)
  unfolding insert
  All-insert k v [] h hv = (hv, tt)
  All-insert k v ((j, w) ∷ m) h hv = ground (
    arith,
    bytes_eq_iff j k,
    All-insert k v m h.1 hv,
    λ (e : j ≡ k). subst (λ i. P (i, v)) (sym e) hv,
  )

  pub All-delete : (k : List ℕ) (m : Map V) → All P m → All P (delete k m)
  unfolding delete
  All-delete k [] h = h
  All-delete k ((j, w) ∷ m) h = ground (arith, All-delete k m h.1)

  pub All-delete_if : (test : V → Bool) (m : Map V) → All P m → All P (delete_if test m)
  unfolding delete_if
  All-delete_if test [] h = h
  All-delete_if test ((j, w) ∷ m) h = ground (arith, All-delete_if test m h.1)

  pub All-lookup : (k : List ℕ) (m : Map V) (v : V) → All P m → lookup k m ≡ some v → P (k, v)
  unfolding lookup
  All-lookup k [] v h e = absurd (ground arith)
  All-lookup k ((j, w) ∷ m) v h e =
      ground (arith, bytes_eq_iff j k, All-lookup k m v h.1, here k j v w h.0)
    where
      here : (k j : List ℕ) (v w : V) → P (j, w) → j ≡ k → some w ≡ some v → P (k, v)
      here k j v w q d f = subst (λ i. P (i, v)) d (subst (λ x. P (j, x)) (ground arith) q)

-- Each key stands in the list once.
module _ {ℓ} {V : Type ℓ} where
  unfoldable pub IsMap : Map V → Type ℓ
  IsMap [] = Unit
  IsMap ((j, w) ∷ m) = (lookup j m ≡ none) × IsMap m

  pub insert-IsMap : (k : List ℕ) (v : V) (m : Map V) → IsMap m → IsMap (insert k v m)
  unfolding insert lookup IsMap
  insert-IsMap k v [] h = (refl, tt)
  insert-IsMap k v ((j, w) ∷ m) h =
      if_elim IsMap (bytes_eq j k) _ _ (λ e. h)
        (λ e. (
          ground (arith, e, h.0, lookup-insert k j v m, bytes_eq_iff j k, bytes_eq_iff k j),
          insert-IsMap k v m h.1,
        ))

  pub delete-IsMap : (k : List ℕ) (m : Map V) → IsMap m → IsMap (delete k m)
  unfolding delete lookup IsMap
  delete-IsMap k [] h = tt
  delete-IsMap k ((j, w) ∷ m) h =
      if_elim IsMap (bytes_eq j k) _ _ (λ e. delete-IsMap k m h.1)
        (λ e. (ground (arith, h.0, lookup-delete k j m), delete-IsMap k m h.1))
