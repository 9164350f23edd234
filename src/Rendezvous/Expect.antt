-- ===== src/Rendezvous/Expect.antt =====
-- internal/connect/expect.go: inbound connections expected from the addresses of a rendezvous peer.
use xessenger_cli.Prelude.{
  List, [], ◌∷◌, Bool, true, false, ◌||◌, Option, none, some, if◌then◌else◌, if_elim, arith, ◌≡◌,
  refl, subst, Option-cases, inl, inr,
}
use xessenger_cli.Prelude.Bytes.{bytes_eq, bytes_eq_iff}
use xessenger_cli.Prelude.Assoc.{Map, lookup, insert, delete, lookup-insert, lookup-delete}
use xessenger_cli.Crypto.{Bytes}

-- `AdoptOptions` is of any type: the registry only keeps it.
module _ {ℓ} {O : Type ℓ} where
  -- The loop of `expect` under the lock, with the addresses it added; the mutex makes it one step.
  unfoldable pub expect : List Bytes → O → Map O → Map O × List Bytes
  expect [] opts m = (m, [])
  expect (ip ∷ ips) opts m =
      let skipped = expect ips opts m in
      let (m', added) = expect ips opts (insert ip opts m) in
      if bytes_eq ip []
      then skipped
      else elim (lookup ip m) [ some o ↦ skipped | none ↦ (m', ip ∷ added) ]

  -- The function that `expect` returns.
  unfoldable pub withdraw : List Bytes → Map O → Map O
  withdraw [] m = m
  withdraw (ip ∷ ips) m = withdraw ips (delete ip m)

  -- `Hook`, once the peer's address is split.
  abbrev pub hook : Option Bytes → Map O → Option O
  hook none m = none
  hook (some host) m = lookup host m

abbrev contains : Bytes → List Bytes → Bool
contains j [] = false
contains j (i ∷ is) = bytes_eq i j || contains j is

module _ {ℓ} {O : Type ℓ} where
  lookup-withdraw :
      (j : Bytes) (added : List Bytes) (m : Map O)
      → lookup j (withdraw added m) ≡ (if contains j added then none else lookup j m)
  unfolding withdraw
  lookup-withdraw j [] m = refl
  lookup-withdraw j (i ∷ is) m =
      ground (arith, lookup-withdraw j is (delete i m), lookup-delete i j m)

  -- Withdrawing what an `expect` call added, directly after it, leaves every address with the expectation it had before the call: one that another connection had registered is neither replaced nor dropped.
  pub withdraw-expect :
      (ips : List Bytes) (opts : O) (m : Map O) (j : Bytes)
      → lookup j (withdraw (expect ips opts m).1 (expect ips opts m).0) ≡ lookup j m
  unfolding expect withdraw
  withdraw-expect [] opts m j = refl
  withdraw-expect (ip ∷ ips) opts m j =
      let skip = withdraw-expect ips opts m j in
      if_elim (λ (r : Map O × List Bytes). lookup j (withdraw r.1 r.0) ≡ lookup j m)
        (bytes_eq ip []) _ _ (λ e. skip)
        (λ e. elim (Option-cases (lookup ip m)) [
          | inr (o, f) ↦ rw f skip
          | inl f ↦ rw f (added f (withdraw-expect ips opts (insert ip opts m) j))
        ])
    where
      m' : Map O
      m' = (expect ips opts (insert ip opts m)).0

      names : List Bytes
      names = (expect ips opts (insert ip opts m)).1

      same : lookup ip m ≡ none → bytes_eq ip j ≡ true → lookup j m ≡ none
      same f e = subst (λ k. lookup k m ≡ none) ((bytes_eq_iff ip j).0 e) f

      added :
          lookup ip m ≡ none
          → lookup j (withdraw names m') ≡ lookup j (insert ip opts m)
          → lookup j (withdraw (ip ∷ names) m') ≡ lookup j m
      added f rest = ground (
        arith,
        f,
        rest,
        lookup-withdraw j names (delete ip m'),
        lookup-withdraw j names m',
        lookup-delete ip j m',
        lookup-insert ip j opts m,
        same f,
      )
