-- ===== src/Peers/Trust.antt =====
-- internal/peers/peers.go: recorded keys, their verification, and the trust in a key.
use xessenger_cli.Prelude.{ℕ, [], ◌∷◌, true, Option, none, some, Result, ok}
use xessenger_cli.Prelude.{if_elim, arith, ◌≡◌, refl, sym, subst, ap, ◌∙◌, inl, inr, Bool-cases}
use xessenger_cli.Prelude.Bytes.{bytes_eq, bytes_eq_iff, bytes_eq_refl}
use xessenger_cli.Prelude.Assoc.{IsMap, lookup, insert, delete, lookup-insert, lookup-insert_self}
use xessenger_cli.Crypto.{Bytes, Primitives}
use xessenger_cli.Peers.{
  Peer, Store, Error, find_by_name, fingerprint_of, observe, verify, reject, trust_of,
}
use xessenger_cli.Peers.{
  seen_again, changed_key, new_peer, adopted, trust_unknown, trust_verified, trust_changed,
  level_of,
}
use xessenger_cli.Peers.Keys.{IsKeyed, found-Keyed}
use xessenger_cli.Peers.Cases.{observe_elim, verify_elim, reject_elim}

pub lookup-find_by_name :
    (name : Bytes) (s : Store) (id : Bytes) (q : Peer)
    → IsMap s
    → find_by_name name s ≡ some (id, q)
    → (lookup id s ≡ some q) × (q.name ≡ name)
unfolding IsMap find_by_name lookup
lookup-find_by_name name [] id q h f = absurd (ground arith)
lookup-find_by_name name ((j, r) ∷ s) id q h f = elim (Bool-cases (bytes_eq r.name name)) [
  | inl e ↦ ground (arith, f, e, bytes_eq_iff r.name name, bytes_eq_refl j)
  | inr e ↦
      let found : find_by_name name s ≡ some (id, q) = ground (arith, f, e) in
      let rest = lookup-find_by_name name s id q h.1 found in
      ground (arith, rest.0, rest.1, h.0, bytes_eq_iff j id)
]

-- The same key with the same verification.
abbrev pub Keeps : Option Peer → Peer → Type 0
Keeps none q = ⊥
Keeps (some q') q = (q'.public_key ≡ q.public_key) × (q'.verified ≡ q.verified)

insert-Keeps :
    (k id : Bytes) (v q : Peer) (s : Store)
    → ((r : Peer) → lookup k s ≡ some r → Keeps (some v) r)
    → lookup id s ≡ some q
    → Keeps (lookup id (insert k v s)) q
insert-Keeps k id v q s same held =
    subst (λ o. Keeps o q) (sym (lookup-insert k id v s))
      (if_elim (λ o. Keeps o q) (bytes_eq k id) _ _
        (λ e. same q (ap (λ j. lookup j s) ((bytes_eq_iff k id).0 e) ∙ held))
        (λ e. subst (λ o. Keeps o q) (sym held) (refl, refl)))

some_injective : (q r : Peer) → some q ≡ some r → q ≡ r
some_injective q r e = ground (arith, e)

module _ (p : Primitives) where
  -- Observing any key under any name, or rejecting a pending key, keeps the recorded key and its verification in every record of the store.
  pub observe-reject_keep :
      (name address key : Bytes) (now : ℕ) (s : Store) (id : Bytes) (q : Peer)
      → IsMap s
      → lookup id s ≡ some q
      → Keeps (lookup id (observe p name address key now s).0) q
        × Keeps (lookup id (reject name s).0) q
  observe-reject_keep name address key now s id q map held = (
    observe_elim p name s address key now (λ r. Keeps (lookup id r.0) q)
        (λ r e.
          insert-Keeps (fingerprint_of p key) id (seen_again p name address now r) q s
            (λ r' e'. same r r' (sym e ∙ e')) held)
        (λ j r e f.
          insert-Keeps j id (changed_key p key now r) q s
            (λ r' e'. same r r' (sym (lookup-find_by_name name s j r map f).0 ∙ e')) held)
        (λ e f.
          insert-Keeps (fingerprint_of p key) id (new_peer p name address key now) q s
            (λ r' e'. absurd (ground (arith, e, e'))) held),
    reject_elim p name s (λ r. Keeps (lookup id r.0) q)
        (λ f. subst (λ o. Keeps o q) (sym held) (refl, refl))
        (λ j r f.
          insert-Keeps j id (record r { pending_key = [] }) q s
            (λ r' e'. same r r' (sym (lookup-find_by_name name s j r map f).0 ∙ e')) held),
  )
    where
      same :
          (r r' : Peer)
          → some r ≡ some r'
          → (r.public_key ≡ r'.public_key) × (r.verified ≡ r'.verified)
      same r r' e = (
        ap (λ (x : Peer). x.public_key) (some_injective r r' e),
        ap (λ (x : Peer). x.verified) (some_injective r r' e),
      )

  trust_of_known :
      (name key : Bytes) (s : Store) (q : Peer)
      → lookup (fingerprint_of p key) s ≡ some q
      → trust_of p name key s ≡ level_of q
  unfolding trust_of
  trust_of_known name key s q e = rw (trust_of, e) refl

  trust_of_changed :
      (name key : Bytes) (s : Store) (e : Bytes × Peer)
      → lookup (fingerprint_of p key) s ≡ none
      → find_by_name name s ≡ some e
      → trust_of p name key s ≡ trust_changed
  unfolding trust_of
  trust_of_changed name key s e absent f = rw (trust_of, absent, f) refl

  trust_of_unknown :
      (name key : Bytes) (s : Store)
      → lookup (fingerprint_of p key) s ≡ none
      → find_by_name name s ≡ none
      → trust_of p name key s ≡ trust_unknown
  unfolding trust_of
  trust_of_unknown name key s absent f = rw (trust_of, absent, f) refl

  -- The level that `Observe` answers with is the one that `TrustOf` gives in the store before it.
  pub observe-trust_of :
      (name address key : Bytes) (now : ℕ) (s : Store)
      → (observe p name address key now s).1 ≡ trust_of p name key s
  observe-trust_of name address key now s =
      observe_elim p name s address key now (λ r. r.1 ≡ trust_of p name key s)
        (λ q e. sym (trust_of_known name key s q e))
        (λ id q e f. sym (trust_of_changed name key s (id, q) e f))
        (λ e f. sym (trust_of_unknown name key s e f))

  trust_of-insert :
      (other id : Bytes) (q : Peer) (s : Store)
      → id ≡ fingerprint_of p q.public_key
      → trust_of p other q.public_key (insert id q s) ≡ level_of q
  trust_of-insert other id q s e =
      trust_of_known other q.public_key (insert id q s) q
        (ap (λ j. lookup j (insert id q s)) (sym e) ∙ lookup-insert_self id q s)

  ok_injective : (q r : Peer) → ◌≡◌ {A = Result Error Peer} (ok q) (ok r) → q ≡ r
  ok_injective q r e = ground (arith, e)

  -- In a store whose records stand under their keys' fingerprints, when `Verify` succeeds with a record, the key of that record is trusted as verified directly after, under whatever name it is presented.
  pub verify-trust_of :
      (name other : Bytes) (s : Store) (q : Peer)
      → IsKeyed p s
      → (verify p name s).1 ≡ ok q
      → trust_of p other q.public_key (verify p name s).0 ≡ trust_verified
  verify-trust_of name other s q keyed =
      verify_elim p name s (λ r. r.1 ≡ ok q → trust_of p other q.public_key r.0 ≡ trust_verified)
        (λ f e. absurd (ground (arith, e)))
        (λ id r f b e.
          subst
            (λ x.
              trust_of p other x.public_key (insert id (record r { verified = true }) s)
              ≡ trust_verified)
            (ok_injective (record r { verified = true }) q e)
            (trust_of-insert other id (record r { verified = true }) s
              (found-Keyed p name id r s keyed f)))
        (λ id r f b e.
          subst
            (λ x.
              trust_of p other x.public_key (
                insert (fingerprint_of p r.pending_key) (adopted p r)
                  (delete (fingerprint_of p r.public_key) s))
              ≡ trust_verified)
            (ok_injective (adopted p r) q e)
            (trust_of-insert other (fingerprint_of p r.pending_key) (adopted p r)
              (delete (fingerprint_of p r.public_key) s) refl))
