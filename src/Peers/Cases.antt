-- ===== src/Peers/Cases.antt =====
-- internal/peers/peers.go: the branches of the operations, as case principles.
use xessenger_cli.Prelude.{ℕ, [], ◌∷◌, true, false, All, none, some, Result, ok, err}
use xessenger_cli.Prelude.{
  if◌then◌else◌, if_elim, arith, ◌≡◌, refl, sym, subst, inl, inr, Option-cases,
}
use xessenger_cli.Prelude.Assoc.{lookup, insert, delete}
use xessenger_cli.Crypto.{Bytes, Primitives}
use xessenger_cli.Peers.{
  Peer, Store, Error, no_such_peer, find_by_name, fingerprint_of, observe, verify, reject, is_empty,
}
use xessenger_cli.Peers.{
  seen_again, changed_key, new_peer, adopted, TrustLevel, trust_unknown, trust_changed, level_of,
}

-- What holds of every entry holds of the one found.
pub All-find_by_name {κ} :
    (P : Bytes × Peer → Type κ) (name : Bytes) (s : Store) (e : Bytes × Peer)
    → All P s
    → find_by_name name s ≡ some e
    → P e
unfolding find_by_name
All-find_by_name P name [] e h f = absurd (ground arith)
All-find_by_name P name ((id, q) ∷ s) e h f = ground (
  arith,
  f,
  All-find_by_name P name s e h.1,
  λ (same : some (id, q) ≡ some e). subst P (some_same same) h.0,
)
  where
    some_same : some (id, q) ≡ some e → (id, q) ≡ e
    some_same x = ground (arith, x)

module _ (p : Primitives) (name : Bytes) (s : Store) where
  module _ (address key : Bytes) (now : ℕ) where
    pub observe_known :
        (q : Peer)
        → lookup (fingerprint_of p key) s ≡ some q
        → observe p name address key now s
          ≡ (insert (fingerprint_of p key) (seen_again p name address now q) s, level_of q)
    unfolding observe insert
    observe_known q e = rw (observe, e) refl

    pub observe_changed :
        (id : Bytes) (q : Peer)
        → lookup (fingerprint_of p key) s ≡ none
        → find_by_name name s ≡ some (id, q)
        → observe p name address key now s ≡ (insert id (changed_key p key now q) s, trust_changed)
    unfolding observe insert
    observe_changed id q e f = rw (observe, e, f) refl

    pub observe_new :
        lookup (fingerprint_of p key) s ≡ none
        → find_by_name name s ≡ none
        → observe p name address key now s
          ≡ (insert (fingerprint_of p key) (new_peer p name address key now) s, trust_unknown)
    unfolding observe insert
    observe_new e f = rw (observe, e, f) refl

    pub observe_elim {κ} :
        (P : Store × TrustLevel → Type κ)
        → ((q : Peer)
            → lookup (fingerprint_of p key) s ≡ some q
            → P (insert (fingerprint_of p key) (seen_again p name address now q) s, level_of q))
        → ((id : Bytes) (q : Peer)
            → lookup (fingerprint_of p key) s ≡ none
            → find_by_name name s ≡ some (id, q)
            → P (insert id (changed_key p key now q) s, trust_changed))
        → (lookup (fingerprint_of p key) s ≡ none
            → find_by_name name s ≡ none
            → P (insert (fingerprint_of p key) (new_peer p name address key now) s, trust_unknown))
        → P (observe p name address key now s)
    observe_elim P known changed fresh = elim (Option-cases (lookup (fingerprint_of p key) s)) [
      | inr (q, e) ↦ subst P (sym (observe_known q e)) (known q e)
      | inl e ↦ elim (Option-cases (find_by_name name s)) [
        | inr ((id, q), f) ↦ subst P (sym (observe_changed id q e f)) (changed id q e f)
        | inl f ↦ subst P (sym (observe_new e f)) (fresh e f)
      ]
    ]

  pub verify_elim {κ} :
      (P : Store × Result Error Peer → Type κ)
      → (find_by_name name s ≡ none → P (s, err no_such_peer))
      → ((id : Bytes) (q : Peer)
          → find_by_name name s ≡ some (id, q)
          → is_empty q.pending_key ≡ true
          → P (insert id (record q { verified = true }) s, ok (record q { verified = true })))
      → ((id : Bytes) (q : Peer)
          → find_by_name name s ≡ some (id, q)
          → is_empty q.pending_key ≡ false
          → P (
            insert
                (fingerprint_of p q.pending_key)
                (adopted p q)
                (delete (fingerprint_of p q.public_key) s),
            ok (adopted p q),
          ))
      → P (verify p name s)
  unfolding verify
  verify_elim P missing same pending = elim (Option-cases (find_by_name name s)) [
    | inl e ↦ subst P (sym (missing_eq e)) (missing e)
    | inr ((id, q), e) ↦
        subst P (sym (found_eq id q e))
          (if_elim P (is_empty q.pending_key) _ _ (λ b. same id q e b) (λ b. pending id q e b))
  ]
    where
      missing_eq : find_by_name name s ≡ none → verify p name s ≡ (s, err no_such_peer)
      missing_eq e = rw (verify, e) refl

      found_eq :
          (id : Bytes) (q : Peer)
          → find_by_name name s ≡ some (id, q)
          → verify p name s ≡ (
              if is_empty q.pending_key
              then (insert id (record q { verified = true }) s, ok (record q { verified = true }))
              else (
                insert
                    (fingerprint_of p q.pending_key)
                    (adopted p q)
                    (delete (fingerprint_of p q.public_key) s),
                ok (adopted p q),
              ))
      found_eq id q e = rw (verify, e) refl

  pub reject_elim {κ} :
      (P : Store × Result Error (Unit {0}) → Type κ)
      → (find_by_name name s ≡ none → P (s, err no_such_peer))
      → ((id : Bytes) (q : Peer)
          → find_by_name name s ≡ some (id, q)
          → P (insert id (record q { pending_key = [] }) s, ok tt))
      → P (reject name s)
  unfolding reject
  reject_elim P missing found = elim (Option-cases (find_by_name name s)) [
    | inl e ↦ subst P (sym (missing_eq e)) (missing e)
    | inr ((id, q), e) ↦ subst P (sym (found_eq id q e)) (found id q e)
  ]
    where
      missing_eq : find_by_name name s ≡ none → reject name s ≡ (s, err no_such_peer)
      missing_eq e = rw (reject, e) refl

      found_eq :
          (id : Bytes) (q : Peer)
          → find_by_name name s ≡ some (id, q)
          → reject name s ≡ (insert id (record q { pending_key = [] }) s, ok tt)
      found_eq id q e = rw (reject, e) refl
