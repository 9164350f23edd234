-- ===== src/Peers/Keys.antt =====
-- internal/peers/peers.go: the keys that the records of the store stand under.
use xessenger_cli.Prelude.{ℕ, List, [], ◌∷◌, true, All, some, ◌==◌, length}
use xessenger_cli.Prelude.{if_elim, ◌≡◌, refl}
use xessenger_cli.Prelude.Assoc.{
  IsMap, insert-IsMap, delete-IsMap, delete, All-insert, All-delete, All-lookup,
}
use xessenger_cli.Crypto.{Bytes, Primitives}
use xessenger_cli.Peers.{
  Peer, Store, find_by_name, fingerprint_of, observe, verify, reject, load, open_store,
}
use xessenger_cli.Peers.{seen_again, changed_key, new_peer, adopted, public_key_size}
use xessenger_cli.Peers.Cases.{All-find_by_name, observe_elim, verify_elim, reject_elim}

-- What the user and the network do to the store.
pub data Event : Type 0 where
  observes : Bytes → Bytes → Bytes → ℕ → Event
  verifies : Bytes → Event
  rejects : Bytes → Event

module _ (p : Primitives) where
  unfoldable pub apply : Store → Event → Store
  apply s (observes name address key now) = (observe p name address key now s).0
  apply s (verifies name) = (verify p name s).0
  apply s (rejects name) = (reject name s).0

  unfoldable pub apply_all : Store → List Event → Store
  unfolding apply
  apply_all s [] = s
  apply_all s (e ∷ es) = apply_all (apply s e) es

  abbrev pub Keyed : Bytes × Peer → Type 0
  Keyed e = e.0 ≡ fingerprint_of p e.1.public_key

  abbrev pub IsKeyed : Store → Type 0
  IsKeyed s = All Keyed s

  pub found-Keyed :
      (name id : Bytes) (q : Peer) (s : Store)
      → IsKeyed s
      → find_by_name name s ≡ some (id, q)
      → Keyed (id, q)
  found-Keyed name id q s h f = All-find_by_name Keyed name s (id, q) h f

  observe-IsKeyed :
      (name address key : Bytes) (now : ℕ) (s : Store)
      → IsKeyed s
      → IsKeyed (observe p name address key now s).0
  observe-IsKeyed name address key now s h =
      observe_elim p name s address key now (λ r. IsKeyed r.0)
        (λ q e.
          All-insert Keyed (fingerprint_of p key) (seen_again p name address now q) s h
            (All-lookup Keyed (fingerprint_of p key) s q h e))
        (λ id q e f.
          All-insert Keyed id (changed_key p key now q) s h (found-Keyed name id q s h f))
        (λ e f. All-insert Keyed (fingerprint_of p key) (new_peer p name address key now) s h refl)

  verify-IsKeyed : (name : Bytes) (s : Store) → IsKeyed s → IsKeyed (verify p name s).0
  verify-IsKeyed name s h =
      verify_elim p name s (λ r. IsKeyed r.0) (λ f. h)
        (λ id q f e.
          All-insert Keyed id (record q { verified = true }) s h (found-Keyed name id q s h f))
        (λ id q f e.
          All-insert Keyed (fingerprint_of p q.pending_key) (adopted p q)
            (delete (fingerprint_of p q.public_key) s)
            (All-delete Keyed (fingerprint_of p q.public_key) s h) refl)

  reject-IsKeyed : (name : Bytes) (s : Store) → IsKeyed s → IsKeyed (reject name s).0
  reject-IsKeyed name s h =
      reject_elim p name s (λ r. IsKeyed r.0) (λ f. h)
        (λ id q f.
          All-insert Keyed id (record q { pending_key = [] }) s h (found-Keyed name id q s h f))

  load-IsKeyed : (list : List Peer) (s : Store) → IsKeyed s → IsKeyed (load p list s)
  unfolding load
  load-IsKeyed [] s h = h
  load-IsKeyed (q ∷ qs) s h = load-IsKeyed qs _ (
      if_elim IsKeyed (length q.public_key == public_key_size) _ _
        (λ e. All-insert Keyed (fingerprint_of p q.public_key) q s h refl) (λ e. h))

  apply_all-IsKeyed : (s : Store) (es : List Event) → IsKeyed s → IsKeyed (apply_all s es)
  unfolding apply_all
  apply_all-IsKeyed s [] h = h
  apply_all-IsKeyed s (observes name address key now ∷ es) h =
      apply_all-IsKeyed (apply s (observes name address key now)) es
        (observe-IsKeyed name address key now s h)
  apply_all-IsKeyed s (verifies name ∷ es) h =
      apply_all-IsKeyed (apply s (verifies name)) es (verify-IsKeyed name s h)
  apply_all-IsKeyed s (rejects name ∷ es) h =
      apply_all-IsKeyed (apply s (rejects name)) es (reject-IsKeyed name s h)

  apply-IsMap : (s : Store) (e : Event) → IsMap s → IsMap (apply s e)
  unfolding apply
  apply-IsMap s (observes name address key now) h =
      observe_elim p name s address key now (λ r. IsMap r.0)
        (λ q e. insert-IsMap (fingerprint_of p key) (seen_again p name address now q) s h)
        (λ id q e f. insert-IsMap id (changed_key p key now q) s h)
        (λ e f. insert-IsMap (fingerprint_of p key) (new_peer p name address key now) s h)
  apply-IsMap s (verifies name) h =
      verify_elim p name s (λ r. IsMap r.0) (λ f. h)
        (λ id q f e. insert-IsMap id (record q { verified = true }) s h)
        (λ id q f e.
          insert-IsMap (fingerprint_of p q.pending_key) (adopted p q)
            (delete (fingerprint_of p q.public_key) s)
            (delete-IsMap (fingerprint_of p q.public_key) s h))
  apply-IsMap s (rejects name) h =
      reject_elim p name s (λ r. IsMap r.0) (λ f. h)
        (λ id q f. insert-IsMap id (record q { pending_key = [] }) s h)

  load-IsMap : (list : List Peer) (s : Store) → IsMap s → IsMap (load p list s)
  unfolding load
  load-IsMap [] s h = h
  load-IsMap (q ∷ qs) s h = load-IsMap qs _ (
      if_elim IsMap (length q.public_key == public_key_size) _ _
        (λ e. insert-IsMap (fingerprint_of p q.public_key) q s h) (λ e. h))

  apply_all-IsMap : (s : Store) (es : List Event) → IsMap s → IsMap (apply_all s es)
  unfolding apply_all
  apply_all-IsMap s [] h = h
  apply_all-IsMap s (e ∷ es) h = apply_all-IsMap (apply s e) es (apply-IsMap s e h)

  -- A store opened from any list of records, after any observations, verifications and rejections, has each record under the fingerprint of the record's own public key, and no fingerprint twice.
  pub open_store-IsKeyed :
      (list : List Peer) (es : List Event)
      → IsKeyed (apply_all (open_store p list) es) × IsMap (apply_all (open_store p list) es)
  unfolding IsMap
  open_store-IsKeyed list es = (
    apply_all-IsKeyed (open_store p list) es (load-IsKeyed list [] tt),
    apply_all-IsMap (open_store p list) es (load-IsMap list [] tt),
  )
