-- ===== src/Manager/Duplicates.antt =====
-- internal/session/manager.go: `register` and `preferNew` when several connections to one identity
-- come up, before any of them has been announced.
use xessenger_cli.Prelude.{
  ℕ, ◌<◌, List, [], ◌∷◌, map, Bool, true, false, Option, none, some, if◌then◌else◌, ltb, All, arith,
  ◌≡◌, inl, inr, refl, sym, ap, subst, ◌∙◌, Option-cases,
}
use mathlib.Core.List.{Permᴰ}
use mathlib.Core.List.Permᴰ.{nil, cons, swap, trans}
use xessenger_cli.Prelude.Assoc.{lookup, lookup-insert_self}
use xessenger_cli.Crypto.{Bytes}
use xessenger_cli.Manager.{Conn, Manager, put, close, enter, register}
use xessenger_cli.Manager.Registry.{put-heap}

-- A connection that has just finished its handshake.
pub record IsNew (k : Bytes) (c : Conn) : Type 0 where
  pub fp_is : c.fp ≡ k
  pub quiet : c.announced ≡ false
  pub answered : c.unanswered ≡ 0

unfoldable pub register_all : List Conn → Manager → Manager
register_all [] m = m
register_all (c ∷ cs) m = register_all cs (register c m).0

abbrev pub session_ids : List Conn → List ℕ
session_ids = map λ c. c.sess.session_id

-- The session that is kept for an identity.
unfoldable pub kept_session : Bytes → Manager → Option ℕ
kept_session k m = elim (lookup k m.conns) [
  | none ↦ none
  | some i ↦ some (m.heap i).sess.session_id
]

-- The least of a list of numbers, if it has any.
abbrev pub lower : Option ℕ → ℕ → Option ℕ
lower none n = some n
lower (some s) n = some (if ltb n s then n else s)

unfoldable pub least_from : Option ℕ → List ℕ → Option ℕ
least_from o [] = o
least_from o (n ∷ ns) = least_from (lower o n) ns

abbrev pub least : List ℕ → Option ℕ
least ns = least_from none ns

-- The connection that is there for an identity is a new one as well, if there is one.
abbrev AllNew : Bytes → Manager → Type 0
AllNew k m = (i : ℕ) → lookup k m.conns ≡ some i → (i < m.count) × IsNew k (m.heap i)

kept-enter :
    (k : Bytes) (c : Conn) (m : Manager)
    → c.fp ≡ k
    → kept_session k (enter c m) ≡ some c.sess.session_id
unfolding kept_session enter put
kept-enter k c m e = ground (arith, e, lookup-insert_self c.fp m.count m.conns)

kept-none : (k : Bytes) (m : Manager) → lookup k m.conns ≡ none → kept_session k m ≡ none
unfolding kept_session
kept-none k m e = rw (kept_session, e) refl

kept-some :
    (k : Bytes) (m : Manager) (i : ℕ)
    → lookup k m.conns ≡ some i
    → kept_session k m ≡ some (m.heap i).sess.session_id
unfolding kept_session
kept-some k m i e = rw (kept_session, e) refl

enter-AllNew : (k : Bytes) (c : Conn) (m : Manager) → IsNew k c → AllNew k (enter c m)
unfolding enter
enter-AllNew k c m n i h =
    let last : i ≡ m.count = ground (arith, h, n.fp_is, lookup-insert_self c.fp m.count m.conns) in
    (omega (arith, last), put-heap (IsNew k) m.count i c m (λ e. n) (λ ne. absurd (ne last)))

register_first :
    (c : Conn) (m : Manager) → lookup c.fp m.conns ≡ none → register c m ≡ (enter c m, true)
unfolding register
register_first c m e = rw (register, e) refl

-- A new connection replaces another new one if its session has the smaller number.
register_new :
    (k : Bytes) (c : Conn) (m : Manager) (j : ℕ)
    → IsNew k c
    → IsNew k (m.heap j)
    → lookup k m.conns ≡ some j
    → register c m ≡ (
        if ltb c.sess.session_id (m.heap j).sess.session_id
        then (enter c (close j m), true)
        else (m, false))
unfolding register
register_new k c m j n o e =
    let e' : lookup c.fp m.conns ≡ some j = ap (λ i. lookup i m.conns) n.fp_is ∙ e in
    ground (arith, e', o.quiet, o.answered)

register-kept :
    (k : Bytes) (c : Conn) (m : Manager)
    → IsNew k c
    → AllNew k m
    → (kept_session k (register c m).0 ≡ lower (kept_session k m) c.sess.session_id)
      × AllNew k (register c m).0
register-kept k c m n a = elim (Option-cases (lookup k m.conns)) [
  | inl e ↦
      let e' : lookup c.fp m.conns ≡ none = ap (λ i. lookup i m.conns) n.fp_is ∙ e in
      subst
        (λ (r : Manager × Bool).
          (kept_session k r.0 ≡ lower (kept_session k m) c.sess.session_id) × AllNew k r.0)
        (sym (register_first c m e'))
        (
          kept-enter k c m n.fp_is ∙ sym (ap (λ o. lower o c.sess.session_id) (kept-none k m e)),
          enter-AllNew k c m n,
        )
  | inr (j, e) ↦
      subst
        (λ (r : Manager × Bool).
          (kept_session k r.0 ≡ lower (kept_session k m) c.sess.session_id) × AllNew k r.0)
        (sym (register_new k c m j n (a j e).1 e))
        (rw (kept-some k m j e) (smaller j e (ltb c.sess.session_id (m.heap j).sess.session_id)))
]
  where
    chosen : ℕ → Bool → Manager × Bool
    chosen j b = if b then (enter c (close j m), true) else (m, false)

    smaller :
        (j : ℕ)
        → lookup k m.conns ≡ some j
        → (b : Bool)
        → (kept_session k (chosen j b).0
            ≡ some (if b then c.sess.session_id else (m.heap j).sess.session_id))
          × AllNew k (chosen j b).0
    smaller j e true = (kept-enter k c (close j m) n.fp_is, enter-AllNew k c (close j m) n)
    smaller j e false = (kept-some k m j e, a)

register_all-kept :
    (k : Bytes) (cs : List Conn) (m : Manager)
    → All (IsNew k) cs
    → AllNew k m
    → kept_session k (register_all cs m) ≡ least_from (kept_session k m) (session_ids cs)
unfolding register_all least_from
register_all-kept k [] m n a = refl
register_all-kept k (c ∷ cs) m (n, ns) a =
    let (e, a') = register-kept k c m n a in
    register_all-kept k cs (register c m).0 ns a' ∙ ap (λ o. least_from o (session_ids cs)) e

lower_swap : (o : Option ℕ) (a b : ℕ) → lower (lower o a) b ≡ lower (lower o b) a
lower_swap none a b = ground arith
lower_swap (some s) a b = ground arith

least_from-Perm :
    (o : Option ℕ) (ns ns' : List ℕ) → Permᴰ ns ns' → least_from o ns ≡ least_from o ns'
unfolding least_from
least_from-Perm o _ _ nil = refl
least_from-Perm o _ _ (cons {a} {b} {l₁ = ns} {l₂ = ns'} e p) =
    least_from-Perm (lower o a) ns ns' p ∙ ap (λ n. least_from (lower o n) ns') e
least_from-Perm o _ _ (swap {a} {b} {a'} {b'} {l = ns} e f) =
    ap (λ x. least_from x ns)
      (lower_swap o a b ∙ ap (λ n. lower (lower o b) n) e ∙ ap (λ n. lower (lower o n) b') f)
least_from-Perm o _ _ (trans {l₁ = ns} {l₂ = ns'} {l₃ = ns''} p q) =
    least_from-Perm o ns ns' p ∙ least_from-Perm o ns' ns'' q

-- Two sides that register the same sessions with a peer they had no connection to, each in its own order and before it announces one, keep the same one: the one of the least session ID.
pub register_all-least :
    (k k' : Bytes) (cs ds : List Conn) (m m' : Manager)
    → lookup k m.conns ≡ none
    → lookup k' m'.conns ≡ none
    → All (IsNew k) cs
    → All (IsNew k') ds
    → Permᴰ (session_ids cs) (session_ids ds)
    → (kept_session k (register_all cs m) ≡ least (session_ids cs))
      × (kept_session k' (register_all ds m') ≡ kept_session k (register_all cs m))
register_all-least k k' cs ds m m' free free' n n' p =
    let a =
      register_all-kept k cs m n (unused k m free)
      ∙ ap (λ o. least_from o (session_ids cs)) (kept-none k m free) in
    let b =
      register_all-kept k' ds m' n' (unused k' m' free')
      ∙ ap (λ o. least_from o (session_ids ds)) (kept-none k' m' free') in
    (a, b ∙ sym (least_from-Perm none (session_ids cs) (session_ids ds) p) ∙ sym a)
  where
    unused : (k : Bytes) (m : Manager) → lookup k m.conns ≡ none → AllNew k m
    unused k m free i h = absurd (ground (arith, free, h))
