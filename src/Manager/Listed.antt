-- ===== src/Manager/Listed.antt =====
-- internal/session/manager.go: the registry under `unregister` and `register`.
use xessenger_cli.Prelude.{
  ℕ, ◌<◌, true, none, some, arith, ◌≡◌, ◌≢◌, ◌==◌, inl, inr, refl, sym, ap, ◌∙◌, if◌then◌else◌,
  if_elim, ==_iff, ==_refl,
}
use mathlib.Core.Bool.{true≢false}
use xessenger_cli.Prelude.Assoc.{lookup, insert, lookup-insert_self, lookup-delete}
use xessenger_cli.Crypto.{Bytes}
use xessenger_cli.Proto.Session
use xessenger_cli.Manager.{Conn, Manager, put, close, enter, unregister, leads_to}
use xessenger_cli.Manager.Registry.{
  put-heap, some_injective, insert_cases, lookup-insert_ne, lookup-delete_other, lookup-forgotten,
  bytes_ne,
}
use xessenger_cli.Manager.Sections.{Stage, gone, over}
use xessenger_cli.Manager.Consistent.{listed, IsRegistry, Nothing, Alike, put-Alike, stage_other}

-- `unregister` of a connection that is registered.
pub unregister-IsRegistry :
    (i : ℕ) (m : Manager) (st : ℕ → Stage)
    → i < m.count
    → listed (st i) ≡ true
    → IsRegistry Nothing m st
    → IsRegistry Nothing (unregister i m) (λ j. if j == i then gone else st j)
unfolding unregister
unregister-IsRegistry i m st l li r =
    rw ((r.current i l li).1, ==_refl i)
      (record {
        registered = λ k j free h.
            let (ne, held) = lookup-delete_other (m.heap i).fp k j m.conns h in
            let (l', li', f) = r.registered k j (λ x. x) held in
            (
              l',
              ap listed (stage_other i j st gone (λ e. ne (sym f ∙ ap (λ n. (m.heap n).fp) e)))
                  ∙ li',
              f,
            );
        current = λ j l' li'.
            let other : j ≢ i = not_gone j li' in
            let held = (r.current j l' (sym (ap listed (stage_other i j st gone other)) ∙ li')).1 in
            (
              (λ x. x),
              lookup-delete (m.heap i).fp (m.heap j).fp m.conns
                  ∙ ap (λ t. if t then none else lookup (m.heap j).fp m.conns)
                      (bytes_ne (m.heap i).fp (m.heap j).fp (λ e. other (
                        some_injective j i
                          (sym held ∙ ap (λ k. lookup k m.conns) e ∙ (r.current i l li).1))))
                  ∙ held,
            );
        named = λ n j h. r.named n j (
            lookup-forgotten (leads_to (lookup (m.heap i).name m.by_name) i) (m.heap i).name n
              m.by_name j h);
        unused = λ j later.
            stage_other i j st gone (λ e. absurd (omega (arith, l, later, e))) ∙ r.unused j later;
      })
  where
    not_gone : (j : ℕ) → listed (if j == i then gone else st j) ≡ true → j ≢ i
    not_gone j h e =
        true≢false (sym h ∙ ap (λ b. listed (if b then gone else st j)) ((==_iff j i).1 e))

-- The end of `register`, with no other connection listed under the fingerprint.
pub enter-IsRegistry :
    (c : Conn) (m : Manager) (st : ℕ → Stage)
    → IsRegistry (λ k. k ≡ c.fp) m st
    → IsRegistry Nothing (enter c m) st
unfolding enter put
enter-IsRegistry c m st r = record {
  registered = λ k j free h. elim (insert_cases m.count c.fp k m.conns j h) [
    | inl (e, f) ↦ (
      omega (arith, e),
      ap (λ n. listed (st n)) e ∙ ap listed (r.unused m.count (omega arith)),
      put-heap (λ x. x.fp ≡ k) m.count j c m (λ e'. f) (λ ne. absurd (ne e)),
    )
    | inr (f, held) ↦
        let (l, li, e) = r.registered k j (λ g. f (sym g)) held in
        (
          omega (arith, l),
          li,
          put-heap (λ x. x.fp ≡ k) m.count j c m (λ e'. absurd (omega (arith, l, e'))) (λ ne. e),
        )
  ];
  current = λ j l li. (
    (λ x. x),
    put-heap (λ x. lookup x.fp (insert c.fp m.count m.conns) ≡ some j) m.count j c m
        (λ e. lookup-insert_self c.fp m.count m.conns ∙ ap some (sym e))
        (λ ne.
          let (other, held) = r.current j (omega (arith, l, ne)) li in
          lookup-insert_ne c.fp (m.heap j).fp m.count m.conns other ∙ held),
  );
  named = λ n j h. elim (insert_cases m.count c.name n m.by_name j h) [
    | inl (e, f) ↦
        (omega (arith, e), put-heap (λ x. x.name ≡ n) m.count j c m (λ e'. f) (λ ne. absurd (ne e)))
    | inr (f, held) ↦
        let (l, e) = r.named n j held in
        (
          omega (arith, l),
          put-heap (λ x. x.name ≡ n) m.count j c m (λ e'. absurd (omega (arith, l, e'))) (λ ne. e),
        )
  ];
  unused = λ j later. r.unused j (omega (arith, later));
}

pub same_Alike : (m : Manager) → Alike m m
same_Alike m = record {
  same_count = refl;
  same_conns = refl;
  same_names = refl;
  same_fp = λ i. refl;
  same_name = λ i. refl;
}

-- With nothing registered under a fingerprint, or with the connection there at an end.
pub free-IsRegistry :
    (k0 : Bytes) (m : Manager) (st : ℕ → Stage)
    → lookup k0 m.conns ≡ none
    → IsRegistry Nothing m st
    → IsRegistry (λ k. k ≡ k0) m st
free-IsRegistry k0 m st free r = record {
  registered = λ k i ne h. r.registered k i (λ x. x) h;
  current = λ i l li.
      let held = (r.current i l li).1 in ((λ e. absurd (ground (arith, free, held, e))), held);
  named = r.named;
  unused = r.unused;
}

pub ended-IsRegistry :
    (k0 : Bytes) (j : ℕ) (m : Manager) (st : ℕ → Stage)
    → lookup k0 m.conns ≡ some j
    → IsRegistry Nothing m st
    → IsRegistry (λ k. k ≡ k0) (close j m) (λ i. if i == j then over else st i)
unfolding close
ended-IsRegistry k0 j m st there r =
    if_elim (λ x. IsRegistry (λ k. k ≡ k0) x (λ i. if i == j then over else st i)) (m.heap j).done _
      _ (λ e. ended m (same_Alike m)) (λ e. ended (put j closed m) (put-Alike j closed m refl refl))
  where
    closed : Conn
    closed = record (m.heap j) { done = true; sess = Session.close (m.heap j).sess }

    not_over : (i : ℕ) → listed (if i == j then over else st i) ≡ true → i ≢ j
    not_over i h e =
        true≢false (sym h ∙ ap (λ b. listed (if b then over else st i)) ((==_iff i j).1 e))

    place : j < m.count
    place = (r.registered k0 j (λ x. x) there).0

    ended :
        (m' : Manager)
        → Alike m m'
        → IsRegistry (λ k. k ≡ k0) m' (λ i. if i == j then over else st i)
    ended m' a = record {
      registered = λ k i ne h.
          let (l, li, f) = r.registered k i (λ x. x) (ap (lookup k) (sym a.same_conns) ∙ h) in
          let own = (r.registered k0 j (λ x. x) there).2 in
          (
            omega (arith, l, a.same_count),
            ap listed (stage_other j i st over (λ e. ne (sym f ∙ ap (λ n. (m.heap n).fp) e ∙ own)))
                ∙ li,
            a.same_fp i ∙ f,
          );
      current = λ i l li.
          let other = not_over i li in
          let held =
            (r.current i (omega (arith, l, a.same_count))
              (sym (ap listed (stage_other j i st over other)) ∙ li)).1 in
          (
            (λ e. other (
                some_injective i j
                  (sym held ∙ ap (λ k. lookup k m.conns) (sym (a.same_fp i) ∙ e) ∙ there))),
            ap (λ k. lookup k m'.conns) (a.same_fp i)
                ∙ ap (lookup (m.heap i).fp) a.same_conns
                ∙ held,
          );
      named = λ n i h.
          let (l, e) = r.named n i (ap (lookup n) (sym a.same_names) ∙ h) in
          (omega (arith, l, a.same_count), a.same_name i ∙ e);
      unused = λ i later.
          stage_other j i st over (λ e. absurd (omega (arith, place, later, e, a.same_count)))
          ∙ r.unused i (omega (arith, later, a.same_count));
    }
