-- ===== src/Manager/Registry.antt =====
-- internal/session/manager.go: when the registry of connections is consistent, and its changes by
-- `register`, by `dropConn` and by what happens on one connection.
use xessenger_cli.Prelude.{
  ℕ, ◌≤◌, ◌<◌, [], ◌∷◌, Bool, true, false, none, some, if◌then◌else◌, if_elim, ltb, ◌==◌, length,
  arith, ◌≡◌, ◌≢◌, ◌⊎◌, inl, inr, refl, sym, ap, ◌∙◌, Bool-cases, ltb→lt, ==_iff, ==_refl,
  length-append,
}
use mathlib.Core.Bool.{true≢false}
use xessenger_cli.Prelude.Bytes.{bytes_eq, bytes_eq_iff}
use xessenger_cli.Prelude.Assoc.{
  Map, lookup, insert, delete, lookup-insert, lookup-insert_self, lookup-delete,
}
use xessenger_cli.Crypto.{Bytes}
use xessenger_cli.Proto.Session
use xessenger_cli.Manager.{
  Event, send_capacity, events_capacity, Conn, Manager, leads_to, put, emit, close, enter,
  unregister,
}

abbrev pub IsOpen : Manager → ℕ → Type 0
IsOpen m i = (i < m.count) × ((m.heap i).done ≡ false)

-- What holds of every connection by itself.
abbrev pub IsSound : Conn → Type 0
IsSound c = (c.done ≡ true → c.sess.closed ≡ true) × (length c.queue ≤ send_capacity)

-- What holds of the rest of the manager.
pub record IsTidy (m : Manager) : Type 0 where
  pub sound : (i : ℕ) → IsSound (m.heap i)
  pub named :
      (n : Bytes) (i : ℕ) → lookup n m.by_name ≡ some i → (i < m.count) × ((m.heap i).name ≡ n)
  pub few_events : length m.events ≤ events_capacity

-- The registry: it holds open connections under their fingerprints, and all of them.
pub record IsWf (m : Manager) : Type 0 where
  pub tidy : IsTidy m
  pub registered :
      (k : Bytes) (i : ℕ) → lookup k m.conns ≡ some i → IsOpen m i × ((m.heap i).fp ≡ k)
  pub current : (i : ℕ) → IsOpen m i → lookup (m.heap i).fp m.conns ≡ some i

-- The same with no open connection of one fingerprint, whatever the registry has under it.
pub record IsWfBut (k0 : Bytes) (m : Manager) : Type 0 where
  pub tidy : IsTidy m
  pub registered :
      (k : Bytes) (i : ℕ) → k ≢ k0 → lookup k m.conns ≡ some i → IsOpen m i × ((m.heap i).fp ≡ k)
  pub current :
      (i : ℕ) → IsOpen m i → ((m.heap i).fp ≢ k0) × (lookup (m.heap i).fp m.conns ≡ some i)

pub put-heap {ℓ} :
    (P : Conn → Type ℓ) (i j : ℕ) (c : Conn) (m : Manager)
    → (j ≡ i → P c)
    → (j ≢ i → P (m.heap j))
    → P ((put i c m).heap j)
unfolding put
put-heap P i j c m here there =
    if_elim P (j == i) c (m.heap j) (λ e. here ((==_iff j i).0 e))
      (λ e. there (λ d. true≢false (sym ((==_iff j i).1 d) ∙ e)))

pub put_same {ℓ} :
    {A : Type ℓ} (f : Conn → A) (i j : ℕ) (c : Conn) (m : Manager)
    → f c ≡ f (m.heap i)
    → f ((put i c m).heap j) ≡ f (m.heap j)
put_same f i j c m same =
    put-heap (λ x. f x ≡ f (m.heap j)) i j c m (λ e. same ∙ ap (λ k. f (m.heap k)) (sym e))
      (λ e. refl)

-- A change of one connection that keeps its identity, its name and whether it is open.
pub put-IsWf :
    (i : ℕ) (c : Conn) (m : Manager)
    → c.fp ≡ (m.heap i).fp
    → c.name ≡ (m.heap i).name
    → c.done ≡ (m.heap i).done
    → IsSound c
    → IsWf m
    → IsWf (put i c m)
unfolding put
put-IsWf i c m same_fp same_name same_done s w = record {
  tidy = record {
    sound = λ j. put-heap IsSound i j c m (λ e. s) (λ e. w.tidy.sound j);
    named = λ n j h.
        let (l, e) = w.tidy.named n j h in (l, put_same (λ x. x.name) i j c m same_name ∙ e);
    few_events = w.tidy.few_events;
  };
  registered = λ k j h.
      let ((l, d), e) = w.registered k j h in
      ((l, put_same (λ x. x.done) i j c m same_done ∙ d), put_same (λ x. x.fp) i j c m same_fp ∙ e);
  current = λ j (l, d).
      ap (λ k. lookup k m.conns) (put_same (λ x. x.fp) i j c m same_fp)
      ∙ w.current j (l, sym (put_same (λ x. x.done) i j c m same_done) ∙ d);
}

pub emit-IsWf : (e : Event) (m : Manager) → IsWf m → IsWf (emit e m)
unfolding emit
emit-IsWf e m w =
    if_elim IsWf (ltb (length m.events) events_capacity) _ _
      (λ room. record {
        tidy = record {
          sound = w.tidy.sound;
          named = w.tidy.named;
          few_events = omega (
            arith,
            ltb→lt (length m.events) events_capacity room,
            length-append m.events (e ∷ []),
          );
        };
        registered = w.registered;
        current = w.current;
      })
      (λ full. w)

pub some_injective : (i j : ℕ) → some i ≡ some j → i ≡ j
some_injective i j e = ap (λ o. elim o [ none ↦ i | some k ↦ k ]) e

pub empty-IsWfBut : (k0 : Bytes) (m : Manager) → lookup k0 m.conns ≡ none → IsWf m → IsWfBut k0 m
empty-IsWfBut k0 m free w = record {
  tidy = w.tidy;
  registered = λ k i ne h. w.registered k i h;
  current = λ i o. ((λ e. absurd (ground (arith, free, w.current i o, e))), w.current i o);
}

-- A connection that closes was the only open one of its fingerprint.
pub close-IsWfBut : (j : ℕ) (m : Manager) → IsOpen m j → IsWf m → IsWfBut (m.heap j).fp (close j m)
unfolding close put Session.close
close-IsWfBut j m (l, d) w = rw d (record {
  tidy = record {
    sound = λ i.
        put-heap IsSound j i c m (λ e. ((λ h. refl), (w.tidy.sound j).1)) (λ e. w.tidy.sound i);
    named =
        λ n i h. let (l', e) = w.tidy.named n i h in (l', put_same (λ x. x.name) j i c m refl ∙ e);
    few_events = w.tidy.few_events;
  };
  registered = λ k i ne h.
      let ((l', d'), e) = w.registered k i h in
      (
        (
          l',
          put-heap (λ x. x.done ≡ false) j i c m
              (λ e'. absurd (ne (sym e ∙ ap (λ n. (m.heap n).fp) e'))) (λ e'. d'),
        ),
        put_same (λ x. x.fp) j i c m refl ∙ e,
      );
  current = λ i (l', d').
      put-heap (λ x. x.done ≡ false → (x.fp ≢ (m.heap j).fp) × (lookup x.fp m.conns ≡ some i)) j i c
        m (λ e h. absurd (true≢false h))
        (λ ne h. (
          (λ e. ne (
              some_injective i j
                (sym (w.current i (l', h)) ∙ ap (λ k. lookup k m.conns) e ∙ w.current j (l, d)))),
          w.current i (l', h),
        ))
        d';
})
  where
    c : Conn
    c = record (m.heap j) { done = true; sess = Session.close (m.heap j).sess }

pub lookup-forgotten :
    (b : Bool) (k n : Bytes) (names : Map ℕ) (j : ℕ)
    → lookup n (if b then delete k names else names) ≡ some j
    → lookup n names ≡ some j
lookup-forgotten true k n names j h = ground (arith, h, lookup-delete k n names)
lookup-forgotten false k n names j h = h

pub bytes_ne : (x y : Bytes) → y ≢ x → bytes_eq x y ≡ false
bytes_ne x y ne = elim (Bool-cases (bytes_eq x y)) [
  | inl e ↦ absurd (ne (sym ((bytes_eq_iff x y).0 e)))
  | inr e ↦ e
]

pub lookup-delete_other :
    (k0 k : Bytes) (j : ℕ) (conns : Map ℕ)
    → lookup k (delete k0 conns) ≡ some j
    → (k ≢ k0) × (lookup k conns ≡ some j)
lookup-delete_other k0 k j conns h = elim (Bool-cases (bytes_eq k0 k)) [
  | inl e ↦ absurd (ground (arith, e, h, lookup-delete k0 k conns))
  | inr e ↦ (
    (λ d. true≢false (sym ((bytes_eq_iff k0 k).1 (sym d)) ∙ e)),
    ground (arith, e, h, lookup-delete k0 k conns),
  )
]

pub unregister-IsWf :
    (i : ℕ) (m : Manager)
    → lookup (m.heap i).fp m.conns ≡ some i
    → IsWfBut (m.heap i).fp m
    → IsWf (unregister i m)
unfolding unregister
unregister-IsWf i m cur b =
    rw (cur, ==_refl i)
      (record {
        tidy = record {
          sound = b.tidy.sound;
          named = λ n j h. b.tidy.named n j (
              lookup-forgotten (leads_to (lookup (m.heap i).name m.by_name) i) (m.heap i).name n
                m.by_name j h);
          few_events = b.tidy.few_events;
        };
        registered = λ k j h.
            let (ne, held) = lookup-delete_other (m.heap i).fp k j m.conns h in
            b.registered k j ne held;
        current = λ j o.
            let (ne, held) = b.current j o in
            lookup-delete (m.heap i).fp (m.heap j).fp m.conns
            ∙ ap (λ t. if t then none else lookup (m.heap j).fp m.conns)
                (bytes_ne (m.heap i).fp (m.heap j).fp ne)
            ∙ held;
      })

pub insert_cases :
    (v : ℕ) (k n : Bytes) (names : Map ℕ) (j : ℕ)
    → lookup n (insert k v names) ≡ some j
    → ((j ≡ v) × (k ≡ n)) ⊎ ((k ≢ n) × (lookup n names ≡ some j))
insert_cases v k n names j h = elim (Bool-cases (bytes_eq k n)) [
  | inl e ↦ inl (
    sym (some_injective v j (sym (lookup-insert k n v names ∙ rw e refl) ∙ h)),
    (bytes_eq_iff k n).0 e,
  )
  | inr e ↦ inr (
    (λ f. true≢false (sym ((bytes_eq_iff k n).1 f) ∙ e)),
    sym (lookup-insert k n v names ∙ rw e refl) ∙ h,
  )
]

pub lookup-insert_ne :
    (k n : Bytes) (j : ℕ) (names : Map ℕ) → n ≢ k → lookup n (insert k j names) ≡ lookup n names
lookup-insert_ne k n j names ne = elim (Bool-cases (bytes_eq k n)) [
  | inl e ↦ absurd (ne (sym ((bytes_eq_iff k n).0 e)))
  | inr e ↦ lookup-insert k n j names ∙ rw e refl
]

pub enter-IsWf :
    (c : Conn) (m : Manager) → c.done ≡ false → IsSound c → IsWfBut c.fp m → IsWf (enter c m)
unfolding enter put
enter-IsWf c m d s b = record {
  tidy = record {
    sound = λ j. put-heap IsSound m.count j c m (λ e. s) (λ e. b.tidy.sound j);
    named = λ n j h. elim (insert_cases m.count c.name n m.by_name j h) [
      | inl (e, f) ↦ (
        omega (arith, e),
        put-heap (λ x. x.name ≡ n) m.count j c m (λ e'. f) (λ ne. absurd (ne e)),
      )
      | inr (f, held) ↦
          let (l, e) = b.tidy.named n j held in
          (
            omega (arith, l),
            put-heap (λ x. x.name ≡ n) m.count j c m (λ e'. absurd (omega (arith, l, e')))
                (λ ne. e),
          )
    ];
    few_events = b.tidy.few_events;
  };
  registered = λ k j h. elim (insert_cases m.count c.fp k m.conns j h) [
    | inl (e, f) ↦ (
      (
        omega (arith, e),
        put-heap (λ x. x.done ≡ false) m.count j c m (λ e'. d) (λ ne. absurd (ne e)),
      ),
      put-heap (λ x. x.fp ≡ k) m.count j c m (λ e'. f) (λ ne. absurd (ne e)),
    )
    | inr (f, held) ↦
        let ((l, live), e) = b.registered k j (λ g. f (sym g)) held in
        (
          (omega (arith, l), put-heap (λ x. x.done ≡ false) m.count j c m (λ e'. d) (λ ne. live)),
          put-heap (λ x. x.fp ≡ k) m.count j c m (λ e'. absurd (omega (arith, l, e'))) (λ ne. e),
        )
  ];
  current = λ j (l, live).
      put-heap (λ x. x.done ≡ false → lookup x.fp (insert c.fp m.count m.conns) ≡ some j) m.count j
        c m (λ e h. lookup-insert_self c.fp m.count m.conns ∙ ap some (sym e))
        (λ ne h.
          let (other, held) = b.current j (omega (arith, l, ne), h) in
          lookup-insert_ne c.fp (m.heap j).fp m.count m.conns other ∙ held)
        live;
}
