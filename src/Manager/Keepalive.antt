-- ===== src/Manager/Keepalive.antt =====
-- internal/session/manager.go: the keepalive loop of a connection that does not answer.
use xessenger_cli.Prelude.{
  ℕ, suc, ◌+◌, ◌≤◌, ◌<◌, [], ◌∷◌, ◌++◌, true, Option, some, Result, ok, err, if_elim, ltb, length,
  arith, ◌≡◌, ◌≢◌, ◌⊎◌, inl, inr, refl, sym, ap, ◌∙◌, Bool-cases, ltb→lt, ltb_false→le,
}
use mathlib.Core.Bool.{true≢false}
use xessenger_cli.Prelude.Assoc.{lookup}
use xessenger_cli.Crypto.{Bytes, Primitives}
use xessenger_cli.Proto.Frame.{Error as ProtoError, type_ping}
use xessenger_cli.Proto.Session.{Session, seal}
use xessenger_cli.Manager.Registry.{IsWf}
use xessenger_cli.Manager.Steps.{keepalive_tick-IsWf, count_keepalive_tick}
use xessenger_cli.Manager.Effects.{put_self, drop_conn-done}
use xessenger_cli.Manager.Quiet.{Between, Between-Keeps, Between-IsWf}
use xessenger_cli.Manager.{
  keepalive_misses, send_capacity, Conn, Manager, Error, put, drop_conn, offer, offer_sealed,
  enqueue, keepalive_tick,
}

offer-unanswered :
    (i : ℕ) (buf : Bytes) (m : Manager)
    → ((offer i buf m).0.heap i).unanswered ≡ (m.heap i).unanswered
unfolding offer
offer-unanswered i buf m =
    if_elim P (m.heap i).done _ _ (λ e. refl)
      (λ e.
        if_elim P (ltb (length (m.heap i).queue) send_capacity) _ _
          (λ e.
            ap (λ (c : Conn). c.unanswered)
              (put_self i (record (m.heap i) { queue = (m.heap i).queue ++ (buf ∷ []) }) m))
          (λ e. refl))
  where
    P : Manager × Result Error (Unit {0}) → Type 0
    P x = (x.0.heap i).unanswered ≡ (m.heap i).unanswered

-- The connection is gone, or has that many unanswered pings.
abbrev pub Silent : ℕ → ℕ → Manager → Type 0
Silent n i m = ((m.heap i).done ≡ true) ⊎ (n ≤ (m.heap i).unanswered)

module _ (p : Primitives) where
  offer_sealed-unanswered :
      (i : ℕ) (r : Session × Result ProtoError Bytes) (m : Manager)
      → ((offer_sealed p i r m).0.heap i).unanswered ≡ (m.heap i).unanswered
  unfolding offer_sealed
  offer_sealed-unanswered i (s, ok buf) m =
      offer-unanswered i buf (put i (record (m.heap i) { sess = s }) m)
      ∙ ap (λ (c : Conn). c.unanswered) (put_self i (record (m.heap i) { sess = s }) m)
  offer_sealed-unanswered i (s, err e) m =
      ap (λ (c : Conn). c.unanswered) (put_self i (record (m.heap i) { sess = s }) m)

  Silent-suc : (n i : ℕ) (m : Manager) → Silent (n + 1) i m → Silent (suc n) i m
  Silent-suc n i m (inl d) = inl d
  Silent-suc n i m (inr l) = inr (omega (arith, l))

  at_limit :
      (n i : ℕ) (m : Manager) → n ≡ keepalive_misses → Silent n i m → Silent keepalive_misses i m
  at_limit n i m e (inl d) = inl d
  at_limit n i m e (inr l) = inr (omega (arith, e, l))

  Between-done :
      {i : ℕ} {m a : Manager} → Between p i m a → (m.heap i).done ≡ true → (a.heap i).done ≡ true
  Between-done b d = (Between-Keeps p b).stays d

  Between-Silent : {i : ℕ} {m a : Manager} → Between p i m a → (n : ℕ) → Silent n i m → Silent n i a
  Between-Silent b n (inl d) = inl ((Between-Keeps p b).stays d)
  Between-Silent b n (inr l) = inr (omega (arith, l, (Between-Keeps p b).counts))

  tick-Silent :
      (drawn : Option Bytes) (i n : ℕ) (m : Manager)
      → Silent n i m
      → Silent (n + 1) i (keepalive_tick p drawn i m)
  unfolding keepalive_tick enqueue
  tick-Silent drawn i n m h =
      if_elim (Silent (n + 1) i) (m.heap i).done _ _ (λ e. inl e)
        (λ open_.
          if_elim (Silent (n + 1) i) (ltb keepalive_misses ((m.heap i).unanswered + 1)) _ _
            (λ e. inl (drop_conn-done i m'))
            (λ e. go (seal p drawn type_ping [] (m'.heap i).sess) (elim h [
              | inl gone ↦ absurd (true≢false (sym gone ∙ open_))
              | inr l ↦ omega (arith, l)
            ])))
    where
      m' : Manager
      m' = put i (record (m.heap i) { unanswered = (m.heap i).unanswered + 1 }) m

      after : (r : Session × Result ProtoError Bytes) → Result Error (Unit {0}) → Manager
      after r x = elim x [
        | ok u ↦ (offer_sealed p i r m').0
        | err e ↦ drop_conn i (offer_sealed p i r m').0
      ]

      go :
          (r : Session × Result ProtoError Bytes)
          → n + 1 ≤ (m.heap i).unanswered + 1
          → Silent (n + 1) i (after r (offer_sealed p i r m').1)
      go r l = elim (offer_sealed p i r m').1 as (λ x. Silent (n + 1) i (after r x)) [
        | ok u ↦ inr (
            omega (
              arith,
              l,
              offer_sealed-unanswered i r m',
              ap (λ (c : Conn). c.unanswered)
                  (put_self i (record (m.heap i) { unanswered = (m.heap i).unanswered + 1 }) m),
            ))
        | err e ↦ inl (drop_conn-done i (offer_sealed p i r m').0)
      ]

  tick_limit :
      (drawn : Option Bytes) (i : ℕ) (m : Manager)
      → Silent keepalive_misses i m
      → ((keepalive_tick p drawn i m).heap i).done ≡ true
  unfolding keepalive_tick
  tick_limit drawn i m h =
      if_elim P (m.heap i).done _ _ (λ e. e)
        (λ open_.
          if_elim P (ltb keepalive_misses ((m.heap i).unanswered + 1)) _ _
            (λ e.
              drop_conn-done i
                (put i (record (m.heap i) { unanswered = (m.heap i).unanswered + 1 }) m))
            (λ e. elim h [
              | inl gone ↦ absurd (true≢false (sym gone ∙ open_))
              | inr l ↦
                  absurd
                    (omega (arith, l, ltb_false→le keepalive_misses ((m.heap i).unanswered + 1) e))
            ]))
    where
      P : Manager → Type 0
      P x = (x.heap i).done ≡ true

  -- A tick of the connection's timer, and what runs until the next one: `n` ticks in all.
  pub data Ticks (i : ℕ) (m : Manager) : ℕ → Manager → Type 0 where
    before : {a : Manager} → Between p i m a → Ticks i m 0 a
    tick :
        {n : ℕ} {a b : Manager}
        → (drawn : Option Bytes) → Ticks i m n a
        → Between p i (keepalive_tick p drawn i a) b
        → Ticks i m (suc n) b

  Ticks-Silent :
      {i : ℕ} {m : Manager} {n : ℕ} {a : Manager}
      → Ticks i m n a
      → (n ≤ keepalive_misses → Silent n i a) × (keepalive_misses < n → (a.heap i).done ≡ true)
  Ticks-Silent (before b) =
      (λ few. Between-Silent b 0 (inr (omega arith)), λ enough. absurd (omega (arith, enough)))
  Ticks-Silent {i = i} (tick {n} {a} drawn t b) =
      let (few, many) = Ticks-Silent t in
      (
        λ l. Between-Silent b (suc n) (
            Silent-suc n i (keepalive_tick p drawn i a)
              (tick-Silent drawn i n a (few (omega (arith, l))))),
        λ l. Between-done b (
            tick_limit drawn i a (elim (Bool-cases (ltb keepalive_misses n)) [
              | inl more ↦ inl (many (ltb→lt keepalive_misses n more))
              | inr last ↦
                  at_limit n i a (omega (arith, l, ltb_false→le keepalive_misses n last))
                    (few (ltb_false→le keepalive_misses n last))
            ])),
      )

  Ticks-IsWf :
      {i : ℕ} {m : Manager} {n : ℕ} {a : Manager}
      → Ticks i m n a
      → i < m.count
      → IsWf m
      → (i < a.count) × IsWf a
  Ticks-IsWf (before b) l w = Between-IsWf p b l w
  Ticks-IsWf {i = i} (tick {n} {a} drawn t b) l w =
      let (l', w') = Ticks-IsWf t l w in
      Between-IsWf p b (omega (arith, l', count_keepalive_tick p drawn i a))
        (keepalive_tick-IsWf p drawn i a l' w')

  -- In a consistent registry, when more ticks than `keepaliveMisses` of a connection's timer have run, with any rounds of the write loops, sends, broadcasts, announcements and disconnections of any connections before, between and after them but no frame received, the connection is dropped, whatever the CSPRNG and the queues do: it is closed, and no fingerprint leads to it.
  pub ticks_drop :
      (n i : ℕ) (m a : Manager)
      → i < m.count
      → IsWf m
      → keepalive_misses < n
      → Ticks i m n a
      → ((a.heap i).done ≡ true) × ((k : Bytes) → lookup k a.conns ≢ some i)
  ticks_drop n i m a l w enough t =
      let gone = (Ticks-Silent t).1 enough in
      (gone, λ k h. true≢false (sym gone ∙ ((Ticks-IsWf t l w).1.registered k i h).0.1))
