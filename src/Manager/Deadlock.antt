-- ===== src/Manager/Deadlock.antt =====
-- internal/session/manager.go: `register` calling `old.close()` with the mutex held, while `dropConn` of
-- that connection is between `close(c.done)` and `unregister`, which takes the mutex.
use xessenger_cli.Prelude.{
  ℕ, ◌<◌, true, false, none, some, ltb, length, ◌≡◌, ◌==◌, inl, inr, refl, sym, ap, ◌∙◌,
  if◌then◌else◌, if_elim, subst, Bool-cases, ==_iff, ==_refl,
}
use mathlib.Core.Bool.{true≢false}
use xessenger_cli.Prelude.Assoc.{lookup}
use xessenger_cli.Crypto.{Primitives}
use xessenger_cli.Manager.{
  Event, Conn, Manager, events_capacity, put, emit, refuses, about_conn, event_peer_disconnected,
}
use xessenger_cli.Manager.Registry.{some_injective}
use xessenger_cli.Manager.Effects.{put_self}
use xessenger_cli.Manager.Sections.{
  Stage, unrun, done_closed, all_closed, gone, over, System, set_stage, on_manager, close_done,
  close_session, tell_gone, register_begins, IsFresh, Local, seals, opens, queues, takes, writes,
  counts, announces, tells, hears, records, Step, within, drop_begins, drop_closes,
  drop_unregisters, drop_ends, registers, replaces, Run, here, next,
}
use xessenger_cli.Manager.Consistent.{begun, listed}

-- A `register` waits for `once` of a connection that is being dropped and is still registered.
pub record IsStuck (c : Conn) (j : ℕ) (s : System) : Type 0 where
  pub waiting : s.replacing ≡ some c
  pub there : lookup c.fp s.manager.conns ≡ some j
  pub midway : (begun (s.stages j) ≡ true) × (listed (s.stages j) ≡ true)

emit-conns : (e : Event) (m : Manager) → (emit e m).conns ≡ m.conns
unfolding emit
emit-conns e m =
    if_elim (λ (x : Manager). x.conns ≡ m.conns) (ltb (length m.events) events_capacity) _ _
      (λ e. refl) (λ e. refl)

conn_injective : (c d : Conn) → some c ≡ some d → c ≡ d
conn_injective c d e = ap (λ o. elim o [ none ↦ c | some x ↦ x ]) e

module _ (p : Primitives) where
  Local-conns : {m m' : Manager} → Local p m m' → m'.conns ≡ m.conns
  unfolding put
  Local-conns (seals i drawn typ payload) = refl
  Local-conns (opens i buf) = refl
  Local-conns (queues i buf room) = refl
  Local-conns (takes i buf rest e) = refl
  Local-conns (writes i buf) = refl
  Local-conns (counts i n) = refl
  Local-conns (announces i) = refl
  Local-conns (tells {m} e) = emit-conns e m
  Local-conns (hears e rest q) = refl
  Local-conns (records st) = refl

  -- A step that leaves the registry and the stage of the connection.
  keeps :
      (c : Conn) (j : ℕ) (s t : System)
      → t.replacing ≡ s.replacing
      → t.manager.conns ≡ s.manager.conns
      → (begun (t.stages j) ≡ true) × (listed (t.stages j) ≡ true)
      → IsStuck c j s
      → IsStuck c j t
  keeps c j s t r e mid h = record {
    waiting = r ∙ h.waiting;
    there = ap (lookup c.fp) e ∙ h.there;
    midway = mid;
  }

  midway_other :
      (c : Conn) (i j : ℕ) (s : System) (x y : Stage)
      → s.stages i ≡ y
      → ((begun y ≡ true) × (listed y ≡ true) → (begun x ≡ true) × (listed x ≡ true))
      → IsStuck c j s
      → (begun (if j == i then x else s.stages j) ≡ true)
        × (listed (if j == i then x else s.stages j) ≡ true)
  midway_other c i j s x y at move h = elim (Bool-cases (j == i)) [
    | inr e ↦ rw e h.midway
    | inl e ↦
        let stage = ap s.stages ((==_iff j i).0 e) ∙ at in
        rw e (move (sym (ap begun stage) ∙ h.midway.0, sym (ap listed stage) ∙ h.midway.1))
  ]

  not_waiting : {c : Conn} → none ≡ some c → ⊥
  not_waiting e = true≢false (ap (λ o. elim o [ none ↦ true | some x ↦ false ]) e)

  Step-IsStuck : {s t : System} (c : Conn) (j : ℕ) → Step p s t → IsStuck c j s → IsStuck c j t
  unfolding close_done close_session tell_gone put
  Step-IsStuck c j (within {s} {m} l) h =
      keeps c j s (record s { manager = m }) refl (Local-conns l) h.midway h
  Step-IsStuck c j (drop_begins {s} i l e) h =
      keeps c j s _ refl refl
        (midway_other c i j s done_closed unrun e (λ w. absurd (true≢false (sym w.0))) h) h
  Step-IsStuck c j (drop_closes {s} i l e) h =
      keeps c j s _ refl refl (midway_other c i j s all_closed done_closed e (λ w. (refl, refl)) h)
        h
  Step-IsStuck c j (drop_unregisters {s} i l e free) h = absurd (not_waiting (sym free ∙ h.waiting))
  Step-IsStuck c j (drop_ends {s} i l e) h =
      keeps c j s _ refl
        (if_elim (λ (m : Manager). m.conns ≡ s.manager.conns) (s.manager.heap i).announced _ _
          (λ d. emit-conns (about_conn event_peer_disconnected (s.manager.heap i)) s.manager)
          (λ d. refl))
        (midway_other c i j s over gone e (λ w. absurd (true≢false (sym w.1))) h) h
  Step-IsStuck c j (registers {s} c' fresh free) h = absurd (not_waiting (sym free ∙ h.waiting))
  Step-IsStuck c j (replaces {s} c' j' held there stage) h =
      let same = conn_injective c' c (sym held ∙ h.waiting) in
      let place =
        some_injective j' j (sym there ∙ ap (λ d. lookup d.fp s.manager.conns) same ∙ h.there) in
      elim stage [
        | inl e ↦
            absurd
              (true≢false (sym h.midway.0 ∙ ap (λ n. begun (s.stages n)) (sym place) ∙ ap begun e))
        | inr e ↦
            absurd (
              true≢false (sym h.midway.1 ∙ ap (λ n. listed (s.stages n)) (sym place) ∙ ap listed e))
      ]

  Run-IsStuck : {s t : System} (c : Conn) (j : ℕ) → Run p s t → IsStuck c j s → IsStuck c j t
  Run-IsStuck c j here h = h
  Run-IsStuck c j (next r st) h = Step-IsStuck c j st (Run-IsStuck c j r h)

  refuses_same :
      (c : Conn) (j : ℕ) (m : Manager) → refuses ((close_done j m).heap j) c ≡ refuses (m.heap j) c
  unfolding close_done
  refuses_same c j m = ap (λ x. refuses x c) (put_self j (record (m.heap j) { done = true }) m)

  register_begins_waits :
      (c : Conn) (j : ℕ) (s : System)
      → lookup c.fp s.manager.conns ≡ some j
      → refuses (s.manager.heap j) c ≡ false
      → register_begins c s ≡ record s { replacing = some c }
  unfolding register_begins
  register_begins_waits c j s e r = rw (register_begins, e, r) refl

  -- When a new connection is to replace a registered one that nobody has begun to drop, there is an interleaving of the two that ends in deadlock: the drop closes `done`, then `register` takes the mutex and waits for `once`, and whatever sections run afterwards, `register` never ends, so the mutex is never released.
  pub register_drop_deadlock :
      (c : Conn) (j : ℕ) (s : System)
      → IsFresh c
      → s.replacing ≡ none
      → lookup c.fp s.manager.conns ≡ some j
      → j < s.manager.count
      → s.stages j ≡ unrun
      → refuses (s.manager.heap j) c ≡ false
      → (t : System) × Run p s t
        × (t.replacing ≡ some c)
        × (¬ ((u : System) × Run p t u × (u.replacing ≡ none)))
  unfolding close_done put
  register_drop_deadlock c j s fresh free there l stage taken = (
    register_begins c t,
    next (next here (drop_begins j l stage)) (registers c fresh free),
    ap (λ (x : System). x.replacing) waits,
    λ (u, r, ended). not_waiting (sym ended ∙ (Run-IsStuck c j r stuck).waiting),
  )
    where
      t : System
      t = set_stage j done_closed (on_manager (close_done j) s)

      waits : register_begins c t ≡ record t { replacing = some c }
      waits = register_begins_waits c j t there (refuses_same c j s.manager ∙ taken)

      stuck : IsStuck c j (register_begins c t)
      stuck =
          subst (IsStuck c j) (sym waits)
            (record { waiting = refl; there = there; midway = rw (==_refl j) (refl, refl) })
