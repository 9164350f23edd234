-- ===== src/Manager/Reachable.antt =====
-- internal/session/manager.go: what holds of a manager after any interleaving of the sections of its
-- goroutines.
use xessenger_cli.Prelude.{
  ℕ, ◌≤◌, true, false, Option, none, some, length, arith, ◌≡◌, ◌==◌, inl, inr, refl, sym, ap, ◌∙◌,
  if◌then◌else◌, if_elim, subst, Bool-cases, Option-cases, ==_iff,
}
use mathlib.Core.Bool.{true≢false}
use xessenger_cli.Prelude.Assoc.{lookup}
use xessenger_cli.Crypto.{Primitives}
use xessenger_cli.Peers.{Store}
use xessenger_cli.Proto.Session
use xessenger_cli.Proto.Handshake.{Identity}
use xessenger_cli.Manager.{
  Conn, Manager, events_capacity, put, close, enter, unregister, leads_to, about_conn,
  event_peer_disconnected, refuses,
}
use xessenger_cli.Manager.Sections.{
  tells, Stage, unrun, done_closed, all_closed, gone, over, System, set_stage, on_manager,
  close_done, close_session, tell_gone, IsFresh, register_begins, Step, within, drop_begins,
  drop_closes, drop_unregisters, drop_ends, registers, replaces, Run, here, next,
}
use xessenger_cli.Manager.Consistent.{
  new_manager, new_system, listed, begun, shut, Fits, IsRegistry, Waits, IsConsistent,
  Alike-IsRegistry, put-Fits, put-Fits_at, listed_at, stage_other, staged-IsConsistent,
}
use xessenger_cli.Manager.Local.{Local-IsConsistent}
use xessenger_cli.Manager.Listed.{
  unregister-IsRegistry, enter-IsRegistry, free-IsRegistry, ended-IsRegistry, same_Alike,
}

unregister_rest :
    (i : ℕ) (m : Manager) → ((unregister i m).heap ≡ m.heap) × ((unregister i m).events ≡ m.events)
unfolding unregister
unregister_rest i m =
    if_elim (λ (x : Manager). (x.heap ≡ m.heap) × (x.events ≡ m.events))
      (leads_to (lookup (m.heap i).fp m.conns) i) _ _ (λ e. (refl, refl)) (λ e. (refl, refl))

Session-closed : (x : Session.Session) → (Session.close x).closed ≡ true
unfolding Session.close
Session-closed x = refl

stay-Fits :
    (i : ℕ) (m : Manager) (st : ℕ → Stage) (x y : Stage)
    → st i ≡ y
    → begun x ≡ begun y
    → shut x ≡ shut y
    → ((j : ℕ) → Fits (st j) (m.heap j))
    → (j : ℕ) → Fits (if j == i then x else st j) (m.heap j)
stay-Fits i m st x y at b c all j = elim (Bool-cases (j == i)) [
  | inr e ↦ rw e (all j)
  | inl e ↦
      let f = all j in
      let stage = ap st ((==_iff j i).0 e) ∙ at in
      rw e (record {
        done_is = f.done_is ∙ ap begun stage ∙ sym b;
        session_closed = λ d. f.session_closed (ap shut stage ∙ sym c ∙ d);
        short = f.short;
      })
]

enter-IsConsistent :
    (c : Conn) (m : Manager) (st : ℕ → Stage) (r : Option Conn)
    → IsFresh c
    → IsRegistry (λ k. k ≡ c.fp) m st
    → ((j : ℕ) → Fits (st j) (m.heap j))
    → length m.events ≤ events_capacity
    → r ≡ none
    → IsConsistent (record { manager = enter c m; stages = st; replacing = r })
unfolding enter put
enter-IsConsistent c m st r fresh reg all few free = record {
  registry = enter-IsRegistry c m st reg;
  fits = put-Fits m.count c m st all (
      subst (λ x. Fits x c) (sym (reg.unused m.count (omega arith)))
        (record {
          done_is = fresh.open_;
          session_closed = λ e. absurd (true≢false (sym e));
          short = omega (arith, ap length fresh.empty);
        }));
  few_events = few;
  waits = subst (λ x. Waits x (enter c m)) (sym free) tt;
}

register_begins-IsConsistent :
    (c : Conn) (s : System)
    → IsFresh c
    → s.replacing ≡ none
    → IsConsistent s
    → IsConsistent (register_begins c s)
unfolding register_begins
register_begins-IsConsistent c s fresh free h = elim (Option-cases (lookup c.fp s.manager.conns)) [
  | inl e ↦
      rw (register_begins, e)
        (enter-IsConsistent c s.manager s.stages s.replacing fresh
          (free-IsRegistry c.fp s.manager s.stages e h.registry) h.fits h.few_events free)
  | inr (j, e) ↦
      rw (register_begins, e)
        (if_elim IsConsistent (refuses (s.manager.heap j) c) _ _ (λ r. h)
          (λ r. record {
            registry = h.registry;
            fits = h.fits;
            few_events = h.few_events;
            waits = (fresh, (j, e));
          }))
]

replaces-IsConsistent :
    (c : Conn) (j : ℕ) (s : System)
    → s.replacing ≡ some c
    → lookup c.fp s.manager.conns ≡ some j
    → s.stages j ≡ unrun
    → IsConsistent s
    → IsConsistent
        (record (set_stage j over (on_manager (λ m. enter c (close j m)) s)) { replacing = none })
unfolding close put
replaces-IsConsistent c j s held there stage h =
    let open_ : (s.manager.heap j).done ≡ false = (h.fits j).done_is ∙ ap begun stage in
    let w = subst (λ r. Waits r s.manager) held h.waits in
    enter-IsConsistent c (close j s.manager) (λ i. if i == j then over else s.stages i) none w.0
      (ended-IsRegistry c.fp j s.manager s.stages there h.registry)
      (rw open_ (
        put-Fits_at j
          (record (s.manager.heap j) { done = true; sess = Session.close (s.manager.heap j).sess })
          s.manager s.stages over h.fits
          (record {
            done_is = refl;
            session_closed = λ e. Session-closed (s.manager.heap j).sess;
            short = (h.fits j).short;
          })))
      (rw open_ h.few_events) refl

module _ (p : Primitives) where
  Step-IsConsistent : {s t : System} → Step p s t → IsConsistent s → IsConsistent t
  unfolding close_done close_session tell_gone
  Step-IsConsistent (within {s} l) h = Local-IsConsistent p s l h
  Step-IsConsistent (drop_begins {s} i l e) h =
      staged-IsConsistent s i _ done_closed h l refl refl (ap listed (sym e)) (record {
        done_is = refl;
        session_closed = λ d. absurd (true≢false (sym d));
        short = (h.fits i).short;
      })
  Step-IsConsistent (drop_closes {s} i l e) h =
      staged-IsConsistent s i _ all_closed h l refl refl (ap listed (sym e)) (record {
        done_is = (h.fits i).done_is ∙ ap begun e;
        session_closed = λ d. Session-closed (s.manager.heap i).sess;
        short = (h.fits i).short;
      })
  Step-IsConsistent (drop_unregisters {s} i l e free) h =
      let (heap, events) = unregister_rest i s.manager in
      record {
        registry = unregister-IsRegistry i s.manager s.stages l (ap listed e) h.registry;
        fits = λ j.
            subst (λ g. Fits (if j == i then gone else s.stages j) (g j)) (sym heap)
              (stay-Fits i s.manager s.stages gone all_closed e refl refl h.fits j);
        few_events = omega (arith, h.few_events, ap length events);
        waits = subst (λ r. Waits r (unregister i s.manager)) (sym free) tt;
      }
  Step-IsConsistent (drop_ends {s} i l e) h =
      if_elim (λ m. IsConsistent (set_stage i over (record s { manager = m })))
        (s.manager.heap i).announced _ _
        (λ d.
          Local-IsConsistent p (set_stage i over s)
            (tells (about_conn event_peer_disconnected (s.manager.heap i))) ended)
        (λ d. ended)
    where
      ended : IsConsistent (set_stage i over s)
      ended = record {
        registry =
            Alike-IsRegistry (same_Alike s.manager) (listed_at i s.stages over (ap listed (sym e)))
              (λ j later. stage_other i j s.stages over (λ d. absurd (omega (arith, l, later, d))))
              h.registry;
        fits = stay-Fits i s.manager s.stages over gone e refl refl h.fits;
        few_events = h.few_events;
        waits = h.waits;
      }
  Step-IsConsistent (registers {s} c fresh free) h = register_begins-IsConsistent c s fresh free h
  Step-IsConsistent (replaces {s} c j held there stage) h = elim stage [
    | inl e ↦ replaces-IsConsistent c j s held there e h
    | inr e ↦
        absurd (true≢false (sym ((h.registry.registered c.fp j (λ x. x) there).1) ∙ ap listed e))
  ]

  Run-IsConsistent_from : {s t : System} → IsConsistent s → Run p s t → IsConsistent t
  Run-IsConsistent_from h here = h
  Run-IsConsistent_from h (next r st) = Step-IsConsistent st (Run-IsConsistent_from h r)

new_system-IsConsistent :
    (id : Identity) (store : Store) (c : Conn)
    → IsFresh c
    → IsConsistent (new_system (new_manager id store c))
unfolding lookup
new_system-IsConsistent id store c fresh = record {
  registry = record {
    registered = λ k i free h. absurd (ground (arith, h));
    current = λ i l li. absurd (omega (arith, l));
    named = λ n i h. absurd (ground (arith, h));
    unused = λ i l. refl;
  };
  fits = λ i. record {
    done_is = fresh.open_;
    session_closed = λ e. absurd (true≢false (sym e));
    short = omega (arith, ap length fresh.empty);
  };
  few_events = omega arith;
  waits = tt;
}

-- After any interleaving of the sections of the manager's goroutines on a new manager, a `register` that waits for `old.close()` included: the registry holds exactly the connections that have not been unregistered by `dropConn` or replaced, each under its fingerprint, so that one whose `done` is closed may still be there; names lead to connections of that name; `done` is closed if and only if `once` has begun, and the session is closed from its second section on; and queues and events are within their limits.
pub Run-IsConsistent :
    (p : Primitives) (id : Identity) (store : Store) (c : Conn) (s : System)
    → IsFresh c
    → Run p (new_system (new_manager id store c)) s
    → IsConsistent s
Run-IsConsistent p id store c s fresh r =
    Run-IsConsistent_from p (new_system-IsConsistent id store c fresh) r
