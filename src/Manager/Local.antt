-- ===== src/Manager/Local.antt =====
-- internal/session/manager.go: the sections that leave the registry alone.
use xessenger_cli.Prelude.{
  [], ◌∷◌, Option, none, some, length, arith, ◌≡◌, refl, sym, ap, ◌∙◌, subst, length-append,
}
use xessenger_cli.Crypto.{Primitives}
use xessenger_cli.Proto.Session.{Session}
use xessenger_cli.Proto.Session.Closed.{seal-closed, open'-closed}
use xessenger_cli.Manager.{Conn, Manager}
use xessenger_cli.Manager.Sections.{
  System, Local, seals, opens, queues, takes, writes, counts, announces, tells, hears, records,
}
use xessenger_cli.Manager.Consistent.{
  emit-Alike, emit-few, emit-heap, changed-IsConsistent, Alike, Alike-IsRegistry, Alike-Waits,
  Waits, Fits, IsConsistent,
}

module _ (p : Primitives) where
  pub Local-IsConsistent :
      (s : System) {m : Manager}
      → Local p s.manager m
      → IsConsistent s
      → IsConsistent (record s { manager = m })
  Local-IsConsistent s (seals i drawn typ payload) h =
      let f = h.fits i in
      changed-IsConsistent s i _ h refl refl (record {
        done_is = f.done_is;
        session_closed = λ e.
            let c = f.session_closed e in
            ap (λ (t : Session). t.closed)
              (seal-closed p (s.manager.heap i).sess drawn typ payload c)
            ∙ c;
        short = f.short;
      })
  Local-IsConsistent s (opens i buf) h =
      let f = h.fits i in
      changed-IsConsistent s i _ h refl refl (record {
        done_is = f.done_is;
        session_closed = λ e.
            let c = f.session_closed e in
            ap (λ (t : Session). t.closed) (open'-closed p (s.manager.heap i).sess buf c) ∙ c;
        short = f.short;
      })
  Local-IsConsistent s (queues i buf room) h =
      let f = h.fits i in
      changed-IsConsistent s i _ h refl refl (record {
        done_is = f.done_is;
        session_closed = f.session_closed;
        short = omega (arith, room, length-append (s.manager.heap i).queue (buf ∷ []));
      })
  Local-IsConsistent s (takes i buf rest e) h =
      let f = h.fits i in
      changed-IsConsistent s i _ h refl refl (record {
        done_is = f.done_is;
        session_closed = f.session_closed;
        short = omega (arith, ap length e, f.short);
      })
  Local-IsConsistent s (writes i buf) h =
      let f = h.fits i in
      changed-IsConsistent s i _ h refl refl
        (record { done_is = f.done_is; session_closed = f.session_closed; short = f.short })
  Local-IsConsistent s (counts i n) h =
      let f = h.fits i in
      changed-IsConsistent s i _ h refl refl
        (record { done_is = f.done_is; session_closed = f.session_closed; short = f.short })
  Local-IsConsistent s (announces i) h =
      let f = h.fits i in
      changed-IsConsistent s i _ h refl refl
        (record { done_is = f.done_is; session_closed = f.session_closed; short = f.short })
  Local-IsConsistent s (tells e) h =
      let a = emit-Alike e s.manager in
      record {
        registry = Alike-IsRegistry a (λ j. refl) (λ j l. refl) h.registry;
        fits = λ j. subst (λ g. Fits (s.stages j) (g j)) (sym (emit-heap e s.manager)) (h.fits j);
        few_events = emit-few e s.manager h.few_events;
        waits = Alike-Waits a s.replacing h.waits;
      }
  Local-IsConsistent s (hears e rest q) h = record {
    registry =
        Alike-IsRegistry (same (record s.manager { events = rest }) refl refl refl refl) (λ j. refl)
          (λ j l. refl) h.registry;
    fits = h.fits;
    few_events = omega (arith, ap length q, h.few_events);
    waits =
        Alike-Waits (same (record s.manager { events = rest }) refl refl refl refl) s.replacing
          h.waits;
  }
    where
      same :
          (m' : Manager)
          → m'.count ≡ s.manager.count
          → m'.conns ≡ s.manager.conns
          → m'.by_name ≡ s.manager.by_name
          → m'.heap ≡ s.manager.heap
          → Alike s.manager m'
      same m' a b c d = record {
        same_count = a;
        same_conns = b;
        same_names = c;
        same_fp = λ j. ap (λ g. (g j).fp) d;
        same_name = λ j. ap (λ g. (g j).name) d;
      }
  Local-IsConsistent s (records st) h = record {
    registry = record {
      registered = h.registry.registered;
      current = h.registry.current;
      named = h.registry.named;
      unused = h.registry.unused;
    };
    fits = h.fits;
    few_events = h.few_events;
    waits = waits_same s.replacing h.waits;
  }
    where
      waits_same : (r : Option Conn) → Waits r s.manager → Waits r (record s.manager { store = st })
      waits_same none w = tt
      waits_same (some c) w = w
