-- ===== src/Manager/Consistent.antt =====
-- internal/session/manager.go: when a manager is consistent between the sections of its goroutines.
use xessenger_cli.Prelude.{
  ℕ, ◌≤◌, ◌<◌, List, [], ◌∷◌, Bool, true, false, Option, none, some, length, arith, ◌≡◌, ◌≢◌, ◌==◌,
  inl, inr, refl, sym, ap, ◌∙◌, if◌then◌else◌, if_elim, ltb, ltb→lt, subst, Bool-cases, ==_iff,
  length-append,
}
use xessenger_cli.Prelude.Assoc.{lookup}
use xessenger_cli.Crypto.{Bytes}
use xessenger_cli.Peers.{Store}
use xessenger_cli.Proto.Handshake.{Identity}
use xessenger_cli.Manager.{Event, Conn, Manager, send_capacity, events_capacity, put, emit}
use xessenger_cli.Manager.Registry.{put-heap, put_same}
use xessenger_cli.Manager.Sections.{
  Stage, unrun, done_closed, all_closed, gone, over, System, set_stage, IsFresh,
}

-- A connection that is no one's, for the numbers that are not given yet.
abbrev pub new_manager : Identity → Store → Conn → Manager
new_manager id store none_yet = record {
  id = id;
  store = store;
  heap = λ i. none_yet;
  count = 0;
  conns = [];
  by_name = [];
  events = [];
}

abbrev pub new_system : Manager → System
new_system m = record { manager = m; stages = λ i. unrun; replacing = none }

-- Whether `unregister` is still to come, whether `done` is closed, and whether the session is.
abbrev pub listed : Stage → Bool
listed unrun = true
listed done_closed = true
listed all_closed = true
listed gone = false
listed over = false

abbrev pub begun : Stage → Bool
begun unrun = false
begun done_closed = true
begun all_closed = true
begun gone = true
begun over = true

abbrev pub shut : Stage → Bool
shut unrun = false
shut done_closed = false
shut all_closed = true
shut gone = true
shut over = true

-- A connection by itself, at a stage.
pub record Fits (st : Stage) (c : Conn) : Type 0 where
  pub done_is : c.done ≡ begun st
  pub session_closed : shut st ≡ true → c.sess.closed ≡ true
  pub short : length c.queue ≤ send_capacity

-- The registry: it holds the connections that are not unregistered yet, and all of them, under their
-- fingerprints, but for what it has under `k0` where `but` says so.
pub record IsRegistry (but : Bytes → Type 0) (m : Manager) (st : ℕ → Stage) : Type 0 where
  pub registered :
      (k : Bytes) (i : ℕ)
      → (but k → ⊥)
      → lookup k m.conns ≡ some i
      → (i < m.count) × (listed (st i) ≡ true) × ((m.heap i).fp ≡ k)
  pub current :
      (i : ℕ)
      → i < m.count
      → listed (st i) ≡ true
      → (but (m.heap i).fp → ⊥) × (lookup (m.heap i).fp m.conns ≡ some i)
  pub named :
      (n : Bytes) (i : ℕ) → lookup n m.by_name ≡ some i → (i < m.count) × ((m.heap i).name ≡ n)
  pub unused : (i : ℕ) → m.count ≤ i → st i ≡ unrun

abbrev pub Nothing : Bytes → Type 0
Nothing k = ⊥

-- A `register` that waits has a fresh connection, and another is registered in its place.
abbrev pub Waits : Option Conn → Manager → Type 0
Waits none m = Unit
Waits (some c) m = IsFresh c × ((j : ℕ) × (lookup c.fp m.conns ≡ some j))

pub record IsConsistent (s : System) : Type 0 where
  pub registry : IsRegistry Nothing s.manager s.stages
  pub fits : (i : ℕ) → Fits (s.stages i) (s.manager.heap i)
  pub few_events : length s.manager.events ≤ events_capacity
  pub waits : Waits s.replacing s.manager

-- Only what one connection holds, the events and the store differ.
pub record Alike (m m' : Manager) : Type 0 where
  pub same_count : m'.count ≡ m.count
  pub same_conns : m'.conns ≡ m.conns
  pub same_names : m'.by_name ≡ m.by_name
  pub same_fp : (i : ℕ) → (m'.heap i).fp ≡ (m.heap i).fp
  pub same_name : (i : ℕ) → (m'.heap i).name ≡ (m.heap i).name

pub Alike-IsRegistry :
    {m m' : Manager} {st st' : ℕ → Stage}
    → Alike m m'
    → ((i : ℕ) → listed (st' i) ≡ listed (st i))
    → ((i : ℕ) → m.count ≤ i → st' i ≡ st i)
    → IsRegistry Nothing m st
    → IsRegistry Nothing m' st'
Alike-IsRegistry {m} {m'} {st} {st'} a same later r = record {
  registered = λ k i free h.
      let (l, li, f) = r.registered k i free (ap (lookup k) (sym a.same_conns) ∙ h) in
      (omega (arith, l, a.same_count), same i ∙ li, a.same_fp i ∙ f);
  current = λ i l li.
      let (free, h) = r.current i (omega (arith, l, a.same_count)) (sym (same i) ∙ li) in
      (
        free,
        ap (λ k. lookup k m'.conns) (a.same_fp i) ∙ ap (lookup (m.heap i).fp) a.same_conns ∙ h,
      );
  named = λ n i h.
      let (l, e) = r.named n i (ap (lookup n) (sym a.same_names) ∙ h) in
      (omega (arith, l, a.same_count), a.same_name i ∙ e);
  unused =
      λ i l. later i (omega (arith, l, a.same_count)) ∙ r.unused i (omega (arith, l, a.same_count));
}

pub Alike-Waits : {m m' : Manager} → Alike m m' → (r : Option Conn) → Waits r m → Waits r m'
Alike-Waits a none w = tt
Alike-Waits a (some c) (f, (j, e)) = (f, (j, ap (lookup c.fp) a.same_conns ∙ e))

pub put-Alike :
    (i : ℕ) (c : Conn) (m : Manager)
    → c.fp ≡ (m.heap i).fp
    → c.name ≡ (m.heap i).name
    → Alike m (put i c m)
unfolding put
put-Alike i c m f n = record {
  same_count = refl;
  same_conns = refl;
  same_names = refl;
  same_fp = λ j. put_same (λ x. x.fp) i j c m f;
  same_name = λ j. put_same (λ x. x.name) i j c m n;
}

pub emit-Alike : (e : Event) (m : Manager) → Alike m (emit e m)
unfolding emit
emit-Alike e m =
    if_elim (Alike m) (ltb (length m.events) events_capacity) _ _ (λ room. same) (λ full. same)
  where
    same : {l : List Event} → Alike m (record m { events = l })
    same = record {
      same_count = refl;
      same_conns = refl;
      same_names = refl;
      same_fp = λ j. refl;
      same_name = λ j. refl;
    }

pub put-Fits :
    (i : ℕ) (c : Conn) (m : Manager) (st : ℕ → Stage)
    → ((j : ℕ) → Fits (st j) (m.heap j))
    → Fits (st i) c
    → (j : ℕ) → Fits (st j) ((put i c m).heap j)
put-Fits i c m st all f j =
    put-heap (Fits (st j)) i j c m (λ e. subst (λ k. Fits (st k) c) (sym e) f) (λ ne. all j)

pub put-Fits_at :
    (i : ℕ) (c : Conn) (m : Manager) (st : ℕ → Stage) (x : Stage)
    → ((j : ℕ) → Fits (st j) (m.heap j))
    → Fits x c
    → (j : ℕ) → Fits (if j == i then x else st j) ((put i c m).heap j)
unfolding put
put-Fits_at i c m st x all f j = elim (Bool-cases (j == i)) [
  | inl e ↦ rw e f
  | inr e ↦ rw e (all j)
]

pub listed_at :
    (i : ℕ) (st : ℕ → Stage) (x : Stage)
    → listed x ≡ listed (st i)
    → (j : ℕ) → listed (if j == i then x else st j) ≡ listed (st j)
listed_at i st x same j = elim (Bool-cases (j == i)) [
  | inl e ↦ rw e (same ∙ ap (λ k. listed (st k)) (sym ((==_iff j i).0 e)))
  | inr e ↦ rw e refl
]

pub stage_other :
    (i j : ℕ) (st : ℕ → Stage) (x : Stage) → j ≢ i → (if j == i then x else st j) ≡ st j
stage_other i j st x ne =
    if_elim (λ y. y ≡ st j) (j == i) x (st j) (λ e. absurd (ne ((==_iff j i).0 e))) (λ e. refl)

pub emit-few :
    (e : Event) (m : Manager)
    → length m.events ≤ events_capacity
    → length (emit e m).events ≤ events_capacity
unfolding emit
emit-few e m few =
    if_elim (λ (x : Manager). length x.events ≤ events_capacity)
      (ltb (length m.events) events_capacity) _ _
      (λ room.
        omega
          (arith, ltb→lt (length m.events) events_capacity room, length-append m.events (e ∷ [])))
      (λ full. few)

pub emit-heap : (e : Event) (m : Manager) → (emit e m).heap ≡ m.heap
unfolding emit
emit-heap e m =
    if_elim (λ (x : Manager). x.heap ≡ m.heap) (ltb (length m.events) events_capacity) _ _
      (λ e. refl) (λ e. refl)

-- A change of one connection alone, with its stage.
pub changed-IsConsistent :
    (s : System) (i : ℕ) (c : Conn)
    → IsConsistent s
    → c.fp ≡ (s.manager.heap i).fp
    → c.name ≡ (s.manager.heap i).name
    → Fits (s.stages i) c
    → IsConsistent (record s { manager = put i c s.manager })
unfolding put
changed-IsConsistent s i c h f n fit =
    let a = put-Alike i c s.manager f n in
    record {
      registry = Alike-IsRegistry a (λ j. refl) (λ j l. refl) h.registry;
      fits = put-Fits i c s.manager s.stages h.fits fit;
      few_events = h.few_events;
      waits = Alike-Waits a s.replacing h.waits;
    }

pub staged-IsConsistent :
    (s : System) (i : ℕ) (c : Conn) (x : Stage)
    → IsConsistent s
    → i < s.manager.count
    → c.fp ≡ (s.manager.heap i).fp
    → c.name ≡ (s.manager.heap i).name
    → listed x ≡ listed (s.stages i)
    → Fits x c
    → IsConsistent (set_stage i x (record s { manager = put i c s.manager }))
unfolding put
staged-IsConsistent s i c x h l f n same fit =
    let a = put-Alike i c s.manager f n in
    record {
      registry =
          Alike-IsRegistry a (listed_at i s.stages x same)
            (λ j later. stage_other i j s.stages x (λ e. absurd (omega (arith, l, later, e))))
            h.registry;
      fits = put-Fits_at i c s.manager s.stages x h.fits fit;
      few_events = h.few_events;
      waits = Alike-Waits a s.replacing h.waits;
    }
