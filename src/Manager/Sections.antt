-- ===== src/Manager/Sections.antt =====
-- internal/session/manager.go: the sections of `register`, `dropConn`, `announce` and of the
-- loops, as the goroutines run them in between each other. `m.mu` is held within one step, except
-- by a `register` that replaces a connection: `replacing` is the new connection while that call
-- waits, with the mutex, for `old.close()`; once that runs, it and the two assignments after it
-- are one step. `stages` says how far `once` of each connection has got. Of `announce` and the two
-- events, the sections come at any time and for any connection, more often than the code runs
-- them.
use xessenger_cli.Prelude.{
  ℕ, ◌<◌, List, [], ◌∷◌, ◌++◌, true, false, Option, none, some, length, ◌==◌, ◌≡◌, ◌⊎◌,
  if◌then◌else◌,
}
use xessenger_cli.Prelude.Assoc.{lookup}
use xessenger_cli.Crypto.{Bytes, Primitives}
use xessenger_cli.Peers.{Store}
use xessenger_cli.Proto.Session.{seal, open'}
use xessenger_cli.Proto.Session
use xessenger_cli.Manager.{
  Event, event_peer_disconnected, about_conn, Conn, Manager, send_capacity, put, emit, close, enter,
  refuses, unregister,
}

-- `once` of a connection: not run; its function has closed `done`; it has closed the session and the
-- connection below; it has unregistered; or it is over.
pub data Stage : Type 0 where
  unrun done_closed all_closed gone over : Stage

pub record System : Type 0 where
  pub manager : Manager
  pub stages : ℕ → Stage
  pub replacing : Option Conn

abbrev pub set_stage : ℕ → Stage → System → System
set_stage i st s = record s { stages = λ j. if j == i then st else s.stages j }

-- A section that needs nothing but the manager.
abbrev pub on_manager : (Manager → Manager) → System → System
on_manager f s = record s { manager = f s.manager }

-- The sections of `dropConn`'s function: `close(c.done)`; the closing of the session; `unregister`; and
-- the event.
unfoldable pub close_done : ℕ → Manager → Manager
close_done i m = put i (record (m.heap i) { done = true }) m

unfoldable pub close_session : ℕ → Manager → Manager
close_session i m = put i (record (m.heap i) { sess = Session.close (m.heap i).sess }) m

unfoldable pub tell_gone : ℕ → Manager → Manager
tell_gone i m =
    if (m.heap i).announced then emit (about_conn event_peer_disconnected (m.heap i)) m else m

-- A connection as a handshake makes it.
pub record IsFresh (c : Conn) : Type 0 where
  pub open_ : c.done ≡ false
  pub empty : c.queue ≡ []

-- The section of `register` before `old.close()`.
unfoldable pub register_begins : Conn → System → System
register_begins c s = elim (lookup c.fp s.manager.conns) [
  | none ↦ on_manager (enter c) s
  | some j ↦ if refuses (s.manager.heap j) c then s else record s { replacing = some c }
]

-- The sections that change no more than a connection's session, queue and counters, the events, and the
-- trust store.
module _ (p : Primitives) where
  pub data Local : Manager → Manager → Type 0 where
    seals :
        {m : Manager}
        → (i : ℕ) (drawn : Option Bytes) (typ : ℕ) (payload : Bytes)
        → Local m
            (put i (record (m.heap i) { sess = (seal p drawn typ payload (m.heap i).sess).0 }) m)
    opens :
        {m : Manager}
        → (i : ℕ) (buf : Bytes)
        → Local m (put i (record (m.heap i) { sess = (open' p buf (m.heap i).sess).0 }) m)
    queues :
        {m : Manager}
        → (i : ℕ) (buf : Bytes) → length (m.heap i).queue < send_capacity
        → Local m (put i (record (m.heap i) { queue = (m.heap i).queue ++ (buf ∷ []) }) m)
    takes :
        {m : Manager}
        → (i : ℕ) (buf : Bytes) (rest : List Bytes) → (m.heap i).queue ≡ buf ∷ rest
        → Local m (put i (record (m.heap i) { queue = rest }) m)
    writes :
        {m : Manager}
        → (i : ℕ) (buf : Bytes)
        → Local m (put i (record (m.heap i) { written = (m.heap i).written ++ (buf ∷ []) }) m)
    counts : {m : Manager} → (i n : ℕ) → Local m (put i (record (m.heap i) { unanswered = n }) m)
    announces : {m : Manager} → (i : ℕ) → Local m (put i (record (m.heap i) { announced = true }) m)
    tells : {m : Manager} → (e : Event) → Local m (emit e m)
    hears :
        {m : Manager}
        → (e : Event) (rest : List Event) → m.events ≡ e ∷ rest
        → Local m (record m { events = rest })
    records : {m : Manager} → (st : Store) → Local m (record m { store = st })

  pub data Step : System → System → Type 0 where
    within : {s : System} {m : Manager} → Local s.manager m → Step s (record s { manager = m })
    drop_begins :
        {s : System}
        → (i : ℕ) → i < s.manager.count
        → s.stages i ≡ unrun
        → Step s (set_stage i done_closed (on_manager (close_done i) s))
    drop_closes :
        {s : System}
        → (i : ℕ) → i < s.manager.count
        → s.stages i ≡ done_closed
        → Step s (set_stage i all_closed (on_manager (close_session i) s))
    drop_unregisters :
        {s : System}
        → (i : ℕ) → i < s.manager.count
        → s.stages i ≡ all_closed
        → s.replacing ≡ none
        → Step s (set_stage i gone (on_manager (unregister i) s))
    drop_ends :
        {s : System}
        → (i : ℕ) → i < s.manager.count
        → s.stages i ≡ gone
        → Step s (set_stage i over (on_manager (tell_gone i) s))
    registers :
        {s : System} → (c : Conn) → IsFresh c → s.replacing ≡ none → Step s (register_begins c s)
    replaces :
        {s : System}
        → (c : Conn) (j : ℕ) → s.replacing ≡ some c
        → lookup c.fp s.manager.conns ≡ some j
        → (s.stages j ≡ unrun) ⊎ (s.stages j ≡ over)
        → Step s (record (set_stage j over (on_manager (λ m. enter c (close j m)) s)) {
          replacing = none;
        })

  -- What a system can get to.
  pub data Run (s : System) : System → Type 0 where
    here : Run s s
    next : {t u : System} → Run s t → Step t u → Run s u
