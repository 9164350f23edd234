-- ===== src/Manager.antt =====
-- internal/session/manager.go: the registry of connections and the loops of each. A `*conn` is its
-- number in `heap`. Each operation is here as it runs from its start to its end with no other goroutine
-- in between; the sections of `register`, `dropConn` and the loops, between which the code lets others
-- run, are Manager/Sections. In a run to the end `once` has run if and only if `done` is closed, so
-- `done` stands for both. The channels are their buffers: `queue` is the connection's `send`, `events`
-- the manager's.
pub mod Registry
pub mod Connections
pub mod Steps
pub mod Shake
pub mod Trace
pub mod Invite
pub mod Sections
pub mod Consistent
pub mod Local
pub mod Listed
pub mod Reachable
pub mod Deadlock
pub mod Duplicates
pub mod Effects
pub mod Quiet
pub mod Keepalive
pub mod Once
pub mod Stale
use xessenger_cli.Prelude.{
  ℕ, zero, suc, ◌+◌, ◌-◌, ◌*◌, ◌/◌, ◌%◌, ◌^◌, ◌≤◌, ◌<◌, List, [], ◌∷◌, ◌++◌, map, Bool, true, false,
  not, ◌&&◌, ◌||◌, Option, none, some, Result, ok, err, guard, or_fail, ◌>>=◌, ◌>>◌, if◌then◌else◌,
  if_elim, ltb, leb, ◌==◌, length, get_or, set, take, drop, replicate, All, arith, ◌≡◌, ◌≢◌, ◌↔◌,
  ◌⊎◌, inl, inr, refl, sym, ap, subst, ◌∙◌, Bool-cases, Option-cases, Result-cases, ltb→lt, lt→ltb,
  ltb-false, ltb_false→le, leb→le, ==_iff, ==_refl, length-append, length-take, length-drop,
  take-append, drop-append, take-append-drop, take_all, drop_all, String,
}
use xessenger_cli.Prelude.Bytes.{bytes_eq}
use xessenger_cli.Prelude.Assoc.{Map, lookup, insert, delete}
use xessenger_cli.Crypto.{Bytes, Primitives, codes}
use xessenger_cli.Peers.{Store, TrustLevel, trust_unknown}
use xessenger_cli.Proto.Frame.{
  Error as ProtoError, bad_session, type_chat, type_ping, type_pong, type_close,
  decode_chat_payload,
}
use xessenger_cli.Proto.Session.{Session, seal, open', seal_chat}
use xessenger_cli.Proto.Session
use xessenger_cli.Proto.Handshake.{Identity}

pub data EventType : Type 0 where
  event_peer_connected event_peer_disconnected event_message event_security_warning event_error :
      EventType

-- `text` is that of a message; the wording of warnings and errors is left out.
pub record Event : Type 0 where
  pub typ : EventType
  pub peer : Bytes
  pub fingerprint : Bytes
  pub text : Bytes
  pub trust : TrustLevel
  pub path : Bytes

abbrev pub path_direct : Bytes
path_direct = codes "DIRECT"

abbrev pub keepalive_misses : ℕ
keepalive_misses = 3

abbrev pub send_capacity : ℕ
send_capacity = 64

abbrev pub events_capacity : ℕ
events_capacity = 256

-- `written` is what has been sent.
pub record Conn : Type 0 where
  pub fp : Bytes
  pub name : Bytes
  pub addr : Bytes
  pub path : Bytes
  pub trust : TrustLevel
  pub sess : Session
  pub queue : List Bytes
  pub written : List Bytes
  pub done : Bool
  pub unanswered : ℕ
  pub announced : Bool

-- `count` is the number of the next connection.
pub record Manager : Type 0 where
  pub id : Identity
  pub store : Store
  pub heap : ℕ → Conn
  pub count : ℕ
  pub conns : Map ℕ
  pub by_name : Map ℕ
  pub events : List Event

pub data Error : Type 0 where
  proto : ProtoError → Error
  not_connected conn_closed queue_full : Error
  send_failed recv_failed no_session not_saved : Error

-- The connection that a name or a fingerprint leads to.
abbrev pub leads_to : Option ℕ → ℕ → Bool
leads_to none i = false
leads_to (some j) i = j == i

-- What a step makes of one connection.
unfoldable pub put : ℕ → Conn → Manager → Manager
put i c m = record m { heap = λ j. if j == i then c else m.heap j }

unfoldable pub emit : Event → Manager → Manager
emit e m =
    if ltb (length m.events) events_capacity then record m { events = m.events ++ (e ∷ []) } else m

-- `conn.close`
unfoldable pub close : ℕ → Manager → Manager
close i m =
    let c = m.heap i in
    if c.done then m else put i (record c { done = true; sess = Session.close c.sess }) m

abbrev pub prefer_new : Conn → Conn → Bool
prefer_new old new =
    if ltb 0 old.unanswered then true else ltb new.sess.session_id old.sess.session_id

-- The two assignments at the end of `register`. A connection has its number from here on: one that is
-- refused leaves nothing.
unfoldable pub enter : Conn → Manager → Manager
enter c m = record (put m.count c m) {
  count = m.count + 1;
  conns = insert c.fp m.count m.conns;
  by_name = insert c.name m.count m.by_name;
}

-- Whether `register` refuses a connection because of the one that is there.
abbrev pub refuses : Conn → Conn → Bool
refuses old c = (old.announced && (old.unanswered == 0)) || not (prefer_new old c)

unfoldable pub register : Conn → Manager → Manager × Bool
register c m = elim (lookup c.fp m.conns) [
  | none ↦ (enter c m, true)
  | some j ↦ if refuses (m.heap j) c then (m, false) else (enter c (close j m), true)
]

unfoldable pub unregister : ℕ → Manager → Manager
unregister i m =
    if leads_to (lookup (m.heap i).fp m.conns) i
    then record m {
      conns = delete (m.heap i).fp m.conns;
      by_name =
          if leads_to (lookup (m.heap i).name m.by_name) i
          then delete (m.heap i).name m.by_name
          else m.by_name;
    }
    else m

abbrev pub about_conn : EventType → Conn → Event
about_conn typ c = record {
  typ = typ;
  peer = c.name;
  fingerprint = c.fp;
  text = [];
  trust = c.trust;
  path = c.path;
}

unfoldable pub announce : ℕ → Manager → Manager
announce i m =
    let c = m.heap i in
    if c.done || (not (leads_to (lookup c.fp m.conns) i) || c.announced)
    then m
    else emit (about_conn event_peer_connected c) (put i (record c { announced = true }) m)

unfoldable pub drop_conn : ℕ → Manager → Manager
drop_conn i m =
    if (m.heap i).done
    then m
    else (let m' = unregister i (close i m) in
        if (m.heap i).announced
        then emit (about_conn event_peer_disconnected (m.heap i)) m'
        else m')

-- The `select` that queues a sealed frame.
unfoldable pub offer : ℕ → Bytes → Manager → Manager × Result Error (Unit {0})
offer i buf m =
    let c = m.heap i in
    if c.done
    then (m, err conn_closed)
    else if ltb (length c.queue) send_capacity
    then (put i (record c { queue = c.queue ++ (buf ∷ []) }) m, ok tt)
    else (m, err queue_full)

module _ (p : Primitives) where
  -- The session of a connection after one of its calls, and what is done with the frame.
  unfoldable pub offer_sealed :
      ℕ → Session × Result ProtoError Bytes → Manager → Manager × Result Error (Unit {0})
  offer_sealed i (s, ok buf) m = offer i buf (put i (record (m.heap i) { sess = s }) m)
  offer_sealed i (s, err e) m = (put i (record (m.heap i) { sess = s }) m, err (proto e))

  unfoldable pub enqueue :
      Option Bytes → ℕ → ℕ → Bytes → Manager → Manager × Result Error (Unit {0})
  enqueue drawn i typ payload m = offer_sealed i (seal p drawn typ payload (m.heap i).sess) m

  -- The switch of `readLoop`; the second part says that the loop ends.
  unfoldable pub dispatch : Option Bytes → ℕ → ℕ × Bytes → Manager → Manager × Bool
  dispatch drawn i (typ, pt) m =
      let c = m.heap i in
      if typ == type_chat
      then elim (decode_chat_payload pt) [
        | ok text ↦ (emit (record (about_conn event_message c) { text = text; path = [] }) m, false)
        | err e ↦ (m, false)
      ]
      else if typ == type_ping
      then ((enqueue drawn i type_pong [] m).0, false)
      else if typ == type_pong
      then (put i (record c { unanswered = 0 }) m, false)
      else (m, typ == type_close)

  -- A round of `readLoop` on a frame that has arrived.
  unfoldable pub read_frame : Option Bytes → ℕ → Bytes → Manager → Manager × Bool
  read_frame drawn i buf m =
      let (s, r) = open' p buf (m.heap i).sess in
      let m' = put i (record (m.heap i) { sess = s }) m in
      elim r [
        | ok f ↦ dispatch drawn i f m'
        | err e ↦ (m', elim e [ bad_session ↦ true | _ ↦ false ])
      ]

  -- `readLoop`, one frame of it: `none` is a failed `Recv`. It drops the connection when it ends.
  unfoldable pub read_loop : Option Bytes → ℕ → Option Bytes → Manager → Manager
  read_loop drawn i none m = drop_conn i m
  read_loop drawn i (some buf) m =
      let (m', ends) = read_frame drawn i buf m in if ends then drop_conn i m' else m'

  -- A tick of `keepaliveLoop`.
  unfoldable pub keepalive_tick : Option Bytes → ℕ → Manager → Manager
  keepalive_tick drawn i m =
      let c = m.heap i in
      let m' = put i (record c { unanswered = c.unanswered + 1 }) m in
      if c.done
      then m
      else if ltb keepalive_misses (c.unanswered + 1)
      then drop_conn i m'
      else (let (m'', r) = enqueue drawn i type_ping [] m' in
          elim r [ ok u ↦ m'' | err e ↦ drop_conn i m'' ])

  -- A round of `writeLoop`; `up` says whether the write succeeds.
  unfoldable pub write_round : Bool → ℕ → Manager → Manager
  write_round up i m =
      let c = m.heap i in
      if c.done then m else elim c.queue [
        | [] ↦ m
        | buf ∷ rest ↦
            let m' =
              put i
                (record c {
                  queue = rest;
                  written = if up then c.written ++ (buf ∷ []) else c.written;
                })
                m in
            if up then m' else drop_conn i m'
      ]

  -- `Send`
  unfoldable pub send : Option Bytes → Bytes → Bytes → Manager → Manager × Result Error (Unit {0})
  send drawn name text m = elim (lookup name m.by_name) [
    | none ↦ (m, err not_connected)
    | some i ↦ offer_sealed i (seal_chat p drawn text (m.heap i).sess) m
  ]

  -- `Disconnect`
  unfoldable pub disconnect : Option Bytes → Bytes → Manager → Manager × Result Error (Unit {0})
  disconnect drawn name m = elim (lookup name m.by_name) [
    | none ↦ (m, err not_connected)
    | some i ↦ (drop_conn i (enqueue drawn i type_close [] m).0, ok tt)
  ]

  -- The loop of `Broadcast` over the list of connections; `drawn` is the CSPRNG's answer for each.
  unfoldable pub broadcast : (ℕ → Option Bytes) → Bytes → List (Bytes × ℕ) → Manager → Manager × ℕ
  broadcast drawn text [] m = (m, 0)
  broadcast drawn text ((fp, i) ∷ rest) m =
      let (m', r) = offer_sealed i (seal_chat p (drawn i) text (m.heap i).sess) m in
      let (m'', n) = broadcast drawn text rest m' in (m'', (elim r [ ok u ↦ n + 1 | err e ↦ n ]))

-- `PeerInfo` and `Peers`; the order is that of the map.
pub record PeerInfo : Type 0 where
  pub name : Bytes
  pub fingerprint : Bytes
  pub address : Bytes
  pub trust : TrustLevel
  pub path : Bytes

abbrev pub info_of : Conn → PeerInfo
info_of c = record {
  name = c.name;
  fingerprint = c.fp;
  address = c.addr;
  trust = c.trust;
  path = c.path;
}

unfoldable pub peers : Manager → List PeerInfo
peers m = map (λ e. info_of (m.heap e.1)) m.conns

-- `TrustOf`
unfoldable pub trust_of : Bytes → Manager → TrustLevel × Bool
trust_of name m = elim (lookup name m.by_name) [
  | none ↦ (trust_unknown, false)
  | some i ↦ ((m.heap i).trust, true)
]
