-- ===== src/Rendezvous/Candidates.antt =====
-- internal/rendezvous/candidates.go: the addresses that a peer's candidate list may make us dial.
-- `net.SplitHostPort`, `net.ParseIP` and the predicates of `net.IP` are the record `Net`.
use xessenger_cli.Prelude.{
  ℕ, ◌+◌, ◌≤◌, ◌<◌, List, [], ◌∷◌, ◌++◌, Bool, false, not, ◌&&◌, ◌||◌, leb, All, length,
}
use xessenger_cli.Prelude.{
  Option, none, some, if◌then◌else◌, if_elim, arith, ◌≡◌, refl, ap, ◌∙◌, length-append, inl, inr,
  Option-cases,
}
use mathlib.Core.Bool.{true≢false}
use xessenger_cli.Prelude.{◌≢◌, sym}
use xessenger_cli.Prelude.Bytes.{bytes_eq, bytes_eq_iff}
use xessenger_cli.Crypto.{Bytes, codes}

-- An address as the predicates of `net.IP` see it; `broadcast` is 255.255.255.255.
pub record Ip : Type 0 where
  pub unspecified : Bool
  pub loopback : Bool
  pub link_local_unicast : Bool
  pub link_local_multicast : Bool
  pub interface_local_multicast : Bool
  pub multicast : Bool
  pub broadcast : Bool
  pub is_private : Bool

pub record Net : Type 0 where
  pub split_host_port : Bytes → Option (Bytes × Bytes)
  pub parse_ip : Bytes → Option Ip

pub record Candidate : Type 0 where
  pub addr : Bytes
  pub kind : Bytes

abbrev pub max_candidates : ℕ
max_candidates = 8

abbrev pub max_private_candidates : ℕ
max_private_candidates = 2

-- `usableIP`
abbrev pub usable_ip : Ip → Bool
usable_ip ip =
    if ip.unspecified
      || (ip.loopback
          || (ip.link_local_unicast
              || (ip.link_local_multicast || (ip.interface_local_multicast || ip.multicast))))
    then false
    else not ip.broadcast

abbrev pub contains : Bytes → List Bytes → Bool
contains a [] = false
contains a (b ∷ bs) = bytes_eq b a || contains a bs

-- The variables of the loop of `ValidateCandidates`; the map `seen` is the list of its keys.
pub record Collected : Type 0 where
  pub out : List Candidate
  pub private : ℕ
  pub seen : List Bytes

module _ (net : Net) where
  -- The address of a candidate, if it has a usable one and a port.
  unfoldable pub dialable : Bytes → Option Ip
  dialable addr = elim (net.split_host_port addr) [
    | none ↦ none
    | some (host, port) ↦ elim (net.parse_ip host) [
      | none ↦ none
      | some ip ↦
          if not (usable_ip ip)
          then none
          else if bytes_eq port [] || bytes_eq port (codes "0")
          then none
          else some ip
    ]
  ]

  -- The loop of `ValidateCandidates`, with what it has collected; `seen` is the addresses of `out`.
  -- The body of the loop of `ValidateCandidates`, after its check of the count.
  unfoldable pub consider : Candidate → Collected → Collected
  unfolding dialable
  consider c st = elim (dialable c.addr) [
    | none ↦ st
    | some ip ↦
        if contains c.addr st.seen
        then st
        else if ip.is_private && leb max_private_candidates st.private
        then st
        else record {
          out = st.out ++ (c ∷ []);
          private = if ip.is_private then st.private + 1 else st.private;
          seen = c.addr ∷ st.seen;
        }
  ]

  unfoldable pub validate_loop : List Candidate → Collected → Collected
  unfolding consider
  validate_loop [] st = st
  validate_loop (c ∷ cs) st =
      if leb max_candidates (length st.out) then st else validate_loop cs (consider c st)

  unfoldable pub validate_candidates : List Candidate → List Candidate
  unfolding validate_loop
  validate_candidates cs = (validate_loop cs (record { out = []; private = 0; seen = [] })).out

  -- An address that may be dialled, in terms of what `net` makes of it: it has a port other than 0,
  -- and an IP address of none of the refused classes.
  pub record IsSafe (c : Candidate) : Type 0 where
    pub host : Bytes
    pub port : Bytes
    pub ip : Ip
    pub splits : net.split_host_port c.addr ≡ some (host, port)
    pub parses : net.parse_ip host ≡ some ip
    pub has_port : port ≢ []
    pub port_not_zero : port ≢ codes "0"
    pub not_unspecified : ip.unspecified ≡ false
    pub not_loopback : ip.loopback ≡ false
    pub not_link_local_unicast : ip.link_local_unicast ≡ false
    pub not_link_local_multicast : ip.link_local_multicast ≡ false
    pub not_interface_local_multicast : ip.interface_local_multicast ≡ false
    pub not_multicast : ip.multicast ≡ false
    pub not_broadcast : ip.broadcast ≡ false

  -- Whether an address is a private one, and how many candidates have such an address.
  unfoldable pub private_addr : Bytes → Bool
  private_addr addr = elim (net.split_host_port addr) [
    | none ↦ false
    | some (host, port) ↦ elim (net.parse_ip host) [ none ↦ false | some ip ↦ ip.is_private ]
  ]

  unfoldable pub privates : List Candidate → ℕ
  unfolding private_addr
  privates [] = 0
  privates (c ∷ cs) = (if private_addr c.addr then 1 else 0) + privates cs

  port_ok :
      (port : Bytes)
      → (bytes_eq port [] || bytes_eq port (codes "0")) ≡ false
      → (port ≢ []) × (port ≢ codes "0")
  port_ok port e = (
    λ q. true≢false (sym ((bytes_eq_iff port []).1 q) ∙ ground (arith, e)),
    λ q. true≢false (sym ((bytes_eq_iff port (codes "0")).1 q) ∙ ground (arith, e)),
  )

  dialable-IsSafe :
      (c : Candidate) (ip : Ip)
      → dialable c.addr ≡ some ip
      → IsSafe c × (private_addr c.addr ≡ ip.is_private)
  unfolding dialable private_addr
  dialable-IsSafe c ip e = elim (Option-cases (net.split_host_port c.addr)) [
    | inl f ↦ absurd (ground (arith, e, f))
    | inr ((host, port), f) ↦ elim (Option-cases (net.parse_ip host)) [
      | inl g ↦ absurd (ground (arith, e, f, g))
      | inr (ip', g) ↦
          let ports = port_ok port (ground (arith, e, f, g)) in
          (
            record {
              host = host;
              port = port;
              ip = ip';
              splits = f;
              parses = g;
              has_port = ports.0;
              port_not_zero = ports.1;
              not_unspecified = ground (arith, e, f, g);
              not_loopback = ground (arith, e, f, g);
              not_link_local_unicast = ground (arith, e, f, g);
              not_link_local_multicast = ground (arith, e, f, g);
              not_interface_local_multicast = ground (arith, e, f, g);
              not_multicast = ground (arith, e, f, g);
              not_broadcast = ground (arith, e, f, g);
            },
            ground (arith, e, f, g),
          )
    ]
  ]

  privates-append : (xs ys : List Candidate) → privates (xs ++ ys) ≡ privates xs + privates ys
  unfolding privates
  privates-append [] ys = omega arith
  privates-append (x ∷ xs) ys = omega (arith, privates-append xs ys)

  All-append_one :
      (xs : List Candidate) (c : Candidate) → All IsSafe xs → IsSafe c → All IsSafe (xs ++ (c ∷ []))
  All-append_one [] c h hc = (hc, tt)
  All-append_one (x ∷ xs) c h hc = (h.0, All-append_one xs c h.1 hc)

  -- What holds of the loop's variables: every candidate is safe to dial, and both caps hold.
  pub record Safe (st : Collected) : Type 0 where
    pub all_safe : All IsSafe st.out
    pub few : length st.out ≤ max_candidates
    pub counted : privates st.out ≡ st.private
    pub few_private : st.private ≤ max_private_candidates

  add-Safe :
      (c : Candidate) (ip : Ip) (st : Collected)
      → Safe st
      → dialable c.addr ≡ some ip
      → length st.out < max_candidates
      → (ip.is_private && leb max_private_candidates st.private) ≡ false
      → Safe (record {
        out = st.out ++ (c ∷ []);
        private = if ip.is_private then st.private + 1 else st.private;
        seen = c.addr ∷ st.seen;
      })
  unfolding privates
  add-Safe c ip st h e room allowed = record {
    all_safe = All-append_one st.out c h.all_safe (dialable-IsSafe c ip e).0;
    few = omega (arith, room, length-append st.out (c ∷ []));
    counted =
        privates-append st.out (c ∷ [])
        ∙ ap (λ b. privates st.out + ((if b then 1 else 0) + 0)) (dialable-IsSafe c ip e).1
        ∙ ground (arith, h.counted);
    few_private = ground (arith, allowed, h.few_private);
  }

  consider-Safe :
      (c : Candidate) (st : Collected)
      → Safe st
      → length st.out < max_candidates
      → Safe (consider c st)
  unfolding consider
  consider-Safe c st h room = elim (Option-cases (dialable c.addr)) [
    | inl e ↦ rw (consider, e) h
    | inr (ip, e) ↦
        rw (consider, e)
          (if_elim Safe (contains c.addr st.seen) _ _ (λ d. h)
            (λ d.
              if_elim Safe (ip.is_private && leb max_private_candidates st.private) _ _ (λ f. h)
                (λ f. add-Safe c ip st h e room f)))
  ]

  validate_loop-Safe : (cs : List Candidate) (st : Collected) → Safe st → Safe (validate_loop cs st)
  unfolding validate_loop
  validate_loop-Safe [] st h = h
  validate_loop-Safe (c ∷ cs) st h =
      if_elim Safe (leb max_candidates (length st.out)) _ _ (λ e. h)
        (λ e. validate_loop-Safe cs (consider c st) (consider-Safe c st h (ground (arith, e))))

  -- Whatever list a peer sends, the candidates that `ValidateCandidates` keeps are at most 8, at most 2 of them have private addresses, and each splits into a host and a port that is neither empty nor 0, where the host parses as an IP address that is not unspecified, loopback, link-local, multicast of any scope, or the broadcast address.
  pub validate_candidates-IsSafe :
      (cs : List Candidate)
      → All IsSafe (validate_candidates cs)
        × (length (validate_candidates cs) ≤ max_candidates)
        × (privates (validate_candidates cs) ≤ max_private_candidates)
  unfolding validate_candidates privates
  validate_candidates-IsSafe cs =
      let h =
        validate_loop-Safe cs (record { out = []; private = 0; seen = [] })
          (record {
            all_safe = tt;
            few = omega arith;
            counted = refl;
            few_private = omega arith;
          }) in
      (h.all_safe, h.few, rw h.counted h.few_private)
