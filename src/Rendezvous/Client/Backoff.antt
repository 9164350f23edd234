-- ===== src/Rendezvous/Client/Backoff.antt =====
-- internal/rendezvous/client.go: `supervise`, over the dials that it makes and what the other
-- goroutines do between them.
use native.Mathlib.Nat.{pow-succ'}
use xessenger_cli.Prelude.{
  ℕ, suc, ◌*◌, ◌^◌, List, [], ◌∷◌, ◌++◌, Bool, true, false, Option, none, some, if◌then◌else◌, ltb,
  take, arith, ◌≡◌, ◌⊎◌, inl, inr, refl, ap, subst, ◌∙◌, Bool-cases, Option-cases,
}
use Prim.Native.Nat.{min}
use xessenger_cli.Relay.Serve.{Codec}
use xessenger_cli.Rendezvous.Messages.{Message}
use xessenger_cli.Rendezvous.Client.Waiters.{Client, resend_waiters, connect, lose}
use xessenger_cli.Rendezvous.Client.Events.{Event, run}

-- Nanoseconds.
abbrev pub min_backoff : ℕ
min_backoff = 1000000000

abbrev pub max_backoff : ℕ
max_backoff = 30000000000

-- A dial: the connection and its rung with the sends of `resendWaiters`, or none if it fails; the
-- sections that other goroutines run during it, and those that run after it until the next dial, with
-- those of `readPump`.
pub record Attempt : Type 0 where
  pub dialled : Option (ℕ × ℕ × List Bool)
  pub during : List Event
  pub meanwhile : List Event

-- What `supervise` leaves: the client, the waits that it began after failed dials, and what it
-- sent.
pub record Supervised : Type 0 where
  pub client : Client
  pub waits : List ℕ
  pub out : List (ℕ × Message)

abbrev pub next_backoff : ℕ → ℕ
next_backoff b = if ltb max_backoff (b * 2) then max_backoff else b * 2

unfoldable pub supervise : Codec → ℕ → List Attempt → Client → Supervised
unfolding connect lose
supervise codec backoff [] c = record { client = c; waits = []; out = [] }
supervise codec backoff (x ∷ xs) c = elim c.closed [
  | true ↦ record { client = c; waits = []; out = [] }
  | false ↦
      let d = run x.during c in
      elim x.dialled [
        | none ↦ elim d.closed [
          | true ↦ record { client = d; waits = []; out = [] }
          | false ↦
              let rest = supervise codec (next_backoff backoff) xs (run x.meanwhile d) in
              record rest { waits = backoff ∷ rest.waits }
        ]
        | some (conn, rung, sends) ↦
            let (up, out) = resend_waiters codec sends (connect conn rung d) in
            let rest = supervise codec min_backoff xs (lose (run x.meanwhile up)) in
            record rest { out = out ++ rest.out }
      ]
]

-- The wait after `n` failures and one more: it doubles from a second to 30 seconds.
abbrev pub capped : ℕ → ℕ
capped n = min (min_backoff * 2 ^ n) max_backoff

-- The waits of dials that fail and succeed, `n` of which have failed since the last success.
abbrev pub schedule : ℕ → List Attempt → List ℕ
schedule n [] = []
schedule n (x ∷ xs) = elim x.dialled [
  | none ↦ capped n ∷ schedule (suc n) xs
  | some d ↦ schedule 0 xs
]

next_backoff-capped : (n : ℕ) → next_backoff (capped n) ≡ capped (suc n)
next_backoff-capped n = ground (arith, pow-succ' 2 n)

-- What is waited, unless the client is closed: then a part of it.
abbrev pub Follows : List ℕ → Supervised → Type 0
Follows plan r = (r.waits ≡ plan) ⊎ ((r.client.closed ≡ true) × (k : ℕ) × (r.waits ≡ take k plan))

Follows-cons :
    (w : ℕ) (plan : List ℕ) (r : Supervised)
    → Follows plan r
    → Follows (w ∷ plan) (record r { waits = w ∷ r.waits })
Follows-cons w plan r (inl e) = inl (ap (λ l. w ∷ l) e)
Follows-cons w plan r (inr (c, k, e)) = inr (c, suc k, ap (λ l. w ∷ l) e)

follows :
    (codec : Codec) (n backoff : ℕ) (xs : List Attempt) (c : Client)
    → backoff ≡ capped n
    → Follows (schedule n xs) (supervise codec backoff xs c)
unfolding supervise
follows codec n backoff [] c h = inl refl
follows codec n backoff (x ∷ xs) c h = elim (Bool-cases c.closed) [
  | inl e ↦ rw (supervise, e) (inr (e, 0, refl))
  | inr e ↦ elim (Option-cases x.dialled) [
    | inr ((conn, rung, sends), d) ↦
        rw (supervise, e, d)
          (follows codec 0 min_backoff xs
            (lose
              (run x.meanwhile (resend_waiters codec sends (connect conn rung (run x.during c))).0))
            refl)
    | inl d ↦ elim (Bool-cases (run x.during c).closed) [
      | inl f ↦ rw (supervise, e, d, f) (inr (f, 0, refl))
      | inr f ↦
          let next : Client = run x.meanwhile (run x.during c) in
          let rest : Supervised = supervise codec (next_backoff backoff) xs next in
          rw (supervise, e, d, f)
            (subst
              (λ b.
                Follows (b ∷ schedule (suc n) xs) (record rest { waits = backoff ∷ rest.waits }))
              h
              (Follows-cons backoff (schedule (suc n) xs) rest (
                follows codec (suc n) (next_backoff backoff) xs next
                  (ap next_backoff h ∙ next_backoff-capped n))))
    ]
  ]
]

-- The supervised connection begins a wait after each failed dial, and after the n-th failure in a row for the lesser of 2 to the n - 1 seconds and 30 seconds, counted anew once a dial succeeds; only closing the client ends this, and the client is then closed.
pub supervise-Follows :
    (codec : Codec) (xs : List Attempt) (c : Client)
    → Follows (schedule 0 xs) (supervise codec min_backoff xs c)
supervise-Follows codec xs c = follows codec 0 min_backoff xs c refl
