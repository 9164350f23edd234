-- ===== src/Rendezvous/Client/Marks.antt =====
-- internal/rendezvous/client.go: the marks of the waiters that were sent.
use xessenger_cli.Prelude.{
  get_or-set_self, get_or-set_ne, length-set, ℕ, zero, suc, ◌<◌, List, [], ◌∷◌, Bool, true, false,
  length, set, All, ◌≡◌, ◌≢◌, refl, ap, ◌∙◌,
}
use xessenger_cli.Prelude.Assoc.{Map}
use xessenger_cli.Crypto.{Bytes}
use xessenger_cli.Relay.Serve.{Codec}
use xessenger_cli.Rendezvous.Messages.{Message}
use xessenger_cli.Rendezvous.Client.Waiters.{Waiter, waiter_at, request, unsend_all}

-- The sends that succeed before the first that fails.
abbrev pub successes : List Bool → ℕ
successes [] = 0
successes (false ∷ bs) = 0
successes (true ∷ bs) = suc (successes bs)

abbrev pub request_of : Codec → ℕ → List Waiter → Bytes × ℕ → ℕ × Message
request_of codec conn made (rid, i) = (conn, request codec rid (waiter_at made i))

-- A map whose values are places below a bound, each once.
abbrev pub Unused : ℕ → Map ℕ → Type 0
Unused i m = All (λ (e : Bytes × ℕ). e.1 ≢ i) m

abbrev pub IsPlaced : ℕ → Map ℕ → Type 0
IsPlaced n [] = Unit
IsPlaced n ((rid, i) ∷ m) = (i < n) × Unused i m × IsPlaced n m

abbrev pub put_sent : Bool → ℕ → List Waiter → List Waiter
put_sent b i made = set made i (record (waiter_at made i) { sent = b })

-- Marking a waiter leaves what it asks for, and what its channels hold.
abbrev pub Alike : Waiter → Waiter → Type 0
Alike w v =
    (w.sealed ≡ v.sealed)
    × (w.claim ≡ v.claim)
    × (w.published ≡ v.published)
    × (w.paired ≡ v.paired)

pub put_sent-Alike :
    (b : Bool) (made : List Waiter) (j i : ℕ)
    → Alike (waiter_at (put_sent b j made) i) (waiter_at made i)
put_sent-Alike b [] j i = (refl, refl, refl, refl)
put_sent-Alike b (w ∷ ws) zero zero = (refl, refl, refl, refl)
put_sent-Alike b (w ∷ ws) zero (suc i) = (refl, refl, refl, refl)
put_sent-Alike b (w ∷ ws) (suc j) zero = (refl, refl, refl, refl)
put_sent-Alike b (w ∷ ws) (suc j) (suc i) = put_sent-Alike b ws j i

pub put_sent_other :
    (b : Bool) (made : List Waiter) (j i : ℕ)
    → j ≢ i
    → waiter_at (put_sent b j made) i ≡ waiter_at made i
put_sent_other b made j i h = get_or-set_ne made j i _ _ h

pub put_sent_here :
    (b : Bool) (made : List Waiter) (i : ℕ)
    → i < length made
    → (waiter_at (put_sent b i made) i).sent ≡ b
put_sent_here b made i h = ap (λ (w : Waiter). w.sent) (get_or-set_self made i _ _ h)

-- Clearing the mark of any waiter leaves one not sent as it is, out of range too.
unmark-unsent :
    (made : List Waiter) (j i : ℕ)
    → (waiter_at made i).sent ≡ false
    → (waiter_at (put_sent false j made) i).sent ≡ false
unmark-unsent [] j i h = h
unmark-unsent (w ∷ ws) zero zero h = refl
unmark-unsent (w ∷ ws) zero (suc i) h = h
unmark-unsent (w ∷ ws) (suc j) zero h = h
unmark-unsent (w ∷ ws) (suc j) (suc i) h = unmark-unsent ws j i h

unmarked : (made : List Waiter) (i : ℕ) → (waiter_at (put_sent false i made) i).sent ≡ false
unmarked [] i = refl
unmarked (w ∷ ws) zero = refl
unmarked (w ∷ ws) (suc i) = unmarked ws i

unsend_all-unsent :
    (m : Map ℕ) (made : List Waiter) (i : ℕ)
    → (waiter_at made i).sent ≡ false
    → (waiter_at (unsend_all m made) i).sent ≡ false
unfolding unsend_all
unsend_all-unsent [] made i h = h
unsend_all-unsent ((rid, j) ∷ m) made i h =
    unsend_all-unsent m (put_sent false j made) i (unmark-unsent made j i h)

abbrev pub Unsent : List Waiter → Map ℕ → Type 0
Unsent made m = All (λ (e : Bytes × ℕ). (waiter_at made e.1).sent ≡ false) m

pub unsend_all-Unsent : (m : Map ℕ) (made : List Waiter) → Unsent (unsend_all m made) m
unfolding unsend_all
unsend_all-Unsent [] made = tt
unsend_all-Unsent ((rid, j) ∷ m) made = (
  unsend_all-unsent m (put_sent false j made) j (unmarked made j),
  unsend_all-Unsent m (put_sent false j made),
)

Alike-trans : (u v w : Waiter) → Alike u v → Alike v w → Alike u w
Alike-trans u v w p q = (p.0 ∙ q.0, p.1 ∙ q.1, p.2 ∙ q.2, p.3 ∙ q.3)

pub unsend_all-Alike :
    (m : Map ℕ) (made : List Waiter) (i : ℕ)
    → Alike (waiter_at (unsend_all m made) i) (waiter_at made i)
unfolding unsend_all
unsend_all-Alike [] made i = (refl, refl, refl, refl)
unsend_all-Alike ((rid, j) ∷ m) made i =
    Alike-trans (waiter_at (unsend_all ((rid, j) ∷ m) made) i) (waiter_at (put_sent false j made) i)
      (waiter_at made i) (unsend_all-Alike m (put_sent false j made) i)
      (put_sent-Alike false made j i)

pub length-unsend_all : (m : Map ℕ) (made : List Waiter) → length (unsend_all m made) ≡ length made
unfolding unsend_all
length-unsend_all [] made = refl
length-unsend_all ((rid, j) ∷ m) made =
    length-unsend_all m (put_sent false j made) ∙ length-set made j _
