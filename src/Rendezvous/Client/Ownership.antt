-- ===== src/Rendezvous/Client/Ownership.antt =====
-- internal/rendezvous/client.go: the messages that the channels of one waiter hold.
use xessenger_cli.Prelude.{
  get_or-set_self, get_or-set_ne, length-set, ℕ, zero, suc, ◌<◌, List, [], ◌∷◌, ◌++◌, Bool, true,
  false, Option, none, some, if_elim, ◌==◌, length, set, All, arith, ◌≡◌, inl, inr, refl, sym,
  subst, Bool-cases, Option-cases, ==_iff, length-append,
}
use xessenger_cli.Prelude.Assoc.{lookup, All-lookup, All-delete, All-insert}
use xessenger_cli.Prelude.Bytes.{bytes_eq}
use xessenger_cli.Crypto.{Bytes}
use xessenger_cli.Relay.Serve.{Codec}
use xessenger_cli.Rendezvous.Messages.{Message, msg_published, msg_paired, msg_error}
use xessenger_cli.Rendezvous.Client.Waiters.{
  Waiter, Client, new_waiter, waiter_at, put, put_published, put_paired, deliver, dispatch,
  pending_of, mark_sent, resend_loop, resend_waiters, add_waiter, unregister, connect, lose, close,
  message, await, take_published, take_paired,
}
use xessenger_cli.Rendezvous.Client.Marks.{unsend_all-Alike, length-unsend_all}
use xessenger_cli.Rendezvous.Client.Events.{
  Event, registers, resends, marks, cancels, connects, loses, receives, takes_published,
  takes_paired, closes, after_await, step, run,
}

-- What the channels of a waiter hold bears one rendezvous id.
abbrev pub OfId : Bytes → Option Message → Type 0
OfId rid none = Unit {0}
OfId rid (some msg) = msg.rendezvous_id ≡ rid

abbrev pub Hears : Bytes → Waiter → Type 0
Hears rid w = OfId rid w.published × OfId rid w.paired

-- The place `i` was given out for `rid`: only that key leads to it.
pub record Owns (rid : Bytes) (i : ℕ) (c : Client) : Type 0 where
  pub placed : i < length c.made
  pub hears : Hears rid (waiter_at c.made i)
  pub keyed : All (λ (e : Bytes × ℕ). e.1 ≡ i → e.0 ≡ rid) c.waiters

waiter_at-append :
    (made : List Waiter) (w : Waiter) (i : ℕ)
    → i < length made
    → waiter_at (made ++ (w ∷ [])) i ≡ waiter_at made i
waiter_at-append [] w i h = absurd (omega arith)
waiter_at-append (v ∷ vs) w zero h = refl
waiter_at-append (v ∷ vs) w (suc i) h = waiter_at-append vs w i (omega arith)

pub waiter_at_end :
    (made : List Waiter) (w : Waiter) → waiter_at (made ++ (w ∷ [])) (length made) ≡ w
waiter_at_end [] w = refl
waiter_at_end (v ∷ vs) w = waiter_at_end vs w

module _ (rid : Bytes) (i : ℕ) where
  -- A change of one waiter that keeps the id of what it hears, if it is that of `rid`.
  set-Owns :
      (f : Waiter → Waiter) (j : ℕ) (c : Client)
      → (j ≡ i → Hears rid (waiter_at c.made j) → Hears rid (f (waiter_at c.made j)))
      → Owns rid i c
      → Owns rid i (record c { made = set c.made j (f (waiter_at c.made j)) })
  set-Owns f j c keeps h = record {
    placed = omega (arith, h.placed, length-set c.made j (f (waiter_at c.made j)));
    hears = elim (Bool-cases (j == i)) [
      | inl e ↦
          let same : j ≡ i = (==_iff j i).0 e in
          subst (λ n. Hears rid (waiter_at (set c.made j (f (waiter_at c.made j))) n)) same
            (subst (Hears rid) (sym (get_or-set_self c.made j _ _ (omega (arith, same, h.placed))))
              (keeps same (subst (λ n. Hears rid (waiter_at c.made n)) (sym same) h.hears)))
      | inr e ↦ subst (Hears rid) (sym (get_or-set_ne c.made j i _ _ (ground (arith, e)))) h.hears
    ];
    keyed = h.keyed;
  }

  put-OfId :
      (o : Option Message) (msg : Message)
      → msg.rendezvous_id ≡ rid
      → OfId rid o
      → OfId rid (put o msg)
  put-OfId none msg e h = e
  put-OfId (some m) msg e h = h

  deliver-Owns :
      (f : Waiter → Waiter) (k : Bytes) (c : Client)
      → (k ≡ rid → (w : Waiter) → Hears rid w → Hears rid (f w))
      → Owns rid i c
      → Owns rid i (deliver f k c)
  unfolding deliver
  deliver-Owns f k c keeps h = elim (Option-cases (lookup k c.waiters)) [
    | inl e ↦ rw (deliver, e) h
    | inr (j, e) ↦
        rw (deliver, e)
          (set-Owns f j c
            (λ same.
              keeps
                (All-lookup (λ (x : Bytes × ℕ). x.1 ≡ i → x.0 ≡ rid) k c.waiters j h.keyed e same)
                (waiter_at c.made j))
            h)
  ]

  dispatch-Owns : (msg : Message) (c : Client) → Owns rid i c → Owns rid i (dispatch msg c)
  unfolding dispatch
  dispatch-Owns msg c h =
      if_elim (Owns rid i) (bytes_eq msg.kind msg_published) _ _
        (λ e.
          if_elim (λ x. Owns rid i (deliver (put_published msg) msg.rendezvous_id x))
            (bytes_eq msg.observed []) _ _
            (λ d. deliver-Owns (put_published msg) msg.rendezvous_id c acknowledges h)
            (λ d.
              deliver-Owns (put_published msg) msg.rendezvous_id
                (record c { observed = msg.observed }) acknowledges
                (record { placed = h.placed; hears = h.hears; keyed = h.keyed })))
        (λ e.
          if_elim (Owns rid i) (bytes_eq msg.kind msg_paired) _ _
            (λ d. deliver-Owns (put_paired msg) msg.rendezvous_id c pairs h)
            (λ d.
              if_elim (Owns rid i) (bytes_eq msg.kind msg_error) _ _
                (λ d'.
                  deliver-Owns (λ w. put_paired msg (put_published msg w)) msg.rendezvous_id c
                    (λ same w g. pairs same (put_published msg w) (acknowledges same w g)) h)
                (λ d'. h)))
    where
      acknowledges :
          msg.rendezvous_id ≡ rid → (w : Waiter) → Hears rid w → Hears rid (put_published msg w)
      acknowledges same w g = (put-OfId w.published msg same g.0, g.1)

      pairs : msg.rendezvous_id ≡ rid → (w : Waiter) → Hears rid w → Hears rid (put_paired msg w)
      pairs same w g = (g.0, put-OfId w.paired msg same g.1)

  mark_sent-Owns : (j : ℕ) (c : Client) → Owns rid i c → Owns rid i (mark_sent j c)
  unfolding mark_sent
  mark_sent-Owns j c h = set-Owns (λ w. record w { sent = true }) j c (λ e g. g) h

  resend_loop-Owns :
      (codec : Codec) (conn : ℕ) (ps : List (Bytes × ℕ)) (sends : List Bool) (c : Client)
      → Owns rid i c
      → Owns rid i (resend_loop codec conn ps sends c).0
  unfolding resend_loop
  resend_loop-Owns codec conn [] sends c h = h
  resend_loop-Owns codec conn (p ∷ ps) [] c h = h
  resend_loop-Owns codec conn ((k, j) ∷ ps) (false ∷ sends) c h = h
  resend_loop-Owns codec conn ((k, j) ∷ ps) (true ∷ sends) c h =
      resend_loop-Owns codec conn ps sends (mark_sent j c) (mark_sent-Owns j c h)

  resend_waiters-Owns :
      (codec : Codec) (sends : List Bool) (c : Client)
      → Owns rid i c
      → Owns rid i (resend_waiters codec sends c).0
  unfolding resend_waiters
  resend_waiters-Owns codec sends c h = elim (Option-cases c.conn) [
    | inl e ↦ rw (resend_waiters, e) h
    | inr (conn, e) ↦
        rw (resend_waiters, e) (resend_loop-Owns codec conn (pending_of c.waiters c.made) sends c h)
  ]

  add_waiter-Owns :
      (k : Bytes) (w : Waiter) (c : Client) → Owns rid i c → Owns rid i (add_waiter k w c).0
  unfolding add_waiter
  add_waiter-Owns k w c h = elim (Option-cases (lookup k c.waiters)) [
    | inr (j, e) ↦ rw (add_waiter, e) h
    | inl e ↦
        rw (add_waiter, e)
          (record {
            placed = omega (arith, h.placed, length-append c.made (w ∷ []));
            hears = subst (Hears rid) (sym (waiter_at-append c.made w i h.placed)) h.hears;
            keyed =
                All-insert (λ (x : Bytes × ℕ). x.1 ≡ i → x.0 ≡ rid) k (length c.made) c.waiters
                  h.keyed (λ d. absurd (omega (arith, h.placed, d)));
          })
  ]

  await-Owns :
      (channel : Waiter → Option Message) (taken : Waiter → Waiter) (j : ℕ) (c : Client)
      → ((w : Waiter) → Hears rid w → Hears rid (taken w))
      → Owns rid i c
      → Owns rid i (after_await (await message channel taken j c) c)
  unfolding await
  await-Owns channel taken j c keeps h = elim (Option-cases (channel (waiter_at c.made j))) [
    | inl e ↦ rw (await, e) h
    | inr (msg, e) ↦ rw (await, e) (set-Owns taken j c (λ same g. keeps (waiter_at c.made j) g) h)
  ]

  lose-Owns : (c : Client) → Owns rid i c → Owns rid i (lose c)
  unfolding lose
  lose-Owns c h = record {
    placed = omega (arith, h.placed, length-unsend_all c.waiters c.made);
    hears =
        let same = unsend_all-Alike c.waiters c.made i in
        (subst (OfId rid) (sym same.2) h.hears.0, subst (OfId rid) (sym same.3) h.hears.1);
    keyed = h.keyed;
  }

  step-Owns : (e : Event) (c : Client) → Owns rid i c → Owns rid i (step e c)
  unfolding step unregister connect close
  step-Owns (registers k sealed claims) c h = add_waiter-Owns k (new_waiter sealed claims) c h
  step-Owns (resends codec sends) c h = resend_waiters-Owns codec sends c h
  step-Owns (marks j) c h = mark_sent-Owns j c h
  step-Owns (cancels k) c h = record {
    placed = h.placed;
    hears = h.hears;
    keyed = All-delete (λ (x : Bytes × ℕ). x.1 ≡ i → x.0 ≡ rid) k c.waiters h.keyed;
  }
  step-Owns (connects conn rung) c h = record {
    placed = h.placed;
    hears = h.hears;
    keyed = h.keyed;
  }
  step-Owns loses c h = lose-Owns c h
  step-Owns (receives msg) c h = dispatch-Owns msg c h
  step-Owns (takes_published j) c h =
      await-Owns (λ w. w.published) take_published j c (λ w g. (tt, g.1)) h
  step-Owns (takes_paired j) c h = await-Owns (λ w. w.paired) take_paired j c (λ w g. (g.0, tt)) h
  step-Owns closes c h = record { placed = h.placed; hears = h.hears; keyed = h.keyed }

  pub run-Owns : (es : List Event) (c : Client) → Owns rid i c → Owns rid i (run es c)
  unfolding run
  run-Owns [] c h = h
  run-Owns (e ∷ es) c h = run-Owns es (step e c) (step-Owns e c h)
