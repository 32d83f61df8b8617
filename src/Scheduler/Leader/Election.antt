-- ===== src/Scheduler/Leader/Election.antt =====
-- Several schedulers of backend/scheduler/leader.py on one database: which of them lead.
use distributed_asynchronous.Prelude.{
  ℕ, ◌≡◌, ◌≢◌, ◌⊎◌, refl, ap, ◌∙◌, Bool, true, false, ◌&&◌, Option, none, some, inl, inr, subst,
  Bool-cases,
}
use mathlib.Core.Option.{some-injective}
use distributed_asynchronous.Scheduler.Leader.Locks.{LockServer, Kept, Locks}
use distributed_asynchronous.Scheduler.Leader.{
  Leader, fresh, reset, connection_alive, with_reply, attempt, acquire, release, unlock_conn,
}

module _ (server : LockServer) where
  open server use {
    State, Conn, connect, select_one, try_advisory_lock, advisory_unlock, close, is_known, holder,
  }

  pub Kept-refl : (d : Conn) (s : State) → Kept server d s s
  Kept-refl d s = record { known = λ h. h; answers = λ h. h; holds = λ key a h. h }

  pub Kept-trans :
      (d : Conn) (s t u : State) → Kept server d s t → Kept server d t u → Kept server d s u
  Kept-trans d s t u p q = record {
    known = λ h. q.known (p.known h);
    answers = λ h. p.answers (q.answers h);
    holds = λ key a h. q.holds key a (p.holds key (q.answers a) h);
  }

  -- Where a session that answers belongs to a leader, it holds the lock.
  abbrev pub HoldsLock : ℕ → Leader server → State → Type 0
  HoldsLock key l s =
      (d : Conn)
      → l.is_leader ≡ true
      → l.conn ≡ some d
      → select_one d s ≡ true
      → holder key s ≡ some d

  -- What a call on a leader `l` does: other sessions keep what they have, the leader's session is
  -- the old one or a new one, and it holds the lock where the leader leads.
  pub record Acts (key : ℕ) (l : Leader server) (s : State) (l' : Leader server) (s' : State)
      : Type 0 where
    pub others : (d : Conn) → is_known d s ≡ true → l.conn ≢ some d → Kept server d s s'
    pub conn :
        (d : Conn)
        → l'.conn ≡ some d
        → ((l.conn ≡ some d) × (is_known d s ≡ true → is_known d s' ≡ true))
          ⊎ ((is_known d s ≡ false) × (is_known d s' ≡ true))
    pub lock : HoldsLock key l s → HoldsLock key l' s'

  module _ (Elsewhere : State → State → Type 0) (laws : Locks server Elsewhere) where
    reset_others :
        (l : Leader server) (s : State) (d : Conn)
        → is_known d s ≡ true
        → l.conn ≢ some d
        → Kept server d s (reset server l s).1
    unfolding reset
    reset_others l s d k ne = go l.conn refl
      where
        go : (o : Option Conn) → l.conn ≡ o → Kept server d s (reset server l s).1
        go none e = rw (e, reset) (Kept-refl d s)
        go (some c) e = rw (e, reset) (laws.close-Kept c d s k (λ same. ne (e ∙ ap some same)))

    reset-known :
        (l : Leader server) (s : State) (d : Conn)
        → is_known d s ≡ true
        → is_known d (reset server l s).1 ≡ true
    unfolding reset
    reset-known l s d k = go l.conn refl
      where
        go : (o : Option Conn) → l.conn ≡ o → is_known d (reset server l s).1 ≡ true
        go none e = rw (e, reset) k
        go (some c) e = rw (e, reset) (laws.close-known c d s k)

    reset-Acts :
        (key : ℕ) (l : Leader server) (s : State)
        → Acts key l s (reset server l s).0 (reset server l s).1
    unfolding reset
    reset-Acts key l s = record { others = reset_others l s; conn = λ d e. cc; lock = λ h d e. cc }

    -- A call on a leader that was reset, seen from before the reset.
    Acts-after_reset :
        (key : ℕ) (l : Leader server) (s : State) (l' : Leader server) (s' : State)
        → Acts key (fresh server) (reset server l s).1 l' s'
        → Acts key l s l' s'
    Acts-after_reset key l s l' s' a = record {
      others = λ d k ne.
          Kept-trans d s (reset server l s).1 s' (reset_others l s d k ne)
            (a.others d (reset-known l s d k) (λ e. cc));
      conn = λ d e. elim (a.conn d e) [
        | inl (same, _) ↦ absurd (let f : none ≡ some d = same in cc)
        | inr (new, known) ↦ inr (was_new d new, known)
      ];
      lock = λ h. a.lock (λ d led. cc);
    }
      where
        was_new : (d : Conn) → is_known d (reset server l s).1 ≡ false → is_known d s ≡ false
        was_new d new = elim (Bool-cases (is_known d s)) [
          | inl k ↦ absurd (let h = reset-known l s d k in cc)
          | inr n ↦ n
        ]

    module _ (key : ℕ) (s t : State) (c : Conn) (e : server.connect s ≡ some (c, t)) where
      abbrev tried : State
      tried = (try_advisory_lock key c t).1

      tried-Kept : (d : Conn) → is_known d s ≡ true → Kept server d s tried
      tried-Kept d k =
          let p = laws.connect-Kept s t c d e k in
          Kept-trans d s t tried p (laws.try-Kept key c d t (p.known k))

      ne_new : (d : Conn) → is_known d s ≡ true → c ≢ d
      ne_new d k same =
          let new = laws.connect-fresh s t c e in let h = ap (λ x. is_known x s) same in cc

      dropped-Acts : Acts key (fresh server) s (fresh server) (close c tried)
      dropped-Acts = record {
        others = λ d k ne.
            let p = tried-Kept d k in
            Kept-trans d s tried (close c tried) p
              (laws.close-Kept c d tried (p.known k) (ne_new d k));
        conn = λ d h. cc;
        lock = λ h d led. cc;
      }

      granted-Acts :
          (try_advisory_lock key c t).0 ≡ some true
          → Acts key (fresh server) s (record { conn = some c; is_leader = true }) tried
      granted-Acts granted = record {
        others = λ d k ne. tried-Kept d k;
        conn = λ d h. inr (subst NewConn (some-injective _ _ h) new);
        lock = λ h d led same.
            subst (λ x. select_one x tried ≡ true → holder key tried ≡ some x)
              (some-injective _ _ same) (laws.try-holder key c t granted);
      }
        where
          NewConn : Conn → Type 0
          NewConn x = (is_known x s ≡ false) × (is_known x tried ≡ true)

          new : NewConn c
          new =
              let k = laws.connect-known s t c e in
              (laws.connect-fresh s t c e, (laws.try-Kept key c c t k).known k)

      with_reply-Acts :
          (reply : Option Bool)
          → (try_advisory_lock key c t).0 ≡ reply
          → (let (b, l', s') = with_reply server c reply tried in Acts key (fresh server) s l' s')
      unfolding with_reply reset
      with_reply-Acts none r = dropped-Acts
      with_reply-Acts (some true) r = granted-Acts r
      with_reply-Acts (some false) r = dropped-Acts

    attempt-Acts :
        (key : ℕ) (s : State)
        → (let (b, l', s') = attempt server key (fresh server) s in Acts key (fresh server) s l' s')
    unfolding attempt reset
    attempt-Acts key s = go (server.connect s) refl
      where
        go :
            (o : Option (Conn × State))
            → server.connect s ≡ o
            → (let (b, l', s') = attempt server key (fresh server) s in
                Acts key (fresh server) s l' s')
        go none e = rw (e, attempt) (reset-Acts key (fresh server) s)
        go (some (c, t)) e =
            rw (e, attempt) (with_reply-Acts key s t c e (try_advisory_lock key c t).0 refl)

    pub acquire-Acts :
        (key : ℕ) (l : Leader server) (s : State)
        → (let (b, l', s') = acquire server key l s in Acts key l s l' s')
    unfolding acquire reset
    acquire-Acts key l s = elim (Bool-cases (l.is_leader && connection_alive server l s)) [
      | inl leads ↦ rw leads (record {
        others = λ d k ne. Kept-refl d s;
        conn = λ d e. inl (e, λ h. h);
        lock = λ h. h;
      })
      | inr stands_by ↦
          rw stands_by (Acts-after_reset key l s _ _ (attempt-Acts key (reset server l s).1))
    ]

    pub release-Acts :
        (key : ℕ) (l : Leader server) (s : State)
        → (let (l', s') = release server key l s in Acts key l s l' s')
    unfolding release
    release-Acts key l s = record {
      others = λ d k ne.
          let p = unlock_others d k ne in
          Kept-trans d s (unlock_conn server key l s) _ p
            (reset_others l (unlock_conn server key l s) d (p.known k) ne);
      conn = unfold reset in λ d e. cc;
      lock = unfold reset in λ h d e. cc;
    }
      where
        unlock_others :
            (d : Conn)
            → is_known d s ≡ true
            → l.conn ≢ some d
            → Kept server d s (unlock_conn server key l s)
        unlock_others d k ne = go l.conn l.is_leader refl refl
          where
            go :
                (o : Option Conn) (b : Bool)
                → l.conn ≡ o
                → l.is_leader ≡ b
                → Kept server d s (unlock_conn server key l s)
            go none b e f = rw e (Kept-refl d s)
            go (some c) true e f =
                rw (e, f) (laws.unlock-Kept key c d s k (λ same. ne (e ∙ ap some same)))
            go (some c) false e f = rw (e, f) (Kept-refl d s)
