-- ===== src/Scheduler/Leader/Replicas.antt =====
-- The schedulers of a deployment, each with a Leader of backend/scheduler/leader.py: their calls, and
-- what else happens to the database, in any order.
use mathlib.Core.Option.{some-injective}
use distributed_asynchronous.Prelude.{
  ℕ, ◌≡◌, refl, sym, ap, ◌∙◌, Bool, true, false, Option, none, some, arith, inl, inr, Bool-cases,
  ◌==◌, if◌then◌else◌,
}
use distributed_asynchronous.Scheduler.Leader.Locks.{LockServer, Kept, Locks}
use distributed_asynchronous.Scheduler.Leader.{Leader, fresh, connection_alive, acquire, release}
use distributed_asynchronous.Scheduler.Leader.Election.{HoldsLock, Acts, acquire-Acts, release-Acts}

module _ (server : LockServer) where
  open server use {State, Conn, select_one, is_known, holder}

  -- The leader object of each scheduler.
  abbrev pub Replicas : Type 0
  Replicas = ℕ → Leader server

  abbrev pub update : Replicas → ℕ → Leader server → Replicas
  update ls i l j = if j == i then l else ls j

  module _ (key : ℕ) (Elsewhere : State → State → Type 0) where
    -- One step: a scheduler calls `acquire` or `release`, or something else happens.
    pub data Step (ls : Replicas) (s : State) : Replicas → State → Type 0 where
      acquires :
          (i : ℕ)
          → Step ls s (update ls i (acquire server key (ls i) s).1) (acquire server key (ls i) s).2
      releases :
          (i : ℕ)
          → Step ls s (update ls i (release server key (ls i) s).0) (release server key (ls i) s).1
      elsewhere : (s' : State) → Elsewhere s s' → Step ls s ls s'

    -- What a deployment reaches from its start, when no scheduler has a connection.
    pub data Reach (start : State) : Replicas → State → Type 0 where
      here : Reach start (λ i. fresh server) start
      next :
          {ls ls' : Replicas} {s s' : State}
          → Reach start ls s
          → Step ls s ls' s'
          → Reach start ls' s'

    -- The connections in use were made, each for one scheduler, and a leader whose session answers
    -- holds the lock.
    record IsElected (ls : Replicas) (s : State) : Type 0 where
      known : (i : ℕ) (d : Conn) → (ls i).conn ≡ some d → is_known d s ≡ true
      distinct : (i j : ℕ) (d : Conn) → (ls i).conn ≡ some d → (ls j).conn ≡ some d → i ≡ j
      lock : (i : ℕ) → HoldsLock server key (ls i) s

    module _ (ls : Replicas) (s : State) (i : ℕ) (l : Leader server) (s' : State)
        (a : Acts server key (ls i) s l s') (inv : IsElected ls s) where
      -- A scheduler other than the one that acts.
      other_Kept : (j : ℕ) (d : Conn) → (j == i) ≡ false → (ls j).conn ≡ some d → Kept server d s s'
      other_Kept j d ne e =
          a.others d (inv.known j d e) (λ same. let eq = inv.distinct i j d same e in ground arith)

      -- Its connection is not the one of the scheduler that acted.
      apart : (j : ℕ) (d : Conn) → (j == i) ≡ false → (ls j).conn ≡ some d → l.conn ≡ some d → ⊥
      apart j d ne e f = elim (a.conn d f) [
        | inl (same, _) ↦ let eq = inv.distinct i j d same e in ground arith
        | inr (new, _) ↦ let old = inv.known j d e in cc
      ]

      own_known : (d : Conn) → l.conn ≡ some d → is_known d s' ≡ true
      own_known d f = elim (a.conn d f) [
        | inl (same, keeps) ↦ keeps (inv.known i d same)
        | inr (_, k) ↦ k
      ]

      Acts-IsElected : IsElected (update ls i l) s'
      Acts-IsElected = record {
        known = λ j d e. elim (Bool-cases (j == i)) [
          | inl same ↦ own_known d (rw same at e)
          | inr ne ↦ (other_Kept j d ne (rw ne at e)).known (inv.known j d (rw ne at e))
        ];
        distinct = λ j k d e f. distinct' j k d (j == i) (k == i) refl refl e f;
        lock = λ j. elim (Bool-cases (j == i)) [
          | inl same ↦ rw same (a.lock (inv.lock i))
          | inr ne ↦ rw ne λ d led e answers.
              let p = other_Kept j d ne e in
              p.holds key answers (inv.lock j d led e (p.answers answers))
        ];
      }
        where
          distinct' :
              (j k : ℕ) (d : Conn) (x y : Bool)
              → (j == i) ≡ x
              → (k == i) ≡ y
              → (update ls i l j).conn ≡ some d
              → (update ls i l k).conn ≡ some d
              → j ≡ k
          distinct' j k d true true p q e f = ground arith
          distinct' j k d true false p q e f = absurd (apart k d q (rw q at f) (rw p at e))
          distinct' j k d false true p q e f = absurd (apart j d p (rw p at e) (rw q at f))
          distinct' j k d false false p q e f = inv.distinct j k d (rw p at e) (rw q at f)

    module _ (laws : Locks server Elsewhere) where
      Step-IsElected :
          {ls : Replicas} {s : State} {ls' : Replicas} {s' : State}
          → Step ls s ls' s'
          → IsElected ls s
          → IsElected ls' s'
      Step-IsElected {ls} {s = s} (acquires i) inv =
          Acts-IsElected ls s i (acquire server key (ls i) s).1 (acquire server key (ls i) s).2
            (acquire-Acts server Elsewhere laws key (ls i) s) inv
      Step-IsElected {ls} {s = s} (releases i) inv =
          Acts-IsElected ls s i (release server key (ls i) s).0 (release server key (ls i) s).1
            (release-Acts server Elsewhere laws key (ls i) s) inv
      Step-IsElected {ls} {s = s} (elsewhere s' w) inv = record {
        known = λ i d e. (kept i d e).known (inv.known i d e);
        distinct = inv.distinct;
        lock = λ i d led e answers.
            (kept i d e).holds key answers (inv.lock i d led e ((kept i d e).answers answers));
      }
        where
          kept : (i : ℕ) (d : Conn) → (ls i).conn ≡ some d → Kept server d s s'
          kept i d e = laws.elsewhere-Kept s s' d w (inv.known i d e)

      Reach-IsElected :
          {start : State} {ls : Replicas} {s : State} → Reach start ls s → IsElected ls s
      Reach-IsElected here = record {
        known = λ i d e. cc;
        distinct = λ i j d e. cc;
        lock = λ i d led. cc;
      }
      Reach-IsElected (next r st) = Step-IsElected st (Reach-IsElected r)

      -- A scheduler that takes itself for the leader, on a session that still answers.
      abbrev pub Leads : Replicas → State → ℕ → Type 0
      Leads ls s i = ((ls i).is_leader ≡ true) × (connection_alive server (ls i) s ≡ true)

      leader_holds :
          (l : Leader server) (s : State)
          → HoldsLock server key l s
          → l.is_leader ≡ true
          → connection_alive server l s ≡ true
          → (d : Conn) × (l.conn ≡ some d) × (holder key s ≡ some d)
      unfolding connection_alive
      leader_holds l s h led alive = go l.conn refl
        where
          go :
              (o : Option Conn)
              → l.conn ≡ o
              → (d : Conn) × (l.conn ≡ some d) × (holder key s ≡ some d)
          go none e = absurd (let f = rw e at alive in cc)
          go (some d) e = (d, e, h d led e (rw e at alive))

      -- On a server with the laws of advisory locks, whatever the schedulers call and whatever else
      -- happens to the server, in any order: two schedulers that take themselves for the leader, on
      -- sessions that still answer, are the same.
      pub one_leader :
          {start : State} {ls : Replicas} {s : State} (i j : ℕ)
          → Reach start ls s
          → Leads ls s i
          → Leads ls s j
          → i ≡ j
      one_leader {ls = ls} {s = s} i j r (led_i, alive_i) (led_j, alive_j) =
          let inv = Reach-IsElected r in
          let (c, conn_i, held_i) = leader_holds (ls i) s (inv.lock i) led_i alive_i in
          let (d, conn_j, held_j) = leader_holds (ls j) s (inv.lock j) led_j alive_j in
          let same : c ≡ d = some-injective _ _ (sym held_i ∙ held_j) in
          inv.distinct i j d (conn_i ∙ ap some same) conn_j
