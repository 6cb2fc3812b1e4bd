-- ===== src/Poller/Order.antt =====
-- enhancement-poller.go: no group is lost, repeated or moved between a read and the callback.
use gomodbus.Prelude.{
  ℕ, suc, ◌≤◌, ◌<◌, ◌≡◌, ◌≢◌, inl, inr, refl, sym, ap, ◌∙◌, Bool, true, false, Bool-cases, List, [],
  ◌∷◌, ◌++◌, ◌==◌, ==_iff, ==_refl, length, length-append, append-nil, append_assoc, if◌then◌else◌,
  arith,
}
use gomodbus.Poller.{
  Consumer, waiting, calling, returned, Caller, running, joining, stopping, stopped, Loop,
  selecting, reading, pushing, ended, Manager, System, Setup, set, Step, tick, quit, round, poll,
  push, hand, lose, pushed, take, back, exit, stop, join, close, done, started, Steps, here, next,
}

pub set-same : {A : Type 0} (i : ℕ) (v : A) (f : ℕ → A) → set i v f i ≡ v
unfolding set
set-same i v f = rw (==_refl i) refl

-- What holds of the new value at its index, and of the others, holds at each index.
pub set_all :
    {A : Type 0} (P : ℕ → A → Type 0) (i : ℕ) (v : A) (f : ℕ → A)
    → P i v
    → ((j : ℕ) → (j == i) ≡ false → P j (f j))
    → (j : ℕ) → P j (set i v f j)
unfolding set
set_all P i v f h others j = elim (Bool-cases (j == i)) [
  | inl e ↦ rw (e, (==_iff j i).0 e) h
  | inr e ↦ rw e (others j e)
]

-- A goroutine returns when its channel is closed.
abbrev pub HasReturned : Consumer → Bool → Type 0
HasReturned returned c = c ≡ true
HasReturned _ c = Unit {0}

HasReturned-receive : (b : Bool) (c : Bool) → HasReturned (if b then calling else waiting) c
HasReturned-receive true c = tt
HasReturned-receive false c = tt

HasReturned-closed : (c : Consumer) → HasReturned c true
HasReturned-closed waiting = tt
HasReturned-closed calling = tt
HasReturned-closed returned = refl

pub clash : {b : Bool} → b ≡ false → b ≡ true → ⊥
clash e f = cc

module _ {G : Type 0} where
  -- The groups that the loop has still to push to a manager.
  unfoldable pub pending : Loop G → ℕ → List G
  pending (pushing i gs) j = if j == i then gs else []
  pending selecting j = []
  pending ended j = []
  pending (reading i) j = []

  pub pending-same : (i : ℕ) (gs : List G) → pending (pushing i gs) i ≡ gs
  unfolding pending
  pending-same i gs = rw (==_refl i) refl

  pub pending-other : (i j : ℕ) (gs : List G) → (j == i) ≡ false → pending (pushing i gs) j ≡ []
  unfolding pending
  pending-other i j gs e = rw e refl

  pending-nil : (i j : ℕ) → pending (pushing i []) j ≡ []
  unfolding pending
  pending-nil i j = if_same (j == i)
    where
      if_same : (b : Bool) → ◌≡◌ {A = List G} (if b then [] else []) []
      if_same true = refl
      if_same false = refl

  -- While the loop runs, the channels that stop the managers are open.
  abbrev pub IsOpen : Loop G → Bool → Type 0
  IsOpen ended c = Unit {0}
  IsOpen _ c = c ≡ false

  unclosed_of : (l : Loop G) (c : Bool) → c ≡ false → IsOpen l c
  unclosed_of selecting c h = h
  unclosed_of ended c h = tt
  unclosed_of (reading i) c h = h
  unclosed_of (pushing i gs) c h = h

  pub record IsKept (capacity : ℕ) (l : Loop G) (groups : List G) (m : Manager G) : Type 0 where
    pub order : m.taken ++ (m.queue ++ groups) ≡ m.read
    pub fits : length m.queue ≤ capacity
    pub unclosed : IsOpen l m.closed
    pub signal : HasReturned m.consumer m.closed

  -- After `Wait`, the goroutine of the poller has ended; and before `Stop` its channel is open.
  abbrev pub HasJoined : ℕ → Caller → Loop G → Bool → Type 0
  HasJoined count running l c = Unit {0}
  HasJoined count joining l c = c ≡ true
  HasJoined count (stopping i) l c = (l ≡ ended) × (c ≡ true) × (i ≤ count)
  HasJoined count stopped l c = (l ≡ ended) × (c ≡ true)

  -- The loop is at a manager that there is.
  abbrev pub IsWithin : ℕ → Loop G → Type 0
  IsWithin count (reading i) = i ≤ count
  IsWithin count (pushing i gs) = i < count
  IsWithin count _ = Unit {0}

  pub record IsConsistent (setup : Setup G) (s : System G) : Type 0 where
    pub kept : (j : ℕ) → IsKept (setup.capacity j) s.loop (pending s.loop j) (s.managers j)
    pub joined : HasJoined setup.count s.caller s.loop s.closed
    pub within : IsWithin setup.count s.loop

  -- A loop that has not ended may go on to another place.
  HasJoined-move :
      (count : ℕ) (c : Caller) (l k : Loop G) (closed : Bool)
      → l ≢ ended
      → HasJoined count c l closed
      → HasJoined count c k closed
  HasJoined-move count running l k closed n h = tt
  HasJoined-move count joining l k closed n h = h
  HasJoined-move count (stopping i) l k closed n h = absurd (n h.0)
  HasJoined-move count stopped l k closed n h = absurd (n h.0)

  IsOpen-move : (l k : Loop G) (c : Bool) → l ≢ ended → IsOpen l c → IsOpen k c
  IsOpen-move selecting k c n h = unclosed_of k c h
  IsOpen-move ended k c n h = absurd (n refl)
  IsOpen-move (reading i) k c n h = unclosed_of k c h
  IsOpen-move (pushing i gs) k c n h = unclosed_of k c h

  IsKept-move :
      (capacity : ℕ) (l k : Loop G) (groups others : List G) (m : Manager G)
      → l ≢ ended
      → groups ≡ others
      → IsKept capacity l groups m
      → IsKept capacity k others m
  IsKept-move capacity l k groups others m n e h = record {
    order = ap (λ t. m.taken ++ (m.queue ++ t)) (sym e) ∙ h.order;
    fits = h.fits;
    unclosed = IsOpen-move l k m.closed n h.unclosed;
    signal = h.signal;
  }

  order-read :
      (taken queue given gs : List G)
      → taken ++ (queue ++ []) ≡ given
      → taken ++ (queue ++ gs) ≡ given ++ gs
  order-read taken queue given gs e =
      sym (append_assoc taken queue gs)
      ∙ ap (λ t. t ++ gs) (ap (λ t. taken ++ t) (sym (append-nil queue)) ∙ e)

  order-take :
      (taken queue groups : List G) (g : G)
      → (taken ++ (g ∷ [])) ++ (queue ++ groups) ≡ taken ++ (g ∷ (queue ++ groups))
  order-take taken queue groups g = append_assoc taken (g ∷ []) (queue ++ groups)

  order-push :
      (taken queue gs : List G) (g : G)
      → taken ++ ((queue ++ (g ∷ [])) ++ gs) ≡ taken ++ (queue ++ (g ∷ gs))
  order-push taken queue gs g = ap (λ t. taken ++ t) (append_assoc queue (g ∷ []) gs)

  module _ (setup : Setup G) where
    -- A step that only moves the loop, from a place with no groups to another one.
    moved :
        (s : System G) (l k : Loop G)
        → s.loop ≡ l
        → l ≢ ended
        → ((j : ℕ) → pending l j ≡ pending k j)
        → IsWithin setup.count k
        → IsConsistent setup s
        → IsConsistent setup (record s { loop = k })
    moved s l k e n p w h = record {
      kept = λ j. IsKept-move (setup.capacity j) l k _ _ (s.managers j) n (p j) (rw e at h.kept j);
      joined = HasJoined-move setup.count s.caller l k s.closed n (rw e at h.joined);
      within = w;
    }

    -- A step of the loop with one manager, from a place with no groups for the others.
    moved_with :
        (s : System G) (l : Loop G) (i : ℕ) (gs : List G) (m : Manager G)
        → s.loop ≡ l
        → l ≢ ended
        → ((j : ℕ) → (j == i) ≡ false → pending l j ≡ [])
        → i < setup.count
        → IsKept (setup.capacity i) (pushing i gs) gs m
        → IsConsistent setup s
        → IsConsistent setup (record s { loop = pushing i gs; managers = set i m s.managers })
    moved_with s l i gs m e n none within new h = record {
      kept =
          set_all (λ j. IsKept (setup.capacity j) (pushing i gs) (pending (pushing i gs) j)) i m
            s.managers (rw (pending-same i gs) new)
            (λ j d.
              IsKept-move (setup.capacity j) l (pushing i gs) _ _ (s.managers j) n
                (none j d ∙ sym (pending-other i j gs d)) (rw e at h.kept j));
      joined = HasJoined-move setup.count s.caller l (pushing i gs) s.closed n (rw e at h.joined);
      within = within;
    }

    -- A step of the goroutine of one manager.
    changed :
        (s : System G) (i : ℕ) (m : Manager G)
        → IsKept (setup.capacity i) s.loop (pending s.loop i) m
        → IsConsistent setup s
        → IsConsistent setup (record s { managers = set i m s.managers })
    changed s i m new h = record {
      kept =
          set_all (λ j. IsKept (setup.capacity j) s.loop (pending s.loop j)) i m s.managers new
            (λ j e. h.kept j);
      joined = h.joined;
      within = h.within;
    }

    -- What the loop has still to push to the manager that it is at.
    at_manager :
        (s : System G) (i : ℕ) (gs : List G)
        → s.loop ≡ pushing i gs
        → IsConsistent setup s
        → IsKept (setup.capacity i) (pushing i gs) gs (s.managers i)
    at_manager s i gs e h = rw (pending-same i gs) at (rw e at h.kept i)

    pub Step-IsConsistent :
        {s t : System G} → Step setup s t → IsConsistent setup s → IsConsistent setup t
    unfolding pending
    Step-IsConsistent {s = s} (tick e) h =
        moved s selecting (reading 0) e (λ p. cc) (λ j. refl) (omega arith) h
    Step-IsConsistent {s = s} (quit e c) h = record {
      kept = λ j.
          IsKept-move (setup.capacity j) selecting ended _ _ (s.managers j) (λ p. cc) refl
            (rw e at h.kept j);
      joined =
          HasJoined-move setup.count s.caller selecting ended s.closed (λ p. cc) (rw e at h.joined);
      within = tt;
    }
    Step-IsConsistent {s = s} (round e) h =
        moved s (reading setup.count) selecting e (λ p. cc) (λ j. refl) tt h
    Step-IsConsistent {s = s} (poll i gs e b g) h =
        let old = h.kept i in
        moved_with s (reading i) i gs _ e (λ p. cc) (λ j n. refl) b
          (record {
            order =
                order-read (s.managers i).taken (s.managers i).queue (s.managers i).read gs
                  (rw e at old.order);
            fits = old.fits;
            unclosed = rw e at old.unclosed;
            signal = old.signal;
          })
          h
    Step-IsConsistent {s = s} (push i g gs e room) h =
        let old = at_manager s i (g ∷ gs) e h in
        moved_with s (pushing i (g ∷ gs)) i gs _ e (λ p. cc) (λ j n. pending-other i j (g ∷ gs) n)
          (rw e at h.within)
          (record {
            order = order-push (s.managers i).taken (s.managers i).queue gs g ∙ old.order;
            fits = omega (arith, length-append (s.managers i).queue (g ∷ []));
            unclosed = old.unclosed;
            signal = old.signal;
          })
          h
    Step-IsConsistent {s = s} (hand i g gs e q w) h =
        let old = at_manager s i (g ∷ gs) e h in
        moved_with s (pushing i (g ∷ gs)) i gs _ e (λ p. cc) (λ j n. pending-other i j (g ∷ gs) n)
          (rw e at h.within)
          (record {
            order = order-take (s.managers i).taken [] gs g ∙ (rw q at old.order);
            fits = omega arith;
            unclosed = old.unclosed;
            signal = HasReturned-receive (setup.has_on_data i) (s.managers i).closed;
          })
          h
    Step-IsConsistent {s = s} (lose i g gs e c) h =
        absurd (clash (at_manager s i (g ∷ gs) e h).unclosed c)
    Step-IsConsistent {s = s} (pushed i e) h =
        moved s (pushing i []) (reading (suc i)) e (λ p. cc) (pending-nil i)
          (omega (arith, rw e at h.within)) h
    Step-IsConsistent {s = s} (take i g gs b w q) h =
        let old = h.kept i in
        changed s i _
          (record {
            order = order-take (s.managers i).taken gs (pending s.loop i) g ∙ (rw q at old.order);
            fits = omega (arith, rw q at old.fits);
            unclosed = old.unclosed;
            signal = HasReturned-receive (setup.has_on_data i) (s.managers i).closed;
          })
          h
    Step-IsConsistent {s = s} (back i w) h =
        let old = h.kept i in
        changed s i _
          (record { order = old.order; fits = old.fits; unclosed = old.unclosed; signal = tt }) h
    Step-IsConsistent {s = s} (exit i w c) h =
        let old = h.kept i in
        changed s i _
          (record { order = old.order; fits = old.fits; unclosed = old.unclosed; signal = c }) h
    Step-IsConsistent {s = s} (stop e) h = record {
      kept = h.kept;
      joined = refl;
      within = h.within;
    }
    Step-IsConsistent {s = s} (join e l) h = record {
      kept = h.kept;
      joined = (l, rw e at h.joined, omega arith);
      within = h.within;
    }
    Step-IsConsistent {s = s} (close i e b) h =
        let open_before : HasJoined setup.count (stopping i) s.loop s.closed = rw e at h.joined in
        let old = h.kept i in
        let now =
          changed s i (record (s.managers i) { closed = true })
            (record {
              order = old.order;
              fits = old.fits;
              unclosed = rw (open_before.0) tt;
              signal = HasReturned-closed (s.managers i).consumer;
            })
            h in
        record { kept = now.kept; joined = (open_before.0, open_before.1, b); within = h.within }
    Step-IsConsistent {s = s} (done e) h =
        let before : HasJoined setup.count (stopping setup.count) s.loop s.closed =
          rw e at h.joined in
        record { kept = h.kept; joined = (before.0, before.1); within = h.within }

    pub Steps-IsConsistent : {s : System G} → Steps setup started s → IsConsistent setup s
    unfolding pending
    Steps-IsConsistent here = record {
      kept = λ j. record { order = refl; fits = omega arith; unclosed = refl; signal = tt };
      joined = tt;
      within = tt;
    }
    Steps-IsConsistent (next r step) = Step-IsConsistent step (Steps-IsConsistent r)

    -- Whatever order the goroutines of the poller, of its managers and of the caller of `Stop` run in,
    -- and whatever the reads give: the groups that the goroutine of a manager has received, those of its
    -- channel and those that the poller has still to push to it, one after the other, are the groups
    -- that its reads gave, so that `Push` loses none; and the channel holds no more than its capacity.
    pub groups_in_order :
        {s : System G}
        → Steps setup started s
        → (j : ℕ)
        → ((s.managers j).taken ++ ((s.managers j).queue ++ pending s.loop j) ≡ (s.managers j).read)
          × (length (s.managers j).queue ≤ setup.capacity j)
    groups_in_order r j = let kept = (Steps-IsConsistent r).kept j in (kept.order, kept.fits)
