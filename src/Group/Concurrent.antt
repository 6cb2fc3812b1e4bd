-- ===== src/Group/Concurrent.antt =====
-- enhancement-group.go: `ReadGroupedDataConcurrently`, whose goroutines read blocks over one client.
-- A goroutine first sets the slave of the client and then sends a request, which is built with the
-- slave that the client has at that time; the goroutines interleave in any order. The blocks are not
-- empty and have a function and a quantity that the client sends a request for.
use gomodbus.Prelude.{
  ℕ, ◌≡◌, ◌↔◌, refl, sym, ap, ◌∙◌, List, [], ◌∷◌, ◌++◌, map, All, All-middle, All-replace,
}
use mathlib.Core.Path.{subst}

pub data Phase : Type 0 where
  created selected : Phase
  requested : ℕ → Phase

-- A goroutine: the slave of its block, and how far it is. The slave of its request is kept.
pub record Worker : Type 0 where
  pub slaver_id : ℕ
  pub phase : Phase

-- The slave that the client has, and the goroutines.
pub record System : Type 0 where
  pub slave_id : ℕ
  pub workers : List Worker

pub data Step (s : System) : System → Type 0 where
  -- `client.SetSlaveId(group[0].SlaverId)`
  select :
      (front : List Worker) (slave : ℕ) (back : List Worker)
      → s.workers ≡ front ++ (record { slaver_id = slave; phase = created } ∷ back)
      → Step s (record {
        slave_id = slave;
        workers = front ++ (record { slaver_id = slave; phase = selected } ∷ back);
      })
  -- the read of the client, which encodes the request
  request :
      (front : List Worker) (slave : ℕ) (back : List Worker)
      → s.workers ≡ front ++ (record { slaver_id = slave; phase = selected } ∷ back)
      → Step s (record s {
        workers = front ++ (record { slaver_id = slave; phase = requested s.slave_id } ∷ back);
      })

abbrev pub create : ℕ → Worker
create slave = record { slaver_id = slave; phase = created }

-- A goroutine for each block, over a client with some slave.
abbrev pub started : ℕ → List ℕ → System
started slave_id slaves = record { slave_id = slave_id; workers = map create slaves }

pub data Reach (slave_id : ℕ) (slaves : List ℕ) : System → Type 0 where
  here : Reach slave_id slaves (started slave_id slaves)
  next : {s t : System} → Reach slave_id slaves s → Step s t → Reach slave_id slaves t

-- The request of a goroutine goes to the slave of its block.
abbrev pub GoesTo : ℕ → Phase → Type 0
GoesTo slave created = Unit {0}
GoesTo slave selected = Unit {0}
GoesTo slave (requested k) = k ≡ slave

abbrev pub IsDirected : Worker → Type 0
IsDirected w = GoesTo w.slaver_id w.phase

abbrev pub AreSame : List ℕ → Type 0
AreSame [] = Unit {0}
AreSame (k ∷ ks) = All (λ j. j ≡ k) ks

-- While all blocks are of one slave, a goroutine that has set the slave finds it set.
abbrev HasSlave : ℕ → ℕ → Phase → Type 0
HasSlave k current created = Unit {0}
HasSlave k current selected = current ≡ k
HasSlave k current (requested j) = j ≡ k

abbrev IsOf : ℕ → ℕ → Worker → Type 0
IsOf k current w = (w.slaver_id ≡ k) × HasSlave k current w.phase

HasSlave-set : (k current : ℕ) (p : Phase) → HasSlave k current p → HasSlave k k p
HasSlave-set k current created h = tt
HasSlave-set k current selected h = refl
HasSlave-set k current (requested j) h = h

IsOf-set : (k current : ℕ) (ws : List Worker) → All (IsOf k current) ws → All (IsOf k k) ws
IsOf-set k current [] h = tt
IsOf-set k current (w ∷ ws) ((e, h), hs) =
    ((e, HasSlave-set k current w.phase h), IsOf-set k current ws hs)

Step-IsOf :
    (k : ℕ) {s t : System}
    → Step s t
    → All (IsOf k s.slave_id) s.workers
    → All (IsOf k t.slave_id) t.workers
Step-IsOf k {s = s} (select front slave back e) h =
    let old : All (IsOf k s.slave_id) (front ++ (create slave ∷ back)) =
      subst (All (IsOf k s.slave_id)) e h in
    let same = (All-middle (IsOf k s.slave_id) front back (create slave) old).0 in
    let now = IsOf-set k s.slave_id (front ++ (create slave ∷ back)) old in
    subst (λ c. All (IsOf k c) (front ++ (record { slaver_id = slave; phase = selected } ∷ back)))
      (sym same) (All-replace (IsOf k k) front back (create slave) _ now (same, refl))
Step-IsOf k {s = s} (request front slave back e) h =
    let old = subst (All (IsOf k s.slave_id)) e h in
    let now = All-middle (IsOf k s.slave_id) front back _ old in
    All-replace (IsOf k s.slave_id) front back _ _ old (now.0, now.1)

create-IsOf :
    (k current : ℕ) (ks : List ℕ) → All (λ j. j ≡ k) ks → All (IsOf k current) (map create ks)
create-IsOf k current [] h = tt
create-IsOf k current (j ∷ ks) (e, h) = ((e, tt), create-IsOf k current ks h)

Reach-IsOf :
    (k current : ℕ) (ks : List ℕ)
    → All (λ j. j ≡ k) ks
    → {s : System} → Reach current ks s
    → All (IsOf k s.slave_id) s.workers
Reach-IsOf k current ks h here = create-IsOf k current ks h
Reach-IsOf k current ks h (next r step) = Step-IsOf k step (Reach-IsOf k current ks h r)

IsOf-IsDirected : (k current : ℕ) (ws : List Worker) → All (IsOf k current) ws → All IsDirected ws
IsOf-IsDirected k current [] h = tt
IsOf-IsDirected k current (w ∷ ws) ((e, h), hs) =
    (one w.phase w.slaver_id e h, IsOf-IsDirected k current ws hs)
  where
    one : (p : Phase) (slave : ℕ) → slave ≡ k → HasSlave k current p → GoesTo slave p
    one created slave e h = tt
    one selected slave e h = tt
    one (requested j) slave e h = h ∙ sym e

map-append : (ks js : List ℕ) → map create (ks ++ js) ≡ map create ks ++ map create js
map-append [] js = refl
map-append (k ∷ ks) js = ap (λ t. create k ∷ t) (map-append ks js)

-- What holds of a member wherever it stands holds of all.
All-members :
    (P : ℕ → Type 0) (ks : List ℕ)
    → ((front : List ℕ) (j : ℕ) (back : List ℕ) → ks ≡ front ++ (j ∷ back) → P j)
    → All P ks
All-members P [] h = tt
All-members P (j ∷ ks) h =
    (h [] j ks refl, All-members P ks (λ front i back e. h (j ∷ front) i back (ap (λ t. j ∷ t) e)))

abbrev mixed : ℕ → ℕ → List ℕ → List ℕ → System
mixed k j front back = record {
  slave_id = j;
  workers =
      record { slaver_id = k; phase = requested j }
      ∷ (map create front ++ (record { slaver_id = j; phase = selected } ∷ map create back));
}

-- The first goroutine sets its slave, a second one sets another, and the first one sends.
misdirected :
    (current k j : ℕ) (front back : List ℕ)
    → Reach current (k ∷ (front ++ (j ∷ back))) (mixed k j front back)
misdirected current k j front back =
    let others = map-append front (j ∷ back) in
    let first = next here (select [] k (map create (front ++ (j ∷ back))) refl) in
    let second = next first (
      select (record { slaver_id = k; phase = selected } ∷ map create front) j (map create back)
        (ap (λ t. record { slaver_id = k; phase = selected } ∷ t) others)) in
    next second (
      request [] k
        (map create front ++ (record { slaver_id = j; phase = selected } ∷ map create back)) refl)

-- However the goroutines interleave, every request goes to the slave of its block, exactly when all
-- blocks are of the same slave: the slave is a field of the client that they share.
pub requests-IsDirected_iff :
    (current : ℕ) (slaves : List ℕ)
    → ((s : System) → Reach current slaves s → All IsDirected s.workers) ↔ AreSame slaves
requests-IsDirected_iff current [] =
    (λ h. tt, λ h s r. IsOf-IsDirected 0 s.slave_id s.workers (Reach-IsOf 0 current [] tt r))
requests-IsDirected_iff current (k ∷ ks) = (
  λ h.
      All-members (λ j. j ≡ k) ks
        (λ front j back e.
          (h _ (
            subst (λ t. Reach current (k ∷ t) (mixed k j front back)) (sym e)
              (misdirected current k j front back))).0),
  λ h s r. IsOf-IsDirected k s.slave_id s.workers (Reach-IsOf k current (k ∷ ks) (refl, h) r),
)
