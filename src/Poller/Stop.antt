-- ===== src/Poller/Stop.antt =====
-- enhancement-poller.go: `Stop` never waits for ever.
use gomodbus.Prelude.{
  ℕ, zero, suc, ◌+◌, ◌-◌, ◌≤◌, ◌<◌, ◌≡◌, ◌≢◌, refl, ap, ◌∙◌, true, List, [], ◌∷◌, length, arith,
}
use gomodbus.Poller.{
  Consumer, waiting, calling, returned, Caller, running, joining, stopping, stopped, Loop,
  selecting, reading, pushing, ended, System, Setup, receive, Step, quit, round, poll, push, hand,
  pushed, take, back, join, close, done, started, Steps, here, next,
}
use gomodbus.Poller.Order.{
  set-same, clash, HasJoined, IsConsistent, Step-IsConsistent, Steps-IsConsistent,
}

module _ {G : Type 0} (setup : Setup G) where
  Steps-trans : {s t u : System G} → Steps setup s t → Steps setup t u → Steps setup s u
  Steps-trans r here = r
  Steps-trans r (next q step) = next (Steps-trans r q) step

  -- The call of `Stop` can come to its end.
  unfoldable pub CanReturn : System G → Type 0
  CanReturn s = (t : System G) × Steps setup s t × (t.caller ≡ stopped)

  after : {s t : System G} → Step setup s t → CanReturn t → CanReturn s
  unfolding CanReturn
  after step (t, r, e) = (t, Steps-trans (next here step) r, e)

  -- The loop over the managers in `Stop`.
  from_stopping :
      (n i : ℕ) (s : System G) → s.caller ≡ stopping i → n + i ≡ setup.count → CanReturn s
  unfolding CanReturn
  from_stopping zero i s e h =
      let last : stopping i ≡ stopping setup.count = ap stopping (omega (arith, h)) in
      (_, next here (done (e ∙ last)), refl)
  from_stopping (suc n) i s e h =
      after (close i e (omega (arith, h))) (from_stopping n (suc i) _ refl (omega (arith, h)))

  from_ended : (s : System G) → s.caller ≡ joining → s.loop ≡ ended → CanReturn s
  from_ended s e l = after (join e l) (from_stopping setup.count 0 _ refl (omega arith))

  -- Where the poller is while the caller of `Stop` waits for it.
  pub record IsWaiting (l : Loop G) (s : System G) : Type 0 where
    pub consistent : IsConsistent setup s
    pub caller : s.caller ≡ joining
    pub loop : s.loop ≡ l

  from_selecting : (s : System G) → IsWaiting selecting s → CanReturn s
  from_selecting s w =
      let closed : s.closed ≡ true = rw w.caller at w.consistent.joined in
      after (quit w.loop closed) (from_ended _ w.caller refl)

  -- The rest of a push, when the goroutine of the manager waits: into its hands, or into the buffer
  -- after it has taken a group.
  push_one :
      (i : ℕ) (g : G) (gs queue : List G) (s : System G)
      → IsWaiting (pushing i (g ∷ gs)) s
      → (s.managers i).consumer ≡ waiting
      → (s.managers i).queue ≡ queue
      → ((t : System G) → IsWaiting (pushing i gs) t → CanReturn t)
      → CanReturn s
  push_one i g gs [] s w c q rest =
      let step = hand i g gs w.loop q c in
      after step (
        rest _ (record {
          consistent = Step-IsConsistent setup step w.consistent;
          caller = w.caller;
          loop = refl;
        }))
  push_one i g gs (x ∷ queue) s w c q rest =
      let here_now : i < setup.count = rw w.loop at w.consistent.within in
      let first = take i x queue here_now c q in
      let between = Step-IsConsistent setup first w.consistent in
      let full : suc (length queue) ≤ setup.capacity i = rw q at (w.consistent.kept i).fits in
      let second =
        push i g gs w.loop (
          rw (set-same i (receive (setup.has_on_data i) x queue (s.managers i)) s.managers) full) in
      after first (
        after second (
          rest _ (record {
            consistent = Step-IsConsistent setup second between;
            caller = w.caller;
            loop = refl;
          })))

  -- The same wherever the goroutine of the manager is: it has not returned, since its channel is open.
  push_from :
      (c : Consumer) (i : ℕ) (g : G) (gs : List G) (s : System G)
      → IsWaiting (pushing i (g ∷ gs)) s
      → (s.managers i).consumer ≡ c
      → ((t : System G) → IsWaiting (pushing i gs) t → CanReturn t)
      → CanReturn s
  push_from waiting i g gs s w c rest = push_one i g gs (s.managers i).queue s w c refl rest
  push_from calling i g gs s w c rest =
      let step = back i c in
      after step (
        push_one i g gs (s.managers i).queue _
          (record {
            consistent = Step-IsConsistent setup step w.consistent;
            caller = w.caller;
            loop = w.loop;
          })
          (ap (λ m. m.consumer)
            (set-same i (record (s.managers i) { consumer = waiting }) s.managers))
          (ap (λ m. m.queue) (set-same i (record (s.managers i) { consumer = waiting }) s.managers))
          rest)
  push_from returned i g gs s w c rest =
      let kept = w.consistent.kept i in
      absurd (clash (rw w.loop at kept.unclosed) (rw c at kept.signal))

  push_all :
      (i : ℕ) (gs : List G)
      → ((t : System G) → IsWaiting (pushing i []) t → CanReturn t)
      → (s : System G) → IsWaiting (pushing i gs) s
      → CanReturn s
  push_all i [] rest s w = rest s w
  push_all i (g ∷ gs) rest s w =
      push_from (s.managers i).consumer i g gs s w refl (push_all i gs rest)

  module _ (answers : (i : ℕ) → i < setup.count → (gs : List G) × setup.Gives i gs) where
    from_pushed :
        (i : ℕ) (s : System G)
        → IsWaiting (pushing i []) s
        → ((t : System G) → IsWaiting (reading (suc i)) t → CanReturn t)
        → CanReturn s
    from_pushed i s w rest =
        let step = pushed i w.loop in
        after step (
          rest _ (record {
            consistent = Step-IsConsistent setup step w.consistent;
            caller = w.caller;
            loop = refl;
          }))

    -- The rest of the loop over the managers.
    from_reading :
        (n i : ℕ) (s : System G) → IsWaiting (reading i) s → n + i ≡ setup.count → CanReturn s
    from_reading zero i s w h =
        let step = round (w.loop ∙ ap reading (omega (arith, h))) in
        after step (
          from_selecting _ (record {
            consistent = Step-IsConsistent setup step w.consistent;
            caller = w.caller;
            loop = refl;
          }))
    from_reading (suc n) i s w h =
        let (gs, given) = answers i (omega (arith, h)) in
        let count : n + suc i ≡ setup.count = omega (arith, h) in
        let step = poll i gs w.loop (omega (arith, h)) given in
        after step (
          push_all i gs (λ t v. from_pushed i t v (λ u x. from_reading n (suc i) u x count)) _
            (record {
              consistent = Step-IsConsistent setup step w.consistent;
              caller = w.caller;
              loop = refl;
            }))

    -- Wherever the goroutine of the poller is when `Stop` waits for it.
    from_joining : (l : Loop G) (s : System G) → IsWaiting l s → CanReturn s
    from_joining selecting s w = from_selecting s w
    from_joining ended s w = from_ended s w.caller w.loop
    from_joining (reading i) s w =
        let place : i ≤ setup.count = rw w.loop at w.consistent.within in
        from_reading (setup.count - i) i s w (omega (arith, place))
    from_joining (pushing i gs) s w =
        let place : i < setup.count = rw w.loop at w.consistent.within in
        push_all i gs
          (λ t v.
            from_pushed i t v
              (λ u x. from_reading (setup.count - suc i) (suc i) u x (omega (arith, place))))
          s w

    from_caller :
        (c : Caller) (s : System G)
        → s.caller ≡ c
        → c ≢ running
        → IsConsistent setup s
        → CanReturn s
    unfolding CanReturn
    from_caller running s e n h = absurd (n refl)
    from_caller joining s e n h =
        from_joining s.loop s (record { consistent = h; caller = e; loop = refl })
    from_caller (stopping i) s e n h =
        let place : HasJoined setup.count (stopping i) s.loop s.closed = rw e at h.joined in
        from_stopping (setup.count - i) i s e (omega (arith, place.2))
    from_caller stopped s e n h = (s, here, e)

    -- If each read gives some groups, then from every state that the goroutines come to after `Stop`
    -- was called there are steps after which `Stop` has returned: no group that waits for room in a
    -- channel, and no manager that was not read yet, can keep it for ever.
    pub stop_returns :
        {s : System G}
        → Steps setup started s
        → s.caller ≢ running
        → (t : System G) × Steps setup s t × (t.caller ≡ stopped)
    unfolding CanReturn
    stop_returns {s = s} r n = from_caller s.caller s refl n (Steps-IsConsistent setup r)
