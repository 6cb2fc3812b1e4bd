-- ===== src/Tests/Pollers.antt =====
-- A poller of two managers, stopped while it pushes two groups of the first one.
use gomodbus.Prelude.{ℕ, ◌≤◌, ◌≡◌, refl, true, [], ◌∷◌, ◌++◌, length, arith}
use gomodbus.Poller.{
  stopped, System, Setup, set, tick, poll, hand, stop, started, Steps, here, next,
}
use gomodbus.Poller.Order.{pending, groups_in_order}
use gomodbus.Poller.Stop.{stop_returns}

abbrev two_managers : Setup ℕ
two_managers = record {
  count = 2;
  capacity = λ i. i;
  has_on_data = λ i. true;
  Gives = λ i gs. gs ≡ (7 ∷ 8 ∷ []);
}

abbrev busy : (s : System ℕ) × Steps two_managers started s
unfolding set
busy =
    let first = next here (tick refl) in
    let second = next first (poll 0 (7 ∷ 8 ∷ []) refl (omega arith) refl) in
    let third = next second (hand 0 7 (8 ∷ []) refl refl refl) in (_, next third (stop refl))

groups_in_order_example :
    ((busy.0.managers 0).taken ++ ((busy.0.managers 0).queue ++ pending busy.0.loop 0)
      ≡ (busy.0.managers 0).read)
    × (length (busy.0.managers 0).queue ≤ 0)
unfolding set
groups_in_order_example = groups_in_order two_managers busy.1 0

stop_returns_example : (t : System ℕ) × Steps two_managers busy.0 t × (t.caller ≡ stopped)
unfolding set
stop_returns_example = stop_returns two_managers (λ i h. (7 ∷ 8 ∷ [], refl)) busy.1 (λ p. cc)

busy_taken : (busy.0.managers 0).taken ≡ 7 ∷ []
unfolding set
busy_taken = refl
