-- ===== src/Strategy/Runner/Tests.antt =====
-- Two strategies, the first with a symbol as_list twice, and a registry with one kind.
use roi_gen.Base.{ℕ, ◌≡◌, refl, none, some, List, [], ◌∷◌}
use roi_gen.Strategy.Runner.{
  Routed, as_list, Runner, new_runner, receivers, fill_receivers, add, add_symbols,
}
use roi_gen.Strategy.Runner.Routing.{subscribed, holder, add_all, add_all-Routes}

abbrev first : Routed ℕ
first = record { strategy_id = 1; symbols = 9 ∷ 8 ∷ 9 ∷ []; strategy = 100 }

abbrev second : Routed ℕ
second = record { strategy_id = 2; symbols = 9 ∷ []; strategy = 200 }

abbrev both : List (Routed ℕ)
both = first ∷ second ∷ []

abbrev runner : Runner ℕ
runner = add_all both new_runner

-- A symbol that is as_list twice is delivered twice.
receivers_test : receivers 9 runner ≡ first ∷ first ∷ second ∷ []
unfolding add add_symbols
receivers_test = refl

add_all-Routes_example :
    (runner.strategies ≡ both)
    × (receivers 9 runner ≡ subscribed 9 both)
    × (fill_receivers (some 2) 9 runner ≡ as_list (holder 2 both none))
    × (fill_receivers none 9 runner ≡ subscribed 9 both)
add_all-Routes_example = add_all-Routes both 2 9
