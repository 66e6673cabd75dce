-- ===== src/Service/Concurrent/Unseen.antt =====
-- A herd whose calls of `Evaluate` go on side by side.
use anicetus.Prelude.{
  Option, some, ℕ, zero, suc, ◌≡◌, ◌∙◌, refl, ap, Bool, true, none, List, [], ◌∷◌, map, replicate,
}
use anicetus.Status.{open_gates}
use anicetus.Gatekeeper
use anicetus.Gatekeeper.{GatekeeperStorage}
use anicetus.Mapexp.Map
use anicetus.Rate.Float.{Float64}
use anicetus.Detector.Shared
use anicetus.Detector.Shared.{Shared, Stage, go_on, go_round}
use anicetus.Service.Concurrent.{
  State, Phase, starts, detects, ends, detected, advance_call, advance_each,
}
use mathlib.Core.Path.{ap₂}

abbrev uncooled : {F : Type 0} → F → Option Bool → Phase F
uncooled f found = elim found [ some true ↦ ends (open_gates, none) | _ ↦ detects (Shared.asks f) ]

pub map_replicate :
    {A B : Type 0} (g : A → B) (x : A) (n : ℕ) → map g (replicate n x) ≡ replicate n (g x)
map_replicate g x zero = refl
map_replicate g x (suc n) = ap (◌∷◌ (g x)) (map_replicate g x n)

module _ {F R S : Type 0} (dec : Discrete F) ⦃fl : Float64 R⦄ (storage : GatekeeperStorage F S)
    (f : F) where
  abbrev pub each : ℕ → List (Phase F) → State F R S → List (Phase F) × State F R S
  each = advance_each dec storage f

  pub each_starts :
      (n now : ℕ) (s : State F R S)
      → s.cooldowns.items f ≡ none
      → ((each now (replicate n starts) s).0 ≡ map detects (replicate n (Shared.asks f)))
        × ((each now (replicate n starts) s).1.limiters ≡ s.limiters)
        × ((each now (replicate n starts) s).1.storage ≡ s.storage)
  unfolding advance_each advance_call Map.get
  each_starts zero now s e = (refl, refl, refl)
  each_starts (suc n) now s e =
      let (rest, same, kept) = each_starts n now (advance_call dec storage f now starts s).1 e in
      (ap₂ ◌∷◌ (ap (uncooled f) e) rest, same, kept)

  each_detects :
      (stages : List (Stage F)) (now : ℕ) (s : State F R S)
      → each now (map detects stages) s ≡ (
        map detected (go_round dec now stages s.limiters).0,
        record s { limiters = (go_round dec now stages s.limiters).1 },
      )
  unfolding advance_each advance_call go_round
  each_detects [] now s = refl
  each_detects (stage ∷ stages) now s =
      ap (λ r. (detected (go_on dec now stage s.limiters).0 ∷ r.0, r.1))
        (each_detects stages now (advance_call dec storage f now (detects stage) s).1)

  -- The outcomes of `n` calls of `Evaluate` that go on side by side, a part of each at each of the
  -- times.
  unfoldable pub each_at : List ℕ → List (Phase F) → State F R S → List (Phase F)
  each_at [] phases s = phases
  each_at (now ∷ times) phases s = let (phases', s') = each now phases s in each_at times phases' s'

  pub at_detects :
      (now : ℕ) (times : List ℕ) (stages out : List (Stage F)) (s : State F R S)
      → (go_round dec now stages s.limiters).0 ≡ out
      → each_at (now ∷ times) (map detects stages) s
        ≡ each_at times
            (map detected out)
            (record s { limiters = (go_round dec now stages s.limiters).1 })
  unfolding each_at
  at_detects now times stages out s e =
      ap (λ r. each_at times r.0 r.1) (each_detects stages now s)
      ∙ ap
          (λ o.
            each_at times (map detected o)
              (record s { limiters = (go_round dec now stages s.limiters).1 }))
          e
