-- ===== src/Anicetus/Storages.antt =====
-- anicetus.go on two storages where one is a view of the other.
use anicetus.Prelude.{true, ◌≡◌, ◌∙◌, refl, ap, List, [], ◌∷◌, arith}
use anicetus.Errors.{Result}
use anicetus.Gatekeeper
use anicetus.Gatekeeper.{GatekeeperStorage, Verdict, analyze, store, remove}
use anicetus.Gatekeeper.Morphism.{seen, IsView, seen-analyze}
use anicetus.Anicetus.{Detector, Anicetus, evaluate, request_done, cleanup}
use anicetus.Anicetus.Leader.{Call, evaluates, dones, cleans}

-- What a call returns.
pub data Returned : Type 0 where
  evaluated : Verdict → Returned
  ended : Result (Unit {0}) → Returned

module _ {R F D S : Type 0} (print : R → F) (detector : Detector F D)
    (storage : GatekeeperStorage F S) where
  abbrev pub outcome : Anicetus D S → Call R → Returned × Anicetus D S
  outcome t (evaluates r) = let (v, t') = evaluate print detector storage r t in (evaluated v, t')
  outcome t (dones r) = let (e, t') = request_done print detector storage r t in (ended e, t')
  outcome t (cleans r) = let (e, t') = cleanup print detector storage r t in (ended e, t')

  -- What the calls of a history return, in turn.
  unfoldable pub outcomes : Anicetus D S → List (Call R) → List Returned
  outcomes t [] = []
  outcomes t (c ∷ cs) = let (o, t') = outcome t c in o ∷ outcomes t' cs

abbrev pub on_view : {D S T : Type 0} → (S → T) → Anicetus D S → Anicetus D T
on_view view t = record { detector = t.detector; storage = view t.storage }

module _ {R F D S T : Type 0} (print : R → F) (detector : Detector F D)
    (storage : GatekeeperStorage F S) (viewed : GatekeeperStorage F T) (view : S → T)
    (laws : IsView storage viewed view) where
  seen-evaluate :
      (r : R) (t : Anicetus D S)
      → seen (on_view view) (evaluate print detector storage r t)
        ≡ evaluate print detector viewed r (on_view view t)
  unfolding evaluate Gatekeeper.remove
  seen-evaluate r t = ground (
    arith,
    seen-analyze storage viewed view laws (print r) t.storage,
    laws.remove_seen (print r) t.storage,
  )

  seen-request_done :
      (r : R) (t : Anicetus D S)
      → seen (on_view view) (request_done print detector storage r t)
        ≡ request_done print detector viewed r (on_view view t)
  unfolding request_done Gatekeeper.store
  seen-request_done r t = ground (arith, laws.store_seen (print r) true t.storage)

  seen-cleanup :
      (r : R) (t : Anicetus D S)
      → seen (on_view view) (cleanup print detector storage r t)
        ≡ cleanup print detector viewed r (on_view view t)
  unfolding cleanup Gatekeeper.remove
  seen-cleanup r t = ground (arith, laws.remove_seen (print r) t.storage)

  seen-outcome :
      (c : Call R) (t : Anicetus D S)
      → seen (on_view view) (outcome print detector storage t c)
        ≡ outcome print detector viewed (on_view view t) c
  seen-outcome (evaluates r) t = ap (λ p. (evaluated p.0, p.1)) (seen-evaluate r t)
  seen-outcome (dones r) t = ap (λ p. (ended p.0, p.1)) (seen-request_done r t)
  seen-outcome (cleans r) t = ap (λ p. (ended p.0, p.1)) (seen-cleanup r t)

  -- ...
  pub outcomes_same :
      (cs : List (Call R)) (t : Anicetus D S)
      → outcomes print detector storage t cs ≡ outcomes print detector viewed (on_view view t) cs
  unfolding outcomes
  outcomes_same [] t = refl
  outcomes_same (c ∷ cs) t =
      ap (◌∷◌ (outcome print detector storage t c).0)
        (outcomes_same cs (outcome print detector storage t c).1)
      ∙ ap (λ p. p.0 ∷ outcomes print detector viewed p.1 cs) (seen-outcome c t)
