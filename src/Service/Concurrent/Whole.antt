-- ===== src/Service/Concurrent/Whole.antt =====
-- A call of `Evaluate` that nothing interrupts.
use mathlib.Core.Path.{subst⁻¹}
use anicetus.Gatekeeper.Interleaving.{analyze-resume, resume}
use anicetus.Detector.Shared.View.{viewed, IsSound}
use anicetus.Prelude.{
  ◌∙◌, true, false, Option-cases, inl, inr, ℕ, ◌≡◌, Option, if◌then◌else◌, refl, Bool, ap, some,
  none,
}
use anicetus.Errors.{ok, check}
use anicetus.Gatekeeper
use anicetus.Gatekeeper.{GatekeeperStorage, Verdict, analyze, fail, answer}
use anicetus.Gatekeeper.Interleaving
use anicetus.Mapexp.Map
use anicetus.Rate.Float.{Float64}
use anicetus.Anicetus.{at, Detector, Anicetus, evaluate}
use anicetus.Detector.InMemory.{TokenBucketInMemory, cool_down, is_cool_down, is_thundering_herd}
use anicetus.Detector.Shared
use anicetus.Detector.Shared.{Shared, Stage, go_on}
use anicetus.Detector.Shared.Alone.{alone, alone_refines}
use anicetus.Service.Concurrent.{
  State, Phase, detects, detected, advance_call, starts, ends, analyzed, open_gates,
}

abbrev verdict : {F S : Type 0} → GatekeeperStorage F S → F → Bool → S → Verdict × S
verdict storage f true t = analyze storage f t
verdict storage f false t =
    check (Gatekeeper.remove storage f t) (fail "failed to remove fingerprint")
      λ _ t. answer open_gates t

abbrev cooled : Option Bool → Bool
cooled found = elim found [ none ↦ false | some cooldown ↦ cooldown ]

module _ {F R S : Type 0} where
  abbrev pub seen : State F R S → Anicetus (TokenBucketInMemory F R) S
  seen s = record { detector = viewed s.cooldowns s.limiters; storage = s.storage }

  abbrev pub Refined :
      Phase F × State F R S → Verdict × Anicetus (TokenBucketInMemory F R) S → Type 0
  Refined (phase, s) (v, t) = (phase ≡ ends v) × (seen s ≡ t) × IsSound s.limiters

module _ {F R : Type 0} (dec : Discrete F) ⦃fl : Float64 R⦄ where
  -- The detector in memory, with the times at which it reads the clock.
  abbrev pub detector_at : (ℕ × ℕ × ℕ × ℕ) → Detector F (TokenBucketInMemory F R)
  detector_at (cool, get_at, set_at, allow_at) = record {
    cool_down = λ k t. (ok tt, cool_down dec cool k t);
    is_cool_down = λ k t. let (cooled, t') = is_cool_down dec cool k t in (ok cooled, t');
    is_thundering_herd =
        λ k t. let (herd, t') = is_thundering_herd dec get_at set_at allow_at k t in (ok herd, t');
  }

module _ {F R S : Type 0} (dec : Discrete F) ⦃fl : Float64 R⦄ (storage : GatekeeperStorage F S)
    (f : F) where
  abbrev go : ℕ → Phase F × State F R S → Phase F × State F R S
  go now (phase, s) = advance_call dec storage f now phase s

  -- The part that makes a limiter, where there is none.
  abbrev make : ℕ → Phase F × State F R S → Phase F × State F R S
  make now (detects (Shared.creates k), s) = go now (detects (Shared.creates k), s)
  make now (phase, s) = (phase, s)

  abbrev herd_steps : ℕ → ℕ → ℕ → Phase F × State F R S → Phase F × State F R S
  herd_steps get_at set_at allow_at p = go allow_at (make set_at (go get_at p))

  herd-alone :
      (g w a : ℕ) (s : State F R S)
      → herd_steps g w a (detects (Shared.asks f), s) ≡ (
        detected (alone dec g w a f s.limiters).0,
        record s { limiters = (alone dec g w a f s.limiters).1 },
      )
  unfolding advance_call go_on Map.get
  herd-alone g w a s = elim (Option-cases (s.limiters.limiters.items f)) [
    | inl e ↦ rw e refl
    | inr (p, e) ↦ rw e refl
  ]

  resumes :
      (now : ℕ) (phase : Interleaving.Phase) (s : State F R S)
      → let (phase', t) = resume storage f phase s.storage in
        go now (analyzed phase, s) ≡ (analyzed phase', record s { storage = t })
  unfolding advance_call resume
  resumes now Interleaving.idle s = refl
  resumes now (Interleaving.checked exists) s = refl
  resumes now (Interleaving.answered v) s = refl

  last_steps :
      (now : ℕ) (herd : Bool) (s : State F R S)
      → go now (go now (detected (Shared.answered herd), s)) ≡ (
        ends (verdict storage f herd s.storage).0,
        record s { storage = (verdict storage f herd s.storage).1 },
      )
  unfolding advance_call Gatekeeper.remove
  last_steps now true s =
      resumes now (resume storage f Interleaving.idle s.storage).0 _
      ∙ ap (λ p. (analyzed p.0, record s { storage = p.1 })) (analyze-resume storage f s.storage)
  last_steps now false s = refl

  abbrev later : ℕ → ℕ → ℕ → Phase F × State F R S → Phase F × State F R S
  later _ _ _ (ends v, s) = (ends v, s)
  later get_at set_at allow_at (phase, s) =
      go allow_at (go allow_at (herd_steps get_at set_at allow_at (phase, s)))

  -- The parts of one call, in turn.
  abbrev pub uninterrupted : (ℕ × ℕ × ℕ × ℕ) → State F R S → Phase F × State F R S
  uninterrupted (cool, get_at, set_at, allow_at) s =
      later get_at set_at allow_at (go cool (starts, s))

  abbrev judged :
      Bool × TokenBucketInMemory F R → S → Verdict × Anicetus (TokenBucketInMemory F R) S
  judged (herd, d) t = at d (verdict storage f herd t)

  judges :
      (g w a : ℕ) (s : State F R S)
      → IsSound s.limiters
      → Refined
          (later g w a (detects (Shared.asks f), s))
          (judged (is_thundering_herd dec g w a f (viewed s.cooldowns s.limiters)) s.storage)
  judges g w a s sound =
      let (answers, left, sound') = alone_refines dec g w a f s.limiters s.cooldowns sound in
      let herd = (is_thundering_herd dec g w a f (viewed s.cooldowns s.limiters)).0 in
      let l = (alone dec g w a f s.limiters).1 in
      let steps =
        ap (λ p. go a (go a p))
          (herd-alone g w a s ∙ ap (λ st. (detected st, record s { limiters = l })) answers)
        ∙ last_steps a herd (record s { limiters = l }) in
      subst⁻¹
        (λ p.
          Refined p
            (judged (is_thundering_herd dec g w a f (viewed s.cooldowns s.limiters)) s.storage))
        steps
        (
          refl,
          ap (λ d. record { detector = d; storage = (verdict storage f herd s.storage).1 }) left,
          sound',
        )

  judged_if :
      (d : Bool × TokenBucketInMemory F R) (t : S)
      → (if d.0 then at d.1 (analyze storage f t) else at d.1 (verdict storage f false t))
        ≡ judged d t
  judged_if (true, d) t = refl
  judged_if (false, d) t = refl

  outcome :
      (g w a : ℕ) (found : Option Bool) (s : State F R S)
      → IsSound s.limiters
      → let r = is_thundering_herd dec g w a f (viewed s.cooldowns s.limiters) in
        Refined
          (later g w a
            (elim found [ some true ↦ ends (open_gates, none) | _ ↦ detects (Shared.asks f) ], s))
          (if cooled found
            then at (viewed s.cooldowns s.limiters) (answer open_gates s.storage)
            else (if r.0
                then at r.1 (analyze storage f s.storage)
                else at r.1 (verdict storage f false s.storage)))
  outcome g w a (some true) s sound = (refl, refl, sound)
  outcome g w a (some false) s sound =
      subst⁻¹ (λ p. Refined (later g w a (detects (Shared.asks f), s)) p) (judged_if _ s.storage)
        (judges g w a s sound)
  outcome g w a none s sound =
      subst⁻¹ (λ p. Refined (later g w a (detects (Shared.asks f), s)) p) (judged_if _ s.storage)
        (judges g w a s sound)

  -- A call of `Evaluate` that nothing interrupts answers and leaves what the method does.
  pub uninterrupted_refines :
      (times : ℕ × ℕ × ℕ × ℕ) (s : State F R S)
      → IsSound s.limiters
      → Refined
          (uninterrupted times s)
          (evaluate (λ k. k) (detector_at dec times) storage f (seen s))
  unfolding evaluate is_cool_down advance_call Map.get
  uninterrupted_refines (c, g, w, a) s sound =
      outcome g w a (s.cooldowns.items f) (go c (starts, s)).1 sound
