-- ===== src/Service/Concurrent/Leaders.antt =====
-- A herd that is seen, and whose calls of `Evaluate` go on side by side.
use anicetus.Prelude.{
  ◌∙◌, sym, map, ℕ, zero, suc, ◌≡◌, refl, ap, true, false, none, some, ◌∷◌, replicate, ℕ_discrete,
  arith, if_pos, not, [],
}
use anicetus.Prelude.Int.{pos}
use anicetus.Status.{process}
use anicetus.Gatekeeper.Interleaving
use anicetus.Gatekeeper.Interleaving.{resume}
use anicetus.Mapexp.Map
use anicetus.Rate.Float.{Float64, IsFloat}
use anicetus.Rate.Limiter.{Limiter, allow}
use anicetus.Rate.Detection.{elapsed_self}
use anicetus.Rate.Burst.{elapsed}
use anicetus.Rate.Penalty.{IsShort, denied-IsEmpty, allow_short}
use anicetus.Storage.{InMemory, in_memory, exists, store}
use anicetus.Detector.Shared
use anicetus.Detector.Shared.{Shared, Stage, asks, holds, answered, go_on, go_round}
use anicetus.Service.Concurrent.{
  State, analyzes, ends, advance_call, advance_each, starts, detects, detected,
}
use anicetus.Service.Concurrent.Unseen.{each, each_at, each_starts, at_detects, map_replicate}
use mathlib.Core.Path.{ap₂, subst⁻¹}

module _ {R : Type 0} ⦃fl : Float64 R⦄ where
  record IsSpent (r : R) (b now : ℕ) (limiter : Limiter R) : Type 0 where
    limit : limiter.limit ≡ r
    burst : limiter.burst ≡ pos b
    denied : (allow now limiter).0 ≡ false

  allow-IsSpent :
      (laws : IsFloat R) (r : R) (b now : ℕ) (limiter : Limiter R)
      → IsShort r (elapsed now now)
      → IsSpent r b now limiter
      → IsSpent r b now (allow now limiter).1
  allow-IsSpent laws r b now limiter short spent =
      let (v, ne) = denied-IsEmpty r b now limiter spent.limit spent.burst spent.denied in
      record {
        limit = v.limit;
        burst = v.burst;
        denied = allow_short laws r b now now (allow now limiter).1 ne (omega arith) short v;
      }

module _ {F R : Type 0} (dec : Discrete F) ⦃fl : Float64 R⦄ where
  ask_found :
      (n now p : ℕ) (f : F) (s : Shared F R)
      → s.limiters.items f ≡ some p
      → let (stages, s') = go_round dec now (replicate n (asks f)) s in
        (stages ≡ replicate n (holds p)) × (s'.heap ≡ s.heap)
  unfolding go_round go_on Map.get
  ask_found zero now p f s e = (refl, refl)
  ask_found (suc n) now p f s e =
      let (rest, same) = ask_found n now p f (go_on dec now (asks f) s).1 e in
      (ap₂ ◌∷◌ (ap (λ o. elim o [ none ↦ Shared.creates f | some q ↦ holds q ]) e) rest, same)

  deny_all :
      (laws : IsFloat R) (r : R) (n now p b : ℕ) (s : Shared F R)
      → IsShort r (elapsed now now)
      → IsSpent r b now (s.heap p)
      → (go_round dec now (replicate n (holds p)) s).0 ≡ replicate n (answered true)
  unfolding go_round go_on
  deny_all laws r zero now p b s short spent = refl
  deny_all laws r (suc n) now p b s short spent =
      let s' = (go_on dec now (holds p) s).1 in
      ap₂ ◌∷◌ (ap (λ a. answered (not a)) spent.denied) (
        deny_all laws r n now p b s' short (
          subst⁻¹ (IsSpent r b now) (if_pos (ℕ_discrete p p) refl _ _)
            (allow-IsSpent laws r b now (s.heap p) short spent)))

module _ {F R : Type 0} (dec : Discrete F) ⦃fl : Float64 R⦄ (f : F) where
  each_asks :
      (n now : ℕ) (s : State F R (InMemory F))
      → s.storage.flags f ≡ none
      → (each dec (in_memory dec) f now (replicate n (analyzes Interleaving.idle)) s).0
        ≡ replicate n (analyzes (Interleaving.checked false))
  unfolding advance_each advance_call resume exists
  each_asks zero now s e = refl
  each_asks (suc n) now s e = ap₂ ◌∷◌ (rw e refl) (each_asks n now _ e)

  each_leads :
      (n now : ℕ) (s : State F R (InMemory F))
      → (each dec (in_memory dec) f now (replicate n (analyzes (Interleaving.checked false))) s).0
        ≡ replicate n (ends (process, none))
  unfolding advance_each advance_call resume store
  each_leads zero now s = refl
  each_leads (suc n) now s = ap (◌∷◌ (ends (process, none))) (each_leads n now _)

  rounds_lead :
      (laws : IsFloat R) (r : R) (t2 t3 t4 t5 n p b : ℕ) (s : State F R (InMemory F))
      → s.limiters.limiters.items f ≡ some p
      → IsSpent r b t3 (s.limiters.heap p)
      → IsShort r (elapsed t3 t3)
      → s.storage.flags f ≡ none
      → each_at dec
          (in_memory dec)
          f
          (t2 ∷ t3 ∷ t4 ∷ t5 ∷ [])
          (map detects (replicate n (asks f)))
          s
        ≡ replicate n (ends (process, none))
  unfolding each_at
  rounds_lead laws r t2 t3 t4 t5 n p b s found spent short absent =
      let at = each_at dec (in_memory dec) f in
      let (held, same) = ask_found dec n t2 p f s.limiters found in
      let l1 = (go_round dec t2 (replicate n (asks f)) s.limiters).1 in
      let denied =
        deny_all dec laws r n t3 p b l1 short (subst⁻¹ (λ h. IsSpent r b t3 (h p)) same spent) in
      let s2 : State F R (InMemory F) = record s {
        limiters = (go_round dec t3 (replicate n (holds p)) l1).1;
      } in
      at_detects dec (in_memory dec) f t2 (t3 ∷ t4 ∷ t5 ∷ []) _ _ s held
      ∙ ap (λ phases. at (t3 ∷ t4 ∷ t5 ∷ []) phases (record s { limiters = l1 }))
          (map_replicate detected _ n ∙ sym (map_replicate detects _ n))
      ∙ at_detects dec (in_memory dec) f t3 (t4 ∷ t5 ∷ []) _ _ (record s { limiters = l1 }) denied
      ∙ ap (λ phases. at (t4 ∷ t5 ∷ []) phases s2) (map_replicate detected _ n)
      ∙ ap
          (λ phases.
            at (t5 ∷ []) phases
              (each dec (in_memory dec) f t4 (replicate n (analyzes Interleaving.idle)) s2).1)
          (each_asks n t4 s2 absent)
      ∙ each_leads n t5 _

  -- If `n` calls of `Evaluate` with a fingerprint without a cooldown, whose limiter denies a
  -- request at the time at which they all come to it, go on side by side, all of them are answered
  -- process when it is not stored: the herd has `n` leaders.
  pub all_lead :
      (laws : IsFloat R) (t1 t2 t3 t4 t5 n p b : ℕ) (s : State F R (InMemory F))
      → s.cooldowns.items f ≡ none
      → s.limiters.limiters.items f ≡ some p
      → (s.limiters.heap p).burst ≡ pos b
      → (allow t3 (s.limiters.heap p)).0 ≡ false
      → IsShort (s.limiters.heap p).limit 0
      → s.storage.flags f ≡ none
      → each_at dec (in_memory dec) f (t1 ∷ t2 ∷ t3 ∷ t4 ∷ t5 ∷ []) (replicate n starts) s
        ≡ replicate n (ends (process, none))
  unfolding each_at
  all_lead laws t1 t2 t3 t4 t5 n p b s no_cooldown found full denied short absent =
      let (phases, same, kept) = each_starts dec (in_memory dec) f n t1 s no_cooldown in
      let s1 = (each dec (in_memory dec) f t1 (replicate n starts) s).1 in
      ap (λ q. each_at dec (in_memory dec) f (t2 ∷ t3 ∷ t4 ∷ t5 ∷ []) q s1) phases
      ∙ rounds_lead laws (s.limiters.heap p).limit t2 t3 t4 t5 n p b s1
          (ap (λ l. l.limiters.items f) same ∙ found)
          (subst⁻¹ (λ l. IsSpent (s.limiters.heap p).limit b t3 (l.heap p)) same
            (record { limit = refl; burst = full; denied = denied }))
          (rw (elapsed_self t3) short) (ap (λ t. t.flags f) kept ∙ absent)
