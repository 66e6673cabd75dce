-- ===== src/Service/Handlers/Released.antt =====
-- When all handlers have ended, nobody is kept waiting for a fingerprint.
use anicetus.Prelude.{
  ◌∙◌, if_neg, ℕ, ◌≤◌, ◌≡◌, ◌≢◌, ◌⊎◌, inl, inr, refl, ap, Bool, false, Option, some, List, [], ◌∷◌,
  ℕ_discrete, arith,
}
use anicetus.Errors.{ok}
use anicetus.Gatekeeper.{GatekeeperStorage}
use anicetus.Gatekeeper.Contract.{IsStorage}
use anicetus.Rate.Float.{Float64}
use anicetus.Service.Handlers.Covered.{IsCovered, is_leading, happen_all-IsCovered}
use anicetus.Service.Handlers.Ending.{turns_of, handlers_end}
use anicetus.Service.Handlers.{
  Server, Handler, Event, goes_on, ticks_cooldowns, ticks_limiters, happen, happen_all,
}

module _ {F R S : Type 0} (dec : Discrete F) ⦃fl : Float64 R⦄ (storage : GatekeeperStorage F S)
    (forwarded : F → F) where
  untouched :
      (es : List Event) (i : ℕ) (c : Server F R S)
      → turns_of i es ≡ 0
      → (happen_all dec storage forwarded es c).handlers i ≡ c.handlers i
  unfolding happen_all turns_of happen
  untouched [] i c h = refl
  untouched (goes_on j now reply ∷ es) i c h = elim (ℕ_discrete i j) [
    | yes e ↦ absurd (ground (arith, h, e))
    | no ne ↦
        untouched es i (happen dec storage forwarded (goes_on j now reply) c)
          (ground (arith, h, ne))
        ∙ if_neg (ℕ_discrete i j) ne _ _
  ]
  untouched (ticks_cooldowns now ∷ es) i c h =
      untouched es i (happen dec storage forwarded (ticks_cooldowns now) c) h
  untouched (ticks_limiters now ∷ es) i c h =
      untouched es i (happen dec storage forwarded (ticks_limiters now) c) h

  module _ (flag : S → F → Option Bool) (laws : IsStorage storage flag)
      (removes : (f : F) (t : S) → (storage.remove f t).0 ≡ ok tt)
      (stores_new : (f : F) (t : S) → (storage.store f false t).0 ≡ ok tt)
      (same : (f : F) → forwarded f ≡ f) where
    -- If no unprocessed fingerprint is without a leader at the start, as on a new server, then
    -- after any interleaving in which every handler has gone on eleven times, or not at all and
    -- does not lead, no fingerprint is left unprocessed, whatever the backend does: nobody is kept
    -- waiting. The storage does not fail to remove a fingerprint or to store a new one, and
    -- forwarding a request does not change its fingerprint.
    pub everyone_released :
        (es : List Event) (c : Server F R S)
        → IsCovered flag c
        → ((i : ℕ)
            → (11 ≤ turns_of i es)
              ⊎ ((turns_of i es ≡ 0) × (is_leading (c.handlers i).phase ≡ false)))
        → (f : F) → flag (happen_all dec storage forwarded es c).shared.storage f ≢ some false
    everyone_released es c covered turns f e =
        let (i, l) =
          happen_all-IsCovered dec storage forwarded flag laws removes stores_new same es c covered
            f e in
        elim (turns i) [
          | inl enough ↦
              let (code, ended) = handlers_end dec storage forwarded es i c enough in
              cc (ap is_leading ended, l.leading)
          | inr (none_taken, idle) ↦ cc (
            ap (λ (h : Handler F). is_leading h.phase) (untouched es i c none_taken),
            l.leading,
            idle,
          )
        ]
