-- ===== src/Detector/Shared/Alone.antt =====
-- A call of `IsThunderingHerd` that nothing interrupts.
use anicetus.Prelude.{
  not, if_pos, write, Option-cases, inl, inr, ℕ, suc, ◌≡◌, ◌∙◌, refl, ap, Bool, none, some,
  ℕ_discrete, sym,
}
use anicetus.Mapexp.Map
use anicetus.Mapexp.Map.{Map}
use anicetus.Rate.Float.{Float64}
use mathlib.Core.Path.{subst⁻¹}
use anicetus.Mapexp.Queue.{add, renew}
use anicetus.Rate.Limiter.{new_limiter, every, Limiter, allow}
use anicetus.Detector.InMemory.{TokenBucketInMemory, get_or_create, is_thundering_herd}
use anicetus.Detector.Shared.{Shared, Stage, asks, creates, answered, put_limiter, go_on}
use anicetus.Detector.Shared.View.{
  viewed, behind, IsSound, changed_behind, made_behind, created-IsSound, with_items,
}

module _ {F R : Type 0} (dec : Discrete F) ⦃fl : Float64 R⦄ where
  abbrev created : ℕ → Stage F × Shared F R → Stage F × Shared F R
  created now (creates f, s) = go_on dec now (creates f) s
  created now (stage, s) = (stage, s)

  -- The steps of one call, in turn.
  abbrev pub alone : (get_at set_at allow_at : ℕ) → F → Shared F R → Stage F × Shared F R
  alone get_at set_at allow_at f s =
      let (stage, s') = created set_at (go_on dec get_at (asks f) s) in go_on dec allow_at stage s'

  -- The limiter that a call makes for a fingerprint without one, and the state after its steps.
  abbrev first : Shared F R → Limiter R
  first s = new_limiter (every s.limiters_interval) s.limiters_burst

  found_alone :
      (g w a : ℕ) (f : F) (s : Shared F R) (p : ℕ)
      → s.limiters.items f ≡ some p
      → alone g w a f s ≡ (
        answered (not (allow a (s.heap p)).0),
        record s {
          heap = put_limiter s.heap p (allow a (s.heap p)).1;
          limiters = record s.limiters {
            expiration_queue = renew dec g f s.limiters.expiration_queue;
          };
        },
      )
  unfolding go_on Map.get Map.set
  found_alone g w a f s p e = rw e refl

  found_herd :
      (g w a : ℕ) (f : F) (t : TokenBucketInMemory F R) (limiter : Limiter R)
      → t.limiters.items f ≡ some limiter
      → is_thundering_herd dec g w a f t ≡ (
        not (allow a limiter).0,
        record t {
          limiters = record {
            items = write dec t.limiters.items f (allow a limiter).1;
            expiration_queue = renew dec g f t.limiters.expiration_queue;
          };
        },
      )
  unfolding is_thundering_herd get_or_create Map.get Map.set
  found_herd g w a f t limiter e = rw (e, is_thundering_herd, get_or_create) refl

  made_alone :
      (g w a : ℕ) (f : F) (s : Shared F R)
      → s.limiters.items f ≡ none
      → alone g w a f s ≡ (
        answered (not (allow a (first s)).0),
        record s {
          heap = put_limiter (put_limiter s.heap s.next (first s)) s.next (allow a (first s)).1;
          next = suc s.next;
          limiters = record {
            items = write dec s.limiters.items f s.next;
            expiration_queue = add dec w f (renew dec g f s.limiters.expiration_queue);
          };
        },
      )
  unfolding go_on Map.get Map.set
  made_alone g w a f s e =
      rw e (rw (if_pos (ℕ_discrete s.next s.next) refl (first s) (s.heap s.next)) refl)

  abbrev fresh : TokenBucketInMemory F R → Limiter R
  fresh t = new_limiter (every t.limiters_interval) t.limiters_burst

  made_herd :
      (g w a : ℕ) (f : F) (t : TokenBucketInMemory F R)
      → t.limiters.items f ≡ none
      → is_thundering_herd dec g w a f t ≡ (
        not (allow a (fresh t)).0,
        record t {
          limiters = record {
            items = write dec (write dec t.limiters.items f (fresh t)) f (allow a (fresh t)).1;
            expiration_queue = add dec w f (renew dec g f t.limiters.expiration_queue);
          };
        },
      )
  unfolding is_thundering_herd get_or_create Map.get Map.set
  made_herd g w a f t e = rw (e, is_thundering_herd, get_or_create) refl

  -- A call that nothing interrupts answers and leaves what the method does on the limiters
  -- themselves in the map, and keeps every limiter to one fingerprint.
  pub alone_refines :
      (get_at set_at allow_at : ℕ) (f : F) (s : Shared F R) (c : Map F Bool)
      → IsSound s
      → let (stage, s') = alone get_at set_at allow_at f s in
        let (herd, t) = is_thundering_herd dec get_at set_at allow_at f (viewed c s) in
        (stage ≡ answered herd) × (viewed c s' ≡ t) × IsSound s'
  alone_refines g w a f s c v = elim (Option-cases (s.limiters.items f)) [
    | inl e ↦
        let made = made_alone g w a f s e in
        let herd = made_herd g w a f (viewed c s) (ap (behind s.heap) e) in
        (
          ap (λ p. p.0) made ∙ sym (ap (λ p. answered p.0) herd),
          ap (λ p. viewed c p.1) made
              ∙ with_items dec c s (add dec w f (renew dec g f s.limiters.expiration_queue))
                  (λ k. made_behind dec f k (first s) (allow a (first s)).1 s v)
              ∙ sym (ap (λ p. p.1) herd),
          subst⁻¹ (λ p. IsSound p.1) made (created-IsSound dec f _ _ s v),
        )
    | inr (p, e) ↦
        let found = found_alone g w a f s p e in
        let herd = found_herd g w a f (viewed c s) (s.heap p) (ap (behind s.heap) e) in
        (
          ap (λ p. p.0) found ∙ sym (ap (λ p. answered p.0) herd),
          ap (λ p. viewed c p.1) found
              ∙ with_items dec c s (renew dec g f s.limiters.expiration_queue)
                  (λ k. changed_behind dec f k p (allow a (s.heap p)).1 s v e)
              ∙ sym (ap (λ p. p.1) herd),
          subst⁻¹ (λ p. IsSound p.1) found (record { made = v.made; own = v.own }),
        )
  ]
