-- ===== src/Service/Handlers/Covered.antt =====
-- In every interleaving of handlers, an unprocessed fingerprint has a leader that is still at work.
use mathlib.Core.Path.{subst, subst⁻¹}
use anicetus.Prelude.{
  ℕ, ◌≡◌, ◌≢◌, ◌⊎◌, inl, inr, refl, sym, ap, Bool, true, false, Option, some, List, [], ◌∷◌, ◌∙◌,
  ℕ_discrete, if_pos, if_neg, arith,
}
use anicetus.Errors.{ok}
use anicetus.Gatekeeper
use anicetus.Gatekeeper.{GatekeeperStorage}
use anicetus.Gatekeeper.Contract.{IsStorage}
use anicetus.Gatekeeper.Interleaving
use anicetus.Gatekeeper.Interleaving.{resume}
use anicetus.Rate.Float.{Float64}
use anicetus.Service.Concurrent
use anicetus.Service.Concurrent.{State, advance_call}
use anicetus.Service.Handlers.{
  Phase, evaluates, leads, passes, stores, cools, relays, cleans, over, Reply, fails, replies,
  decided, Server, Handler, Event, goes_on, ticks_cooldowns, ticks_limiters, handle, happen,
  happen_all,
}

-- Whether the handler is to mark the fingerprint or to remove it.
abbrev pub is_leading : {F : Type 0} → Phase F → Bool
is_leading leads = true
is_leading (stores code) = true
is_leading (cleans code) = true
is_leading phase = false

pub record Leads {F : Type 0} (f : F) (handler : Handler F) : Type 0 where
  pub of_fingerprint : handler.fingerprint ≡ f
  pub leading : is_leading handler.phase ≡ true

module _ {F R S : Type 0} (flag : S → F → Option Bool) where
  -- Every unprocessed fingerprint has a handler that leads.
  abbrev pub IsCovered : Server F R S → Type 0
  IsCovered c = (f : F) → flag c.shared.storage f ≡ some false → (i : ℕ) × Leads f (c.handlers i)

module _ {F R S : Type 0} (dec : Discrete F) ⦃fl : Float64 R⦄ (storage : GatekeeperStorage F S)
    (forwarded : F → F) (flag : S → F → Option Bool) (laws : IsStorage storage flag)
    (removes : (f : F) (t : S) → (storage.remove f t).0 ≡ ok tt)
    (stores_new : (f : F) (t : S) → (storage.store f false t).0 ≡ ok tt)
    (same : (f : F) → forwarded f ≡ f) where
  open laws use {exists_same, processed_same, store_ok, store_frame, remove_ok, remove_frame}

  -- What a step leaves of the flags.
  record Kept (f : F) (phase : Phase F) (s : State F R S) (out : Phase F × State F R S)
      : Type 0 where
    others : (g : F) → f ≢ g → flag out.1.storage g ≡ flag s.storage g
    own :
        flag out.1.storage f ≡ some false
        → (is_leading out.0 ≡ true) ⊎ ((flag s.storage f ≡ some false) × (is_leading phase ≡ false))

  Kept-same :
      {f : F} {phase : Phase F} {s : State F R S} {out : Phase F × State F R S}
      → is_leading phase ≡ false
      → flag out.1.storage ≡ flag s.storage
      → Kept f phase s out
  Kept-same {f} idle e = record {
    others = λ g ne. ap (λ h. h g) e;
    own = λ h. inr (sym (ap (λ h. h f) e) ∙ h, idle);
  }

  resume-Kept :
      (now : ℕ) (reply : Reply) (f : F) (phase : Interleaving.Phase) (s : State F R S)
      → Kept f
          (evaluates (Concurrent.analyzes phase))
          s
          (handle dec storage forwarded now reply f (evaluates (Concurrent.analyzes phase)) s)
  unfolding handle advance_call resume decided
  resume-Kept now reply f Interleaving.idle s =
      Kept-same refl (ground (arith, exists_same f s.storage))
  resume-Kept now reply f (Interleaving.checked true) s =
      Kept-same refl (ground (arith, processed_same f s.storage))
  resume-Kept now reply f (Interleaving.checked false) s = record {
    others = λ g ne. ground (arith, store_frame f g false s.storage ne);
    own = λ h. inl (ground (arith, stores_new f s.storage));
  }
  resume-Kept now reply f (Interleaving.answered v) s = Kept-same refl refl

  evaluate-Kept :
      (now : ℕ) (reply : Reply) (f : F) (phase : Concurrent.Phase F) (s : State F R S)
      → Kept f (evaluates phase) s (handle dec storage forwarded now reply f (evaluates phase) s)
  unfolding handle advance_call Gatekeeper.remove
  evaluate-Kept now reply f Concurrent.starts s = Kept-same refl refl
  evaluate-Kept now reply f (Concurrent.detects stage) s = Kept-same refl refl
  evaluate-Kept now reply f Concurrent.removes s = record {
    others = λ g ne. ground (arith, remove_frame f g s.storage ne);
    own = λ h. absurd (ground (arith, h, removes f s.storage, remove_ok f s.storage));
  }
  evaluate-Kept now reply f (Concurrent.analyzes phase) s = resume-Kept now reply f phase s
  evaluate-Kept now reply f (Concurrent.ends v) s = Kept-same refl refl

  handle-Kept :
      (now : ℕ) (reply : Reply) (f : F) (phase : Phase F) (s : State F R S)
      → Kept f phase s (handle dec storage forwarded now reply f phase s)
  unfolding handle Gatekeeper.remove Gatekeeper.store
  handle-Kept now reply f (evaluates phase) s = evaluate-Kept now reply f phase s
  handle-Kept now fails f leads s = record { others = λ g ne. refl; own = λ h. inl refl }
  handle-Kept now (replies code) f leads s = record { others = λ g ne. refl; own = λ h. inl refl }
  handle-Kept now reply f (stores code) s = record {
    others = λ g ne. ground (arith, same f, store_frame f g true s.storage ne);
    own = λ h. inl (ground (arith, h, same f, store_ok f true s.storage));
  }
  handle-Kept now reply f (cools code) s = Kept-same refl refl
  handle-Kept now fails f (relays code) s = record { others = λ g ne. refl; own = λ h. inl refl }
  handle-Kept now (replies _) f (relays code) s = Kept-same refl refl
  handle-Kept now reply f (cleans code) s = record {
    others = λ g ne. ground (arith, same f, remove_frame f g s.storage ne);
    own = λ h. absurd (ground (arith, h, same f, removes f s.storage, remove_ok f s.storage));
  }
  handle-Kept now fails f passes s = Kept-same refl refl
  handle-Kept now (replies code) f passes s = Kept-same refl refl
  handle-Kept now reply f (over code) s = Kept-same refl refl

  went_on :
      (i now : ℕ) (reply : Reply) (c : Server F R S)
      → IsCovered flag c
      → IsCovered flag (happen dec storage forwarded (goes_on i now reply) c)
  unfolding happen
  went_on i now reply c covered f e =
      let h = c.handlers i in
      let kept = handle-Kept now reply h.fingerprint h.phase c.shared in
      let s' = (handle dec storage forwarded now reply h.fingerprint h.phase c.shared).1 in
      let h' : Handler F = record h {
        phase = (handle dec storage forwarded now reply h.fingerprint h.phase c.shared).0;
      } in
      let at_other = λ (j : ℕ) (ne : j ≢ i) (l : Leads f (c.handlers j)).
        subst⁻¹ (Leads f) (if_neg (ℕ_discrete j i) ne h' (c.handlers j)) l in
      elim (dec h.fingerprint f) [
        | yes p ↦ elim (kept.own (subst⁻¹ (λ g. flag s'.storage g ≡ some false) p e)) [
          | inl leading ↦ (
            i,
            subst⁻¹ (Leads f) (if_pos (ℕ_discrete i i) refl h' (c.handlers i))
                (record { of_fingerprint = p; leading = leading }),
          )
          | inr (before, idle) ↦
              let (j, l) = covered f (subst (λ g. flag c.shared.storage g ≡ some false) p before) in
              (
                j,
                at_other j (λ q. cc (ap (λ k. is_leading (c.handlers k).phase) q, l.leading, idle))
                    l,
              )
        ]
        | no ne ↦
            let (j, l) = covered f (sym (kept.others f ne) ∙ e) in
            (
              j,
              at_other j (λ q. ne (ap (λ k. (c.handlers k).fingerprint) (sym q) ∙ l.of_fingerprint))
                  l,
            )
      ]

  pub happen-IsCovered :
      (e : Event) (c : Server F R S)
      → IsCovered flag c
      → IsCovered flag (happen dec storage forwarded e c)
  unfolding happen
  happen-IsCovered (goes_on i now reply) c covered = went_on i now reply c covered
  happen-IsCovered (ticks_cooldowns now) c covered = covered
  happen-IsCovered (ticks_limiters now) c covered = covered

  -- In every interleaving of handlers and ticks each unprocessed fingerprint has a handler that has
  -- still to mark it or to remove it, if it is so at the start, the storage does not fail to remove
  -- a fingerprint or to store a new one, and forwarding a request does not change its fingerprint.
  pub happen_all-IsCovered :
      (es : List Event) (c : Server F R S)
      → IsCovered flag c
      → IsCovered flag (happen_all dec storage forwarded es c)
  unfolding happen_all
  happen_all-IsCovered [] c covered = covered
  happen_all-IsCovered (e ∷ es) c covered = happen_all-IsCovered es _ (happen-IsCovered e c covered)
