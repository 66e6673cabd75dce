-- ===== src/Detector/Shared/View.antt =====
-- The limiters behind the pointers of Detector.Shared, as detector/tokenbucket_inmemory.go reaches
-- them.
use anicetus.Prelude.{
  write, Option-cases, inl, inr, ℕ, suc, ◌<◌, ◌≡◌, ◌∙◌, ap, Bool, Option, none, some, Table,
  fun_ext, arith, sym,
}
use anicetus.Mapexp.Map.{Map}
use anicetus.Mapexp.Queue.{ExpirationQueue}
use anicetus.Rate.Limiter.{Limiter}
use anicetus.Detector.InMemory.{TokenBucketInMemory}
use anicetus.Detector.Shared.{Shared, put_limiter}

abbrev pub behind : {R : Type 0} → (ℕ → Limiter R) → Option ℕ → Option (Limiter R)
behind heap none = none
behind heap (some pointer) = some (heap pointer)

module _ {F R : Type 0} where
  -- The detector with the limiters themselves in the map.
  abbrev pub viewed : Map F Bool → Shared F R → TokenBucketInMemory F R
  viewed cooldowns s = record {
    cooldowns = cooldowns;
    limiters = record {
      items = λ f. behind s.heap (s.limiters.items f);
      expiration_queue = s.limiters.expiration_queue;
    };
    limiters_burst = s.limiters_burst;
    limiters_interval = s.limiters_interval;
  }

  -- No limiter belongs to two fingerprints, and none is still to be made.
  pub record IsSound (s : Shared F R) : Type 0 where
    pub made : (f : F) (p : ℕ) → s.limiters.items f ≡ some p → p < s.next
    pub own : (f g : F) (p : ℕ) → s.limiters.items f ≡ some p → s.limiters.items g ≡ some p → f ≡ g

module _ {F R : Type 0} (dec : Discrete F) where
  pub changed_behind :
      (f k : F) (p : ℕ) (limiter : Limiter R) (s : Shared F R)
      → IsSound s
      → s.limiters.items f ≡ some p
      → behind (put_limiter s.heap p limiter) (s.limiters.items k)
        ≡ write dec (λ g. behind s.heap (s.limiters.items g)) f limiter k
  changed_behind f k p limiter s v e = elim (Option-cases (s.limiters.items k)) [
    | inl n ↦ ground (arith, n)
    | inr (q, n) ↦ ground (arith, n, v.own f k p e)
  ]

  pub made_behind :
      (f k : F) (first limiter : Limiter R) (s : Shared F R)
      → IsSound s
      → behind
          (put_limiter (put_limiter s.heap s.next first) s.next limiter)
          (write dec s.limiters.items f s.next k)
        ≡ write dec (write dec (λ g. behind s.heap (s.limiters.items g)) f first) f limiter k
  made_behind f k first limiter s v = elim (Option-cases (s.limiters.items k)) [
    | inl n ↦ ground (arith, n)
    | inr (q, n) ↦ ground (arith, n, v.made k q n)
  ]

  pub created-IsSound :
      (f : F) (heap : ℕ → Limiter R) (queue : ExpirationQueue F) (s : Shared F R)
      → IsSound s
      → IsSound (record s {
        heap = heap;
        next = suc s.next;
        limiters = record { items = write dec s.limiters.items f s.next; expiration_queue = queue };
      })
  created-IsSound f heap queue s v = record {
    made = λ g p e. elim (dec g f) [
      | yes q ↦ ground (arith, q)
      | no q ↦ ground (arith, q, v.made g p)
    ];
    own = λ g h p e e'. elim (dec g f) [
      | yes q ↦ elim (dec h f) [
        | yes r ↦ q ∙ sym r
        | no r ↦ absurd (ground (arith, q, r, v.made h p))
      ]
      | no q ↦ elim (dec h f) [
        | yes r ↦ absurd (ground (arith, q, r, v.made g p))
        | no r ↦ v.own g h p (ground arith) (ground arith)
      ]
    ];
  }

  pub with_items :
      (c : Map F Bool) (s : Shared F R) (queue : ExpirationQueue F)
      {items items' : Table F (Limiter R)}
      → ((k : F) → items k ≡ items' k)
      → ◌≡◌ {A = TokenBucketInMemory F R}
          (record (viewed c s) { limiters = record { items = items; expiration_queue = queue } })
          (record (viewed c s) { limiters = record { items = items'; expiration_queue = queue } })
  with_items c s queue same =
      ap
        (λ items. record (viewed c s) {
          limiters = record { items = items; expiration_queue = queue };
        })
        (fun_ext same)
