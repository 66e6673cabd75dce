-- ===== src/Example/Busy.antt =====
-- How long the demonstration's backend works for a request, and when that is too long.
use mathlib.Core.Path.{subst⁻¹}
use anicetus.Prelude.{
  ℕ, zero, suc, ◌+◌, ◌*◌, ◌^◌, ◌≤◌, ◌<◌, ◌≡◌, ◌≢◌, ◌∙◌, refl, ap, Bool, true, false, ◌&&◌, ltb,
  if◌then◌else◌, Option, none, some, List, [], ◌∷◌, arith,
}
use anicetus.Prelude.Int.{pos, pos_part, wrap_int64}
use anicetus.Example.{
  Backend, new_backend, Phase, arrives, entered, gathers, works, sleeps, leaves, gone, Fired,
  context_done, timer, second, service_unavailable, with_timeout, seen_from, first_ready, timed_out,
  gather_from, work_from, handle, handle_at, Event, comes, goes_on, reports, happen, happen_all,
}

-- Whether a call is counted.
abbrev inside : Phase → ℕ
inside (arrives process quits) = 0
inside (gone code) = 0
inside phase = 1

abbrev pub all_inside : List Phase → ℕ
all_inside [] = 0
all_inside (phase ∷ phases) = inside phase + all_inside phases

handle-counts :
    (now : ℕ) (choice : Fired) (phase : Phase) (b : Backend) (others : ℕ)
    → b.number_of_requests ≡ inside phase + others
    → let (phase', b') = handle now choice phase b in b'.number_of_requests ≡ inside phase' + others
unfolding handle
handle-counts now choice (arrives process quits) b k e = ground (arith, e)
handle-counts now choice (entered true c) b k e = e
handle-counts now choice (entered false c) b k e = ground (arith, e)
handle-counts now choice (gathers c t) b k e = ground (arith, e)
handle-counts now choice (works c t) b k e = ground (arith, e)
handle-counts now choice (sleeps code until) b k e = ground (arith, e)
handle-counts now choice (leaves code) b k e = omega (arith, e)
handle-counts now choice (gone code) b k e = e

handle_at-counts :
    (now i : ℕ) (fired : Fired) (phases : List Phase) (b : Backend) (others : ℕ)
    → b.number_of_requests ≡ all_inside phases + others
    → let (phases', b') = handle_at now i fired phases b in
      b'.number_of_requests ≡ all_inside phases' + others
unfolding handle_at
handle_at-counts now i fired [] b k e = e
handle_at-counts now zero fired (p ∷ ps) b k e =
    let counted = handle-counts now fired p b (all_inside ps + k) (omega (arith, e)) in
    omega (arith, counted)
handle_at-counts now (suc i) fired (p ∷ ps) b k e =
    let counted = handle_at-counts now i fired ps b (inside p + k) (omega (arith, e)) in
    omega (arith, counted)

happen_all-counts :
    (es : List Event) (phases : List Phase) (b : Backend)
    → b.number_of_requests ≡ all_inside phases
    → let (phases', b') = happen_all es (phases, b) in b'.number_of_requests ≡ all_inside phases'
unfolding happen_all happen
happen_all-counts [] ps b e = e
happen_all-counts (comes process quits ∷ es) ps b e =
    happen_all-counts es (arrives process quits ∷ ps) b (omega (arith, e))
happen_all-counts (goes_on now i fired ∷ es) ps b e =
    let counted = handle_at-counts now i fired ps b 0 (omega (arith, e)) in
    happen_all-counts es _ _ (omega (arith, counted))
happen_all-counts (reports ∷ es) ps b e = happen_all-counts es ps _ e

-- The code that a call is answered with, once it is.
abbrev pub answer : Phase → Option ℕ
answer (sleeps code until) = some code
answer (leaves code) = some code
answer (gone code) = some code
answer phase = none

wrap-fits : (n : ℕ) → n < 2 ^ 63 → wrap_int64 (pos n) ≡ pos n
unfolding wrap_int64
wrap-fits n h = ground arith

with_timeout-le : (now : ℕ) (quits : Option ℕ) → with_timeout now quits ≤ now + 5 * second
with_timeout-le now none = omega arith
with_timeout-le now (some quits) = ground arith

sleeps_answered :
    (now : ℕ) (choice : Fired) (code until : ℕ) (b : Backend)
    → answer (handle now choice (sleeps code until) b).0 ≡ some code
unfolding handle
sleeps_answered now choice code until b = ground arith

-- A call whose context ends before its work is answered 503.
works_late :
    (now : ℕ) (choice : Fired) (c t : ℕ) (b : Backend)
    → c < t
    → c ≤ now
    → answer (handle now choice (works c t) b).0 ≡ some service_unavailable
unfolding handle
works_late now choice c t b late over = ground (arith, late, over)

-- The end of work for `n` calls.
work_end :
    (now n : ℕ)
    → n * second < 2 ^ 63
    → now + pos_part (wrap_int64 (pos (n * second))) ≡ now + n * second
work_end now n small = ap (λ z. now + pos_part z) (wrap-fits _ small)

seen_from-lt : (now c t : ℕ) → c < t → now < t → seen_from now c < t
seen_from-lt now c t p q = ground (arith, p, q)

seen_from-le : (now c t : ℕ) → c ≤ t → now ≤ t → seen_from now c ≤ t
seen_from-le now c t p q = ground (arith, p, q)

timer_first :
    (choice : Fired) (c t now : ℕ)
    → first_ready choice c t ≡ timer
    → (ltb now c && ltb now t) ≡ false
    → (t ≤ c) × (t ≤ now)
timer_first choice c t now p q = ground (arith, p, q)

-- A call in the first `select`, by whether it is blocked and by what is ready first.
abbrev gathered : (now c t : ℕ) → Backend → Bool → Fired → Phase × Backend
gathered now c t b true f = (gathers c t, b)
gathered now c t b false context_done = timed_out now b
gathered now c t b false timer = (work_from now c b, b)

handle-gathered :
    (now c t : ℕ) (choice : Fired) (b : Backend) (blocked : Bool) (f : Fired)
    → (ltb now c && ltb now t) ≡ blocked
    → first_ready choice c t ≡ f
    → handle now choice (gathers c t) b ≡ gathered now c t b blocked f
unfolding handle
handle-gathered now c t choice b true f p q =
    ap (λ z. if z then (gathers c t, b) else gathered now c t b false (first_ready choice c t)) p
handle-gathered now c t choice b false f p q =
    ap (λ z. if z then (gathers c t, b) else gathered now c t b false (first_ready choice c t)) p
    ∙ ap (gathered now c t b false) q

module _ (now : ℕ) (choice : Fired) (c t : ℕ) (b : Backend) (late : ℕ) (choice' : Fired)
    (later : Backend) (many : 5 ≤ b.number_of_requests)
    (small : b.number_of_requests * second < 2 ^ 63) (soon : c ≤ t + 4 * second) (next : now ≤ late)
    (over : c ≤ late) where
  abbrev working : Phase
  working = (handle now choice (gathers c t) b).0

  works_on_late :
      (t ≤ c) × (t ≤ now)
      → answer (handle late choice' (work_from now c b) later).0 ≡ some service_unavailable
  works_on_late (x, y) =
      let ends = work_end now b.number_of_requests small in
      works_late late choice' (seen_from now c) _ later
        (seen_from-lt now c _ (omega (arith, ends, many, soon, y)) (omega (arith, ends, many)))
        (seen_from-le now c late over next)

  gathered-answered :
      (blocked : Bool) (f : Fired)
      → (ltb now c && ltb now t) ≡ blocked
      → first_ready choice c t ≡ f
      → working ≢ gathers c t
      → answer (handle late choice' (gathered now c t b blocked f).0 later).0
        ≡ some service_unavailable
  gathered-answered true f p q goes =
      absurd (goes (ap (λ o. o.0) (handle-gathered now c t choice b true f p q)))
  gathered-answered false context_done p q goes =
      sleeps_answered late choice' service_unavailable (now + second) later
  gathered-answered false timer p q goes = works_on_late (timer_first choice c t now q p)

  working-answered :
      working ≢ gathers c t
      → answer (handle late choice' working later).0 ≡ some service_unavailable
  working-answered goes =
      let blocked = ltb now c && ltb now t in
      ap (λ o. answer (handle late choice' o.0 later).0)
        (handle-gathered now c t choice b blocked (first_ready choice c t) refl refl)
      ∙ gathered-answered blocked (first_ready choice c t) refl refl goes

gathering_lem :
    (quits : Option ℕ) (b0 b1 : Backend) (t0 t1 : ℕ) (choice0 choice1 : Fired)
    → b1.cache_enabled ≡ false
    → (handle t1 choice1 (handle t0 choice0 (arrives false quits) b0).0 b1).0
      ≡ gather_from t1 (with_timeout t0 quits)
unfolding handle
gathering_lem quits b0 b1 t0 t1 choice0 choice1 empty = rw (empty, handle) refl

-- A call that is not for the leader's request and comes to the demonstration's backend at `t0`,
-- finds the cache empty at `t1`, and goes on from its first `select` at `t2`, when at least 5 calls
-- are in the backend, is answered 503 once it goes on after that and 5 seconds after `t1`, whatever
-- has happened before and in the meantime, if the nanoseconds in as many seconds as there are calls
-- are below 2 ^ 63.
pub busy_times_out :
    (es : List Event) (quits : Option ℕ) (b0 b1 later : Backend) (t0 t1 t2 t3 : ℕ)
    (choice0 choice1 choice2 choice3 : Fired)
    → let (phases, b) = happen_all es ([], new_backend) in
      let waiting = (handle t0 choice0 (arrives false quits) b0).0 in
      let gathering = (handle t1 choice1 waiting b1).0 in
      let busy = (handle t2 choice2 gathering b).0 in
      b1.cache_enabled ≡ false
      → 5 ≤ all_inside phases
      → all_inside phases * second < 2 ^ 63
      → t0 ≤ t1
      → t2 ≤ t3
      → t1 + 5 * second ≤ t3
      → busy ≢ gathering
      → answer (handle t3 choice3 busy later).0 ≡ some service_unavailable
busy_times_out es quits b0 b1 later t0 t1 t2 t3 choice0 choice1 choice2 choice3 empty many small
      came next over =
    let (phases, b) = happen_all es ([], new_backend) in
    let counted = happen_all-counts es [] new_backend refl in
    let c = with_timeout t0 quits in
    let soon = with_timeout-le t0 quits in
    let ends = seen_from-le t1 c (t1 + 5 * second) (omega (arith, soon, came)) (omega arith) in
    subst⁻¹
      (λ g.
        (handle t2 choice2 g b).0 ≢ g
        → answer (handle t3 choice3 (handle t2 choice2 g b).0 later).0 ≡ some service_unavailable)
      (gathering_lem quits b0 b1 t0 t1 choice0 choice1 empty)
      (working-answered t2 choice2 (seen_from t1 c) (t1 + second) b t3 choice3 later
        (omega (arith, counted, many)) (omega (arith, counted, small)) (omega (arith, ends)) next
        (omega (arith, ends, over)))
