-- ===== src/MainLoop/Cleanup.antt =====
-- What the clean-up loop leaves in the queue.
use mathlib.Core.List.{Perm}
use mathlib.Core.List.Perm
use mathlib.Core.List as L
use indigo_open_sprinkler_pl.Common.{
  ℕ, zero, suc, ◌-◌, ◌≤◌, ◌<◌, ◌≡◌, inl, inr, refl, arith, true, false, if◌then◌else◌, update,
  ℕ_discrete, Bool-cases, Option, none, some, List, ◌∷◌, subst,
}
use indigo_open_sprinkler_pl.Runtime.{Element, Runtime, dequeue, queued, elements}
use indigo_open_sprinkler_pl.Runtime.Removal.{dequeue_perm}
use indigo_open_sprinkler_pl.MainLoop.{is_over, clean_up}

-- The element, if it is not over.
abbrev pub live : ℕ → Element → Option Element
live curr_time q = if is_over curr_time q then none else some q

-- The elements of the list that are not over.
abbrev pub still_live : ℕ → List Element → List Element
still_live curr_time = L.filter_map (live curr_time)

-- Nothing from index n on is over.
abbrev LiveFrom : ℕ → ℕ → Runtime → Type 0
LiveFrom curr_time n r = (i : ℕ) → n ≤ i → i < r.nqueue → is_over curr_time (r.queue i) ≡ false

-- The round at index n.
round : ℕ → ℕ → Runtime → Runtime
round curr_time n r = if is_over curr_time (r.queue n) then dequeue n r else r

round-LiveFrom :
    (curr_time n : ℕ) (r : Runtime)
    → n < r.nqueue
    → LiveFrom curr_time (suc n) r
    → LiveFrom curr_time n (round curr_time n r) × (n ≤ (round curr_time n r).nqueue)
unfolding round dequeue update
round-LiveFrom t n r h l = elim (Bool-cases (is_over t (r.queue n))) [
  | inl e ↦ rw e (
    λ i k lt. elim (ℕ_discrete i n) [
      | yes p ↦ ground (arith, l (r.nqueue - 1))
      | no p ↦ ground (arith, l i)
    ],
    ground arith,
  )
  | inr e ↦ rw e (
    λ i k lt. elim (ℕ_discrete i n) [ yes p ↦ rw p e | no p ↦ l i (omega arith) lt ],
    omega arith,
  )
]

still_live-over :
    (t : ℕ) (e : Element) (es : List Element)
    → is_over t e ≡ true
    → still_live t (e ∷ es) ≡ still_live t es
unfolding L.filter_map
still_live-over t e es h = rw h

round-still_live :
    (t n : ℕ) (r : Runtime)
    → n < r.nqueue
    → Perm (still_live t (queued r)) (still_live t (queued (round t n r)))
unfolding round
round-still_live t n r h = elim (Bool-cases (is_over t (r.queue n))) [
  | inl e ↦ rw e (
      subst (λ x. Perm (still_live t (queued r)) x)
        (still_live-over t (r.queue n) (queued (dequeue n r)) e)
        (Perm.filter_map (live t) (dequeue_perm n r h)))
  | inr e ↦ rw e (Perm.refl _)
]

clean_up-steps :
    (t n : ℕ) (r : Runtime)
    → n ≤ r.nqueue
    → LiveFrom t n r
    → LiveFrom t 0 (clean_up t n r)
      × Perm (still_live t (queued r)) (still_live t (queued (clean_up t n r)))
unfolding clean_up round
clean_up-steps t zero r h l = (l, Perm.refl _)
clean_up-steps t (suc n) r h l =
    let s = round-LiveFrom t n r (omega arith) l in
    let rest = clean_up-steps t n (round t n r) s.1 s.0 in
    (rest.0, Perm.trans (round-still_live t n r (omega arith)) rest.1)

still_live-all :
    (t n : ℕ) (q : ℕ → Element)
    → ((i : ℕ) → i < n → is_over t (q i) ≡ false)
    → still_live t (elements q n) ≡ elements q n
unfolding L.filter_map
still_live-all t zero q h = refl
still_live-all t (suc n) q h =
    rw (h n (omega arith), still_live-all t n q (λ i lt. h i (omega arith)))

-- The clean-up loop removes exactly the elements that are marked (water time 0) or have run out:
-- what is left is not over, and is, up to order, what was queued and is not over.
pub clean_up_lem :
    (curr_time : ℕ) (r : Runtime)
    → let r' = clean_up curr_time r.nqueue r in
      ((i : ℕ) → i < r'.nqueue → is_over curr_time (r'.queue i) ≡ false)
      × Perm (still_live curr_time (queued r)) (queued r')
clean_up_lem t r =
    let s = clean_up-steps t r.nqueue r (omega arith) (λ i k lt. absurd (omega arith)) in
    let all = λ (i : ℕ) (lt : i < (clean_up t r.nqueue r).nqueue). s.0 i (omega arith) lt in
    (
      all,
      subst (λ x. Perm (still_live t (queued r)) x)
          (still_live-all t (clean_up t r.nqueue r).nqueue (clean_up t r.nqueue r).queue all) s.1,
    )
