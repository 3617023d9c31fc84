-- ===== src/Runtime/Removal.antt =====
-- What `dequeue` removes, as lists up to order.
use mathlib.Core.List.{Perm}
use mathlib.Core.List.Perm
use native.Mathlib.Nat.{le_refl}
use native.Mathlib.Numerals.{add-one}
use indigo_open_sprinkler_pl.Common.{
  dec_lt, lt→ltb, ltb-false, ℕ, zero, suc, ◌+◌, ◌-◌, ◌≤◌, ◌<◌, ◌≡◌, ◌⊎◌, inl, inr, none, some, refl,
  sym, update, update_self, update_ne, arith, ℕ_discrete, ◌∷◌, subst, map,
}
use indigo_open_sprinkler_pl.Runtime.{
  Element, Runtime, release, dequeue, elements, queued, enqueue, fill, runtime_queue_size,
}

elements-update :
    (q : ℕ → Element) (i : ℕ) (e : Element) (n : ℕ)
    → n ≤ i
    → elements (update q i e) n ≡ elements q n
elements-update q i e zero h = refl
elements-update q i e (suc n) h =
    rw (update_ne q i e n (λ eq. absurd (omega arith)), elements-update q i e n (omega arith))

elements-swap_last :
    (q : ℕ → Element) (e : Element) (n : ℕ)
    → Perm (e ∷ elements q (suc n)) (q n ∷ elements (update q n e) (suc n))
elements-swap_last q e n =
    rw (update_self q n e, elements-update q n e n (omega arith)) (Perm.swap _ _ _)

elements-swap :
    (q : ℕ → Element) (i : ℕ) (e : Element) (n : ℕ)
    → i < n
    → Perm (e ∷ elements q n) (q i ∷ elements (update q i e) n)
elements-swap q i e zero h = elim h [ ]
elements-swap q i e (suc n) h = elim (ℕ_discrete i n) [
  | yes p ↦
      subst (λ k. Perm (e ∷ elements q (suc n)) (q k ∷ elements (update q k e) (suc n))) (sym p)
        (elements-swap_last q e n)
  | no p ↦ rw (update_ne q i e n (λ eq. p (sym eq))) (
      Perm.trans (Perm.swap _ _ _)
        (Perm.trans (Perm.cons (q n) (elements-swap q i e n (omega arith))) (Perm.swap _ _ _)))
]

dequeue_last : (r : Runtime) (m : ℕ) → r.nqueue ≡ suc m → queued (dequeue m r) ≡ elements r.queue m
unfolding dequeue
dequeue_last r m e = rw e (ground arith)

dequeue_below :
    (qid : ℕ) (r : Runtime) (m : ℕ)
    → r.nqueue ≡ suc m
    → qid < m
    → queued (dequeue qid r) ≡ elements (update r.queue qid (r.queue m)) m
unfolding dequeue
dequeue_below qid r m e h = rw e (ground arith)

dequeue_cases :
    (qid : ℕ) (r : Runtime) (m : ℕ)
    → r.nqueue ≡ suc m
    → qid ≤ m
    → Perm (elements r.queue (suc m)) (r.queue qid ∷ queued (dequeue qid r))
dequeue_cases qid r m e h = elim (ℕ_discrete qid m) [
  | yes p ↦
      subst (λ k. Perm (elements r.queue (suc m)) (r.queue k ∷ queued (dequeue k r))) (sym p)
        (rw (dequeue_last r m e) (Perm.refl _))
  | no p ↦
      rw (dequeue_below qid r m e (omega arith))
        (elements-swap r.queue qid (r.queue m) m (omega arith))
]

-- `dequeue` takes exactly the element at the index out of the queue, up to the order of the others.
pub dequeue_perm :
    (qid : ℕ) (r : Runtime)
    → qid < r.nqueue
    → Perm (queued r) (r.queue qid ∷ queued (dequeue qid r))
dequeue_perm qid r h =
    let e : r.nqueue ≡ suc (r.nqueue - 1) = omega arith in
    subst (λ k. Perm (elements r.queue k) (r.queue qid ∷ queued (dequeue qid r))) (sym e)
      (dequeue_cases qid r (r.nqueue - 1) e (omega arith))

-- The station's element leaves the queue, and no other.
pub release-queued :
    (sid : ℕ) (r : Runtime)
    → r.station_qid sid < r.nqueue
    → Perm (queued r) (r.queue (r.station_qid sid) ∷ queued (release sid r))
unfolding release
release-queued sid r h = dequeue_perm (r.station_qid sid) r h

-- An index past the end changes nothing.
pub dequeue_outside : (qid : ℕ) (r : Runtime) → r.nqueue ≤ qid → dequeue qid r ≡ r
unfolding dequeue
dequeue_outside qid r h = ground arith

-- `enqueue` refuses exactly when the queue is full, and otherwise the caller's element is added to
-- the queued ones and all of them stay as they were.
pub enqueue-queued :
    (r : Runtime) (e : Element)
    → ((runtime_queue_size ≤ r.nqueue) × (enqueue r ≡ none))
      ⊎ ((q : Runtime) × (enqueue r ≡ some (r.nqueue, q))
          × (queued (fill r.nqueue e q) ≡ e ∷ queued r)
          × ((fill r.nqueue e q).station_qid ≡ r.station_qid)
          × (r.nqueue < runtime_queue_size))
unfolding enqueue fill
enqueue-queued r e = elim (dec_lt r.nqueue runtime_queue_size) [
  | yes p ↦ inr (
    record r { nqueue = r.nqueue + 1 },
    rw (lt→ltb _ _ p),
    rw (
      add-one r.nqueue,
      update_self r.queue r.nqueue e,
      elements-update r.queue r.nqueue e r.nqueue (le_refl _),
    ),
    refl,
    p,
  )
  | no p ↦ inl (omega arith, rw (ltb-false r.nqueue runtime_queue_size (omega arith)))
]

pub enqueue-nqueue :
    (r q : Runtime) (i : ℕ) (e : Element)
    → enqueue r ≡ some (i, q)
    → (fill i e q).nqueue ≡ r.nqueue + 1
unfolding enqueue fill
enqueue-nqueue r q i e h = ground arith

-- What the scheduler does not change of an element: station, water time and program.
abbrev pub key : Element → ℕ × ℕ × ℕ
key e = (e.sid, e.dur, e.pid)

pub keys-eq :
    (q q' : ℕ → Element) (n : ℕ)
    → ((i : ℕ) → key (q' i) ≡ key (q i))
    → map key (elements q' n) ≡ map key (elements q n)
keys-eq q q' zero h = refl
keys-eq q q' (suc n) h = rw (h n, keys-eq q q' n h)
