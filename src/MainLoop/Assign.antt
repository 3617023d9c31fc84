-- ===== src/MainLoop/Assign.antt =====
-- Which element of the queue a station is linked to before its valve is looked at.
use indigo_open_sprinkler_pl.Common.{
  ℕ, zero, suc, ◌≤◌, ◌<◌, ◌≡◌, refl, ◌∙◌, arith, update, replay, ℕ_discrete,
}
use indigo_open_sprinkler_pl.Runtime.{Runtime, max_num_stations}
use indigo_open_sprinkler_pl.Runtime.Links.{IsConsistent, IsLinked}
use indigo_open_sprinkler_pl.MainLoop.{assign, assign_all}

-- The element at index i is not passed over for one that starts later.
abbrev pub IsServed : Runtime → ℕ → Type 0
IsServed r i =
    let k = r.station_qid (r.queue i).sid in
    (k < r.nqueue) × ((r.queue k).sid ≡ (r.queue i).sid) × ((r.queue k).st ≤ (r.queue i).st)

assign-queue :
    (i : ℕ) (r : Runtime) → ((assign i r).queue ≡ r.queue) × ((assign i r).nqueue ≡ r.nqueue)
unfolding assign
assign-queue i r = (ground arith, ground arith)

assign-IsLinked : (i s : ℕ) (r : Runtime) → i < r.nqueue → IsLinked r s → IsLinked (assign i r) s
unfolding assign update
assign-IsLinked i s r lt l = ground (arith, l)

assign-IsConsistent :
    (i : ℕ) (r : Runtime) → i < r.nqueue → IsConsistent r → IsConsistent (assign i r)
assign-IsConsistent i r lt c = record {
  bounded = rw ((assign-queue i r).1) c.bounded;
  links = λ s h. assign-IsLinked i s r lt (c.links s h);
}

assign-own :
    (i : ℕ) (r : Runtime)
    → i < r.nqueue
    → (r.queue i).sid < max_num_stations
    → IsConsistent r
    → IsServed (assign i r) i
unfolding assign update
assign-own i r lt h c = ground (arith, c.links (r.queue i).sid h, c.bounded)

assign-others :
    (i j : ℕ) (r : Runtime) → i < r.nqueue → IsConsistent r → IsServed r j → IsServed (assign i r) j
unfolding assign update
assign-others i j r lt c s = ground (arith, s, c.bounded)

module _ (r : Runtime) (c : IsConsistent r)
    (valid : (i : ℕ) → i < r.nqueue → (r.queue i).sid < max_num_stations) where
  abbrev after : ℕ → Runtime
  after n = replay n assign r

  after-queue : (n : ℕ) → ((after n).queue ≡ r.queue) × ((after n).nqueue ≡ r.nqueue)
  after-queue zero = (refl, refl)
  after-queue (suc n) =
      let s = assign-queue n (after n) in (s.0 ∙ (after-queue n).0, s.1 ∙ (after-queue n).1)

  after-IsConsistent : (n : ℕ) → n ≤ r.nqueue → IsConsistent (after n)
  after-IsConsistent zero h = c
  after-IsConsistent (suc n) h =
      assign-IsConsistent n (after n) (omega (arith, (after-queue n).1))
        (after-IsConsistent n (omega arith))

  after-IsServed : (n i : ℕ) → n ≤ r.nqueue → i < n → IsServed (after n) i
  after-IsServed zero i h lt = absurd (omega arith)
  after-IsServed (suc n) i h lt =
      let inside : n < (after n).nqueue = omega (arith, (after-queue n).1) in
      let v = after-IsConsistent n (omega arith) in
      elim (ℕ_discrete i n) [
        | yes e ↦
            rw e (assign-own n (after n) inside (rw (after-queue n).0 (valid n (omega arith))) v)
        | no ne ↦
            assign-others n i (after n) inside v (after-IsServed n i (omega arith) (omega arith))
      ]

  -- In a consistent queue whose elements have valid station numbers, the loop that assigns elements
  -- to stations keeps the queue and its consistency, and afterwards the station of every queued
  -- element is linked to a queued element of its own that starts no later than any other of them.
  pub assign_all_lem :
      ((assign_all r).queue ≡ r.queue)
      × ((assign_all r).nqueue ≡ r.nqueue)
      × IsConsistent (assign_all r)
      × ((i : ℕ) → i < r.nqueue → IsServed (assign_all r) i)
  unfolding assign_all
  assign_all_lem = (
    (after-queue r.nqueue).0,
    (after-queue r.nqueue).1,
    after-IsConsistent r.nqueue (omega arith),
    λ i lt. after-IsServed r.nqueue i (omega arith) lt,
  )
