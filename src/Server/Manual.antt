-- ===== src/Server/Manual.antt =====
-- A station that is tested by hand (`/cm`).
use indigo_open_sprinkler_pl.Common.{
  ℕ, ◌%◌, ◌≤◌, ◌<◌, ◌≡◌, ◌≢◌, ◌⊎◌, inl, inr, ◌∙◌, ap, arith, true, false, ◌==◌, ==_ne,
  if◌then◌else◌, ◌∷◌, map, none, some, update,
}
use indigo_open_sprinkler_pl.Runtime.{
  Element, Runtime, enqueue, fill, queued, elements, unlinked, runtime_queue_size,
}
use indigo_open_sprinkler_pl.Runtime.Removal.{enqueue-queued, key, keys-eq}
use indigo_open_sprinkler_pl.Controller.{Controller, now_tz}
use indigo_open_sprinkler_pl.Scheduler.{schedule_all_stations, add_element, is_master}
use indigo_open_sprinkler_pl.Scheduler.Starts.{schedule_keeps}
use indigo_open_sprinkler_pl.Server.{html_success, html_not_permitted, test_station}

-- The element of a test.
abbrev pub test_element : ℕ → ℕ → Element
test_element sid timer = record { st = 0; dur = timer; sid = sid; pid = 99 }

scheduled-keys :
    (t : ℕ) (c : Controller)
    → map key (queued (schedule_all_stations t c).runtime) ≡ map key (queued c.runtime)
scheduled-keys t c =
    let k = schedule_keeps t c in
    ap (λ n. map key (elements (schedule_all_stations t c).runtime.queue n)) (k 0).4
    ∙ keys-eq c.runtime.queue (schedule_all_stations t c).runtime.queue c.runtime.nqueue
        (λ i. ground (arith, (k i).0, (k i).1, (k i).2))

add_element-some :
    (sid timer i : ℕ) (c : Controller) (q : Runtime)
    → timer < 65536
    → enqueue c.runtime ≡ some (i, q)
    → add_element sid 99 timer c ≡ (record c { runtime = fill i (test_element sid timer) q }, true)
unfolding add_element
add_element-some sid timer i c q h e =
    let small : timer % 65536 ≡ timer = omega arith in rw (add_element, e, small)

add_element-none :
    (sid timer : ℕ) (c : Controller)
    → enqueue c.runtime ≡ none
    → add_element sid 99 timer c ≡ (c, false)
unfolding add_element
add_element-none sid timer c e = rw (add_element, e)

module _ (sid timer : ℕ) (c : Controller) (small : timer < 65536)
    (valve : is_master c sid ≡ false) where
  test_new :
      (d : Controller)
      → c.runtime.station_qid sid ≡ unlinked
      → add_element sid 99 timer c ≡ (d, true)
      → test_station sid timer c ≡ (schedule_all_stations (now_tz c) d, html_success)
  unfolding test_station
  test_new d h e = rw (test_station, h, e, valve)

  test_full :
      c.runtime.station_qid sid ≡ unlinked
      → add_element sid 99 timer c ≡ (c, false)
      → test_station sid timer c ≡ (c, html_not_permitted)
  unfolding test_station
  test_full h e = rw (test_station, h, e, valve)

  test_again :
      c.runtime.station_qid sid ≢ unlinked
      → test_station sid timer c ≡ (
        schedule_all_stations (now_tz c) (record c {
          runtime = fill (c.runtime.station_qid sid) (test_element sid timer) c.runtime;
        }),
        html_success,
      )
  unfolding test_station
  test_again ne = rw (test_station, ==_ne (c.runtime.station_qid sid) unlinked ne, valve)

  test_free :
      (q : Runtime)
      → c.runtime.station_qid sid ≡ unlinked
      → enqueue c.runtime ≡ some (c.runtime.nqueue, q)
      → queued (fill c.runtime.nqueue (test_element sid timer) q)
        ≡ test_element sid timer ∷ queued c.runtime
      → ((test_station sid timer c).1 ≡ html_success)
        × (map key (queued (test_station sid timer c).0.runtime)
            ≡ (sid, timer, 99) ∷ map key (queued c.runtime))
  test_free q h e f =
      let d = record c { runtime = fill c.runtime.nqueue (test_element sid timer) q } in
      let r = test_new d h (add_element-some sid timer c.runtime.nqueue c q small e) in
      (
        ap (λ x. x.1) r,
        ap (λ x. map key (queued x.0.runtime)) r ∙ scheduled-keys (now_tz c) d ∙ ap (map key) f,
      )

-- A test, for less than 65536 seconds, of a station that is no master. If the station is linked to no
-- queue element: either the queue is full (56 elements or more), and the request is refused and
-- nothing changes; or it has room, and an element with the given time and the program number 99 is
-- queued and the others keep station, time and number. If it is linked to one, the request succeeds
-- and that element (and no other) gets the station, the new time and the number 99.
pub test_station_lem :
    (sid timer : ℕ) (c : Controller)
    → timer < 65536
    → is_master c sid ≡ false
    → let c' = (test_station sid timer c).0 in
      let answer = (test_station sid timer c).1 in
      let qid = c.runtime.station_qid sid in
      (qid ≡ unlinked
        → (((runtime_queue_size ≤ c.runtime.nqueue)
              × (test_station sid timer c ≡ (c, html_not_permitted)))
            ⊎ ((c.runtime.nqueue < runtime_queue_size)
                × (answer ≡ html_success)
                × (map key (queued c'.runtime) ≡ (sid, timer, 99) ∷ map key (queued c.runtime)))))
      × (qid ≢ unlinked
          → (answer ≡ html_success)
            × (c'.runtime.nqueue ≡ c.runtime.nqueue)
            × ((j : ℕ)
                → key (c'.runtime.queue j)
                  ≡ (if j == qid then (sid, timer, 99) else key (c.runtime.queue j))))
unfolding fill update
test_station_lem sid timer c small valve = (
  λ h. elim (enqueue-queued c.runtime (test_element sid timer)) [
    | inl (full, e) ↦
        inl (full, test_full sid timer c small valve h (add_element-none sid timer c e))
    | inr (q, e, f, l, room) ↦
        let made = test_free sid timer c small valve q h e f in inr (room, made.0, made.1)
  ],
  λ ne.
      let r = test_again sid timer c small valve ne in
      let d = record c {
        runtime = fill (c.runtime.station_qid sid) (test_element sid timer) c.runtime;
      } in
      let k = schedule_keeps (now_tz c) d in
      (
        ap (λ x. x.1) r,
        ap (λ x. x.0.runtime.nqueue) r ∙ (k 0).4,
        λ j. ap (λ x. key (x.0.runtime.queue j)) r ∙ ground (arith, (k j).0, (k j).1, (k j).2),
      ),
)
