-- ===== src/Runtime/Links.antt =====
-- Links from stations to queue elements (`station_qid` of firmware/program.cpp), under the
-- operations of the queue.
use indigo_open_sprinkler_pl.Common.{
  ℕ, ◌≤◌, ◌<◌, ◌≡◌, ◌≢◌, ◌⊎◌, inl, ◌==◌, if◌then◌else◌, Option, none, some, update, arith,
  ℕ_discrete, ==_refl,
}
use indigo_open_sprinkler_pl.Runtime.{
  Element, Runtime, max_num_stations, runtime_queue_size, unlinked, reset_runtime, enqueue, fill,
  release,
}

-- Station `s` has no link, or it is linked to a queued element of its own.
abbrev pub IsLinked : Runtime → ℕ → Type 0
IsLinked r s =
    (r.station_qid s ≡ unlinked)
    ⊎ ((r.station_qid s < r.nqueue) × ((r.queue (r.station_qid s)).sid ≡ s))

pub record IsConsistent (r : Runtime) : Type 0 where
  pub bounded : r.nqueue ≤ runtime_queue_size
  pub links : (s : ℕ) → s < max_num_stations → IsLinked r s

pub reset_runtime-IsConsistent : (r : Runtime) → IsConsistent (reset_runtime r)
unfolding reset_runtime
reset_runtime-IsConsistent r = record { bounded = omega arith; links = λ s lt. inl (ground arith) }

-- A consistent queue stays consistent when a caller takes a slot and fills it.
pub enqueue-IsConsistent :
    (r q : Runtime) (i : ℕ) (e : Element)
    → IsConsistent r
    → enqueue r ≡ some (i, q)
    → IsConsistent (fill i e q)
unfolding enqueue fill update
enqueue-IsConsistent r q i e c h = record {
  bounded = ground (arith, c.bounded);
  links = λ s lt. ground (arith, c.links s lt);
}

release-link :
    (sid s : ℕ) (r : Runtime)
    → IsConsistent r
    → sid < max_num_stations
    → s < max_num_stations
    → IsLinked (release sid r) s
unfolding release update
release-link sid s r c hs lt = ground (arith, c.links s lt, c.links sid hs, c.bounded)

release-bounded :
    (sid : ℕ) (r : Runtime) → IsConsistent r → (release sid r).nqueue ≤ runtime_queue_size
unfolding release
release-bounded sid r c = ground (arith, c.bounded)

-- A consistent queue stays consistent when a station gives up its element: no other station is left
-- pointing to the slot that was emptied or moved.
pub release-IsConsistent :
    (sid : ℕ) (r : Runtime) → sid < max_num_stations → IsConsistent r → IsConsistent (release sid r)
release-IsConsistent sid r hs c = record {
  bounded = release-bounded sid r c;
  links = λ s lt. release-link sid s r c hs lt;
}

-- When a station gives up its element, every other station keeps its own: the link may point to
-- another slot, but the element there is the same.
pub release_others :
    (sid s : ℕ) (r : Runtime)
    → IsConsistent r
    → sid < max_num_stations
    → s < max_num_stations
    → s ≢ sid
    → ((r.station_qid s ≡ unlinked) × ((release sid r).station_qid s ≡ unlinked))
      ⊎ ((r.station_qid s ≢ unlinked)
          × ((release sid r).station_qid s ≢ unlinked)
          × ((release sid r).queue ((release sid r).station_qid s) ≡ r.queue (r.station_qid s)))
unfolding release update
release_others sid s r c hs lt ne = ground (arith, c.links s lt, c.links sid hs, c.bounded)

pub release_self : (sid : ℕ) (r : Runtime) → (release sid r).station_qid sid ≡ unlinked
unfolding release update
release_self sid r = ground arith

-- The queue element of a station.
abbrev pub current : Runtime → ℕ → Option Element
current r s = if r.station_qid s == unlinked then none else some (r.queue (r.station_qid s))

pub current-release :
    (sid s : ℕ) (r : Runtime)
    → IsConsistent r
    → sid < max_num_stations
    → s < max_num_stations
    → current (release sid r) s ≡ (if s == sid then none else current r s)
current-release sid s r c hs lt = elim (ℕ_discrete s sid) [
  | yes e ↦ rw (e, release_self sid r, ==_refl sid)
  | no ne ↦ ground (arith, release_others sid s r c hs lt ne)
]
