-- ===== src/Runtime/Bounds.antt =====
-- Array bounds of the queue and of the links (firmware/program.cpp). Links may be stale (they may
-- point behind the queue), but every index that the operations use lies inside its array.
use indigo_open_sprinkler_pl.Common.{ℕ, ◌-◌, ◌≤◌, ◌<◌, ◌≡◌, ◌⊎◌, inl, arith, some, update}
use indigo_open_sprinkler_pl.Runtime.{
  Element, Runtime, max_num_stations, runtime_queue_size, unlinked, reset_runtime, enqueue, fill,
  dequeue, release,
}

-- A link is none, or an index of the array of elements.
abbrev pub IsIndex : ℕ → Type 0
IsIndex qid = (qid ≡ unlinked) ⊎ (qid < runtime_queue_size)

pub record IsBounded (r : Runtime) : Type 0 where
  pub bounded : r.nqueue ≤ runtime_queue_size
  pub indices : (s : ℕ) → s < max_num_stations → IsIndex (r.station_qid s)
  pub stations : (i : ℕ) → i < r.nqueue → (r.queue i).sid < max_num_stations

pub reset_runtime-IsBounded : (r : Runtime) → IsBounded (reset_runtime r)
unfolding reset_runtime
reset_runtime-IsBounded r = record {
  bounded = omega arith;
  indices = λ s lt. inl (ground arith);
  stations = λ i lt. absurd (omega arith);
}

pub enqueue-IsBounded :
    (r q : Runtime) (i : ℕ) (e : Element)
    → IsBounded r
    → e.sid < max_num_stations
    → enqueue r ≡ some (i, q)
    → IsBounded (fill i e q)
unfolding enqueue fill update
enqueue-IsBounded r q i e c lt h = record {
  bounded = ground (arith, c.bounded);
  indices = λ s k. ground (arith, c.indices s k);
  stations = λ j k. ground (arith, c.stations j);
}

-- An element of a station is written over another one.
pub fill-IsBounded :
    (i : ℕ) (e : Element) (r : Runtime)
    → IsBounded r
    → e.sid < max_num_stations
    → IsBounded (fill i e r)
unfolding fill update
fill-IsBounded i e r c lt = record {
  bounded = c.bounded;
  indices = c.indices;
  stations = λ j k. ground (arith, c.stations j k);
}

pub dequeue-IsBounded : (qid : ℕ) (r : Runtime) → IsBounded r → IsBounded (dequeue qid r)
unfolding dequeue update
dequeue-IsBounded qid r c = record {
  bounded = ground (arith, c.bounded);
  indices = λ s lt. ground (arith, c.indices s lt, c.bounded);
  stations = λ j lt. ground (arith, c.stations j, c.stations (r.nqueue - 1));
}

unlink-IsBounded :
    (sid : ℕ) (r : Runtime)
    → IsBounded r
    → IsBounded (record r { station_qid = update r.station_qid sid unlinked })
unfolding update
unlink-IsBounded sid r c = record {
  bounded = c.bounded;
  indices = λ s lt. ground (arith, c.indices s lt);
  stations = c.stations;
}

pub release-IsBounded : (sid : ℕ) (r : Runtime) → IsBounded r → IsBounded (release sid r)
unfolding release
release-IsBounded sid r c =
    unlink-IsBounded sid (dequeue (r.station_qid sid) r) (dequeue-IsBounded (r.station_qid sid) r c)

-- Writing times into the elements keeps all indices.
pub retimed-IsBounded :
    (r r' : Runtime)
    → IsBounded r
    → r'.nqueue ≡ r.nqueue
    → r'.station_qid ≡ r.station_qid
    → ((i : ℕ) → (r'.queue i).sid ≡ (r.queue i).sid)
    → IsBounded r'
retimed-IsBounded r r' c n l h = record {
  bounded = omega (arith, c.bounded, n);
  indices = λ s lt. rw l (c.indices s lt);
  stations = λ i lt. omega (arith, c.stations i (omega (arith, n)), h i);
}
