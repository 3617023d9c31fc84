-- ===== src/Runtime.antt =====
-- The runtime queue of firmware/program.cpp (`ProgramData`): elements waiting for a valve, and for
-- each station the queue index that it is linked to (0xFF: none). Arrays are functions of the
-- index; what lies past `nqueue` is stale, as in the source.
pub mod Links
pub mod Removal
pub mod Bounds
mod Tests
use indigo_open_sprinkler_pl.Common.{
  ℕ, zero, suc, ◌+◌, ◌-◌, Bool, true, false, ltb, leb, ◌==◌, if◌then◌else◌, Option, none, some,
  update, List, [], ◌∷◌,
}

-- `RuntimeQueueStruct`
pub record Element : Type 0 where
  pub st : ℕ
  pub dur : ℕ
  pub sid : ℕ
  pub pid : ℕ

abbrev pub max_num_stations : ℕ
max_num_stations = 56

abbrev pub runtime_queue_size : ℕ
runtime_queue_size = max_num_stations

-- The value 0xFF in `station_qid`.
abbrev pub unlinked : ℕ
unlinked = 255

-- `queue i` for an index behind the array stands for what lies in memory there.
pub record Runtime : Type 0 where
  pub queue : ℕ → Element
  pub nqueue : ℕ
  pub station_qid : ℕ → ℕ
  pub last_seq_stop_time : ℕ

unfoldable pub reset_runtime : Runtime → Runtime
reset_runtime r = record r {
  station_qid = λ sid. if ltb sid max_num_stations then unlinked else r.station_qid sid;
  nqueue = 0;
  last_seq_stop_time = 0;
}

-- The index of the slot, and the queue that counts it; nothing if the queue is full.
unfoldable pub enqueue : Runtime → Option (ℕ × Runtime)
enqueue r =
    if ltb r.nqueue runtime_queue_size
    then some (r.nqueue, record r { nqueue = r.nqueue + 1 })
    else none

-- The writes of the four fields by a caller of `enqueue`.
unfoldable pub fill : ℕ → Element → Runtime → Runtime
fill i e r = record r { queue = update r.queue i e }

-- `queue[qid] = queue[nqueue - 1]` and the mend of the link of the element that moved.
unfoldable pub move_last : ℕ → Runtime → Runtime
move_last qid r =
    let last = r.queue (r.nqueue - 1) in
    record r {
      queue = update r.queue qid last;
      station_qid =
          if r.station_qid last.sid == r.nqueue - 1
          then update r.station_qid last.sid qid
          else r.station_qid;
    }

unfoldable pub dequeue : ℕ → Runtime → Runtime
unfolding move_last
dequeue qid r =
    if leb r.nqueue qid
    then r
    else let moved = if ltb qid (r.nqueue - 1) then move_last qid r else r in
      record moved { nqueue = r.nqueue - 1 }

-- The end of `turn_off_station`: the station's element leaves the queue, and its link is cut.
unfoldable pub release : ℕ → Runtime → Runtime
unfolding dequeue
release sid r =
    let r' = dequeue (r.station_qid sid) r in
    record r' { station_qid = update r'.station_qid sid unlinked }

-- The elements below index n, the last one first.
abbrev pub elements : (ℕ → Element) → ℕ → List Element
elements q zero = []
elements q (suc n) = q n ∷ elements q n

abbrev pub queued : Runtime → List Element
queued r = elements r.queue r.nqueue
