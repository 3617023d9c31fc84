-- ===== src/Runtime/Tests.antt =====
-- Instances and runs of the queue.
use mathlib.Core.List.{Perm}
use indigo_open_sprinkler_pl.Common.{ℕ, ◌+◌, ◌≡◌, refl, arith, [], ◌∷◌, update, if◌then◌else◌, ◌==◌}
use indigo_open_sprinkler_pl.Runtime.{Element, Runtime, dequeue, release, queued}
use indigo_open_sprinkler_pl.Runtime.Links.{IsConsistent, release-IsConsistent}
use indigo_open_sprinkler_pl.Runtime.Removal.{dequeue_perm}

abbrev element : ℕ → ℕ → ℕ → Element
element st dur sid = record { st = st; dur = dur; sid = sid; pid = 1 }

-- Stations 4, 5 and 6 are queued and linked.
abbrev three : Runtime
three = record {
  queue = λ i. element (100 + i) 60 (4 + i);
  nqueue = 3;
  station_qid = λ s. if s == 4 then 0 else if s == 5 then 1 else if s == 6 then 2 else 255;
  last_seq_stop_time = 0;
}

three-IsConsistent : IsConsistent three
three-IsConsistent = record { bounded = omega arith; links = λ s lt. ground arith }

dequeue_run : queued (dequeue 0 three) ≡ element 101 60 5 ∷ element 102 60 6 ∷ []
unfolding dequeue update
dequeue_run = refl

release_run : ((release 4 three).station_qid 6 ≡ 0) × ((release 4 three).station_qid 4 ≡ 255)
unfolding release update
release_run = (refl, refl)

dequeue_perm_example : Perm (queued three) (element 101 60 5 ∷ queued (dequeue 1 three))
dequeue_perm_example = dequeue_perm 1 three (omega arith)

release-IsConsistent_example : IsConsistent (release 4 three)
release-IsConsistent_example = release-IsConsistent 4 three (omega arith) three-IsConsistent
