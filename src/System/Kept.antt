-- ===== src/System/Kept.antt =====
-- Operations that write none of the tables.
use indigo_open_sprinkler_pl.Common.{
  ℕ, ◌≡◌, refl, ◌∙◌, arith, Bool, true, false, if◌then◌else◌, replay_inv,
}
use indigo_open_sprinkler_pl.Common.Int.{ℤ}
use indigo_open_sprinkler_pl.Runtime.{Runtime}
use indigo_open_sprinkler_pl.Runtime.Bounds.{IsBounded}
use indigo_open_sprinkler_pl.Controller.{Controller, LogData, MessageType, push_message, write_log}
use indigo_open_sprinkler_pl.Controller.Stations.{
  switch_special_station, set_station_bit, clear_all_station_bits, apply_all_station_bits,
}
use indigo_open_sprinkler_pl.Controller.Stations.Bits.{AreBytes, set_station_bit-AreBytes}
use indigo_open_sprinkler_pl.Controller.Stations.Frame.{RunFrame, set_station_bit-RunFrame}
use indigo_open_sprinkler_pl.System.{IsSafe}

-- The tables other than the queue, and what says how far they are filled, are the same.
pub record TablesSame (c c' : Controller) : Type 0 where
  pub bits_same : c'.station_bits ≡ c.station_bits
  pub options_same : c'.options ≡ c.options
  pub nboards_same : c'.nboards ≡ c.nboards
  pub nstations_same : c'.nstations ≡ c.nstations
  pub nprograms_same : c'.nprograms ≡ c.nprograms

pub record Unchanged (c c' : Controller) : Type 0 where
  pub tables : TablesSame c c'
  pub runtime_same : c'.runtime ≡ c.runtime
  pub busy_same : c'.status.program_busy ≡ c.status.program_busy
  pub slots_same : c'.programs ≡ c.programs

pub Unchanged-refl : (c : Controller) → Unchanged c c
Unchanged-refl c = record {
  tables = record {
    bits_same = refl;
    options_same = refl;
    nboards_same = refl;
    nstations_same = refl;
    nprograms_same = refl;
  };
  runtime_same = refl;
  busy_same = refl;
  slots_same = refl;
}

pub Unchanged-trans : {c d e : Controller} → Unchanged c d → Unchanged d e → Unchanged c e
Unchanged-trans f g = record {
  tables = record {
    bits_same = g.tables.bits_same ∙ f.tables.bits_same;
    options_same = g.tables.options_same ∙ f.tables.options_same;
    nboards_same = g.tables.nboards_same ∙ f.tables.nboards_same;
    nstations_same = g.tables.nstations_same ∙ f.tables.nstations_same;
    nprograms_same = g.tables.nprograms_same ∙ f.tables.nprograms_same;
  };
  runtime_same = g.runtime_same ∙ f.runtime_same;
  busy_same = g.busy_same ∙ f.busy_same;
  slots_same = g.slots_same ∙ f.slots_same;
}

pub if-Unchanged :
    (b : Bool) {c d e : Controller}
    → Unchanged c d
    → Unchanged c e
    → Unchanged c (if b then d else e)
if-Unchanged true f g = f
if-Unchanged false f g = g

-- The queue is replaced by one that is safe.
pub runtime-IsSafe :
    {c c' : Controller} → TablesSame c c' → IsBounded c'.runtime → IsSafe c → IsSafe c'
runtime-IsSafe u r h = record {
  runtime_bounded = r;
  bytes = λ i. rw u.bits_same (h.bytes i);
  options_in_range = λ oid lt. rw u.options_same (h.options_in_range oid lt);
  boards = rw u.nboards_same h.boards;
  stations = rw (u.nboards_same, u.nstations_same) h.stations;
  programs_bounded = rw u.nprograms_same h.programs_bounded;
}

pub requeue-IsSafe :
    (c : Controller) (r : Runtime) → IsBounded r → IsSafe c → IsSafe (record c { runtime = r })
requeue-IsSafe c r k h = record {
  runtime_bounded = k;
  bytes = h.bytes;
  options_in_range = h.options_in_range;
  boards = h.boards;
  stations = h.stations;
  programs_bounded = h.programs_bounded;
}

pub Unchanged-IsSafe : {c c' : Controller} → Unchanged c c' → IsSafe c → IsSafe c'
Unchanged-IsSafe u h = runtime-IsSafe u.tables (rw u.runtime_same h.runtime_bounded) h

pub push_message-Unchanged :
    (type : MessageType) (lval : ℕ) (fval : ℤ) (c : Controller)
    → Unchanged c (push_message type lval fval c)
unfolding push_message
push_message-Unchanged type lval fval c = ground arith

pub write_log-Unchanged :
    (type : LogData) (curr_time : ℕ) (c : Controller) → Unchanged c (write_log type curr_time c)
unfolding write_log
write_log-Unchanged type curr_time c = ground arith

pub apply_all_station_bits-Unchanged : (c : Controller) → Unchanged c (apply_all_station_bits c)
unfolding apply_all_station_bits switch_special_station
apply_all_station_bits-Unchanged c = ground arith

-- A frame, with the bytes of the stations safe again.
pub RunFrame-IsSafe : {c c' : Controller} → RunFrame c c' → AreBytes c' → IsSafe c → IsSafe c'
RunFrame-IsSafe f b h = record {
  runtime_bounded = rw f.runtime_same h.runtime_bounded;
  bytes = b;
  options_in_range = λ oid lt. rw f.frame.options_same (h.options_in_range oid lt);
  boards = rw f.frame.nboards_same h.boards;
  stations = rw (f.frame.nboards_same, f.frame.nstations_same) h.stations;
  programs_bounded = rw f.frame.nprograms_same h.programs_bounded;
}

pub set_station_bit-IsSafe :
    (sid : ℕ) (v : Bool) (c : Controller) → IsSafe c → IsSafe (set_station_bit sid v c).0
set_station_bit-IsSafe sid v c h =
    RunFrame-IsSafe (set_station_bit-RunFrame sid v c) (set_station_bit-AreBytes sid v c h.bytes) h

pub clear_all_station_bits-IsSafe : (c : Controller) → IsSafe c → IsSafe (clear_all_station_bits c)
unfolding clear_all_station_bits
clear_all_station_bits-IsSafe c =
    replay_inv IsSafe 57 _ c (λ sid lt d. set_station_bit-IsSafe sid false d)
