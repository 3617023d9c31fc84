-- ===== src/Controller/Stations/Frame.antt =====
-- What the operations on valves and outputs leave alone.
use indigo_open_sprinkler_pl.Common.{ℕ, zero, suc, ◌≡◌, refl, ◌∙◌, arith, Bool, true, false, replay}
use indigo_open_sprinkler_pl.Common.Int.{ℤ}
use indigo_open_sprinkler_pl.Controller.{Controller, LogData, MessageType, push_message, write_log}
use indigo_open_sprinkler_pl.Controller.Stations.{
  switch_special_station, set_station_bit, clear_all_station_bits, apply_all_station_bits,
}

-- Two states with the same settings, programs, attributes and clock.
pub record Frame (c c' : Controller) : Type 0 where
  pub status_same : c'.status ≡ c.status
  pub attributes_same : c'.attributes ≡ c.attributes
  pub options_same : c'.options ≡ c.options
  pub nboards_same : c'.nboards ≡ c.nboards
  pub nstations_same : c'.nstations ≡ c.nstations
  pub nvdata_same : c'.nvdata ≡ c.nvdata
  pub programs_same : c'.programs ≡ c.programs
  pub nprograms_same : c'.nprograms ≡ c.nprograms
  pub clock_same : c'.clock ≡ c.clock

-- And with the same queue.
pub record RunFrame (c c' : Controller) : Type 0 where
  pub frame : Frame c c'
  pub runtime_same : c'.runtime ≡ c.runtime

pub Frame-refl : (c : Controller) → Frame c c
Frame-refl c = record {
  status_same = refl;
  attributes_same = refl;
  options_same = refl;
  nboards_same = refl;
  nstations_same = refl;
  nvdata_same = refl;
  programs_same = refl;
  nprograms_same = refl;
  clock_same = refl;
}

pub Frame-trans : {c d e : Controller} → Frame c d → Frame d e → Frame c e
Frame-trans f g = record {
  status_same = g.status_same ∙ f.status_same;
  attributes_same = g.attributes_same ∙ f.attributes_same;
  options_same = g.options_same ∙ f.options_same;
  nboards_same = g.nboards_same ∙ f.nboards_same;
  nstations_same = g.nstations_same ∙ f.nstations_same;
  nvdata_same = g.nvdata_same ∙ f.nvdata_same;
  programs_same = g.programs_same ∙ f.programs_same;
  nprograms_same = g.nprograms_same ∙ f.nprograms_same;
  clock_same = g.clock_same ∙ f.clock_same;
}

pub RunFrame-refl : (c : Controller) → RunFrame c c
RunFrame-refl c = record { frame = Frame-refl c; runtime_same = refl }

pub RunFrame-trans : {c d e : Controller} → RunFrame c d → RunFrame d e → RunFrame c e
RunFrame-trans f g = record {
  frame = Frame-trans f.frame g.frame;
  runtime_same = g.runtime_same ∙ f.runtime_same;
}

pub switch_special_station-RunFrame :
    (sid : ℕ) (v : Bool) (c : Controller) → RunFrame c (switch_special_station sid v c)
unfolding switch_special_station
switch_special_station-RunFrame sid v c = ground arith

pub set_station_bit-RunFrame :
    (sid : ℕ) (v : Bool) (c : Controller) → RunFrame c (set_station_bit sid v c).0
unfolding set_station_bit switch_special_station
set_station_bit-RunFrame sid true c = ground arith
set_station_bit-RunFrame sid false c = ground arith

pub push_message-RunFrame :
    (type : MessageType) (lval : ℕ) (fval : ℤ) (c : Controller)
    → RunFrame c (push_message type lval fval c)
unfolding push_message
push_message-RunFrame type lval fval c = ground arith

pub write_log-RunFrame :
    (type : LogData) (curr_time : ℕ) (c : Controller) → RunFrame c (write_log type curr_time c)
unfolding write_log
write_log-RunFrame type curr_time c = ground arith

pub apply_all_station_bits-RunFrame : (c : Controller) → RunFrame c (apply_all_station_bits c)
unfolding apply_all_station_bits switch_special_station
apply_all_station_bits-RunFrame c = ground arith

replay-RunFrame :
    (n : ℕ) (body : ℕ → Controller → Controller) (c : Controller)
    → ((i : ℕ) (d : Controller) → RunFrame d (body i d))
    → RunFrame c (replay n body c)
replay-RunFrame zero body c h = RunFrame-refl c
replay-RunFrame (suc n) body c h =
    RunFrame-trans (replay-RunFrame n body c h) (h n (replay n body c))

pub clear_all_station_bits-RunFrame : (c : Controller) → RunFrame c (clear_all_station_bits c)
unfolding clear_all_station_bits
clear_all_station_bits-RunFrame c =
    replay-RunFrame 57 _ c (λ sid d. set_station_bit-RunFrame sid false d)
