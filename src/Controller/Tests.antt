-- ===== src/Controller/Tests.antt =====
-- Instances of the laws on stations and settings.
use indigo_open_sprinkler_pl.Common.{◌≡◌, arith, false, get_or}
use indigo_open_sprinkler_pl.Controller.Sample.{sample, sample-AreBytes}
use indigo_open_sprinkler_pl.Controller.Stations.{
  station_on, clear_all_station_bits, apply_all_station_bits,
}
use indigo_open_sprinkler_pl.Controller.Stations.Bits.{station_on-clear_all, valves-apply_all}

station_on-clear_all_example : station_on (clear_all_station_bits sample) 4 ≡ false
station_on-clear_all_example = station_on-clear_all sample 4 sample-AreBytes

valves-apply_all_example :
    get_or (apply_all_station_bits sample).valves 51 false ≡ station_on sample 4
valves-apply_all_example = valves-apply_all sample 4 (omega arith)
