-- ===== src/Message/Tests.antt =====
-- Push messages.
use indigo_open_sprinkler_pl.Common.{◌≡◌, refl, true, false}
use indigo_open_sprinkler_pl.Common.Int.{pos}
use indigo_open_sprinkler_pl.Controller.{rainsensor, program_sched, station_run}
use indigo_open_sprinkler_pl.Controller.Sample.{sample}
use indigo_open_sprinkler_pl.Json.{codes, print_int, ultoa, digits}
use indigo_open_sprinkler_pl.Message.{message_text, message_body, ip2string}

rain_text :
    message_text rainsensor 2 (pos 0) false sample
    ≡ codes "{\"value1\":\"Rain delay de-activated\"}"
unfolding message_text message_body
rain_text = refl

run_text :
    message_body station_run 4 (pos 135) false sample
    ≡ codes "Station  closed. It ran for 2 minutes 15 seconds."
unfolding message_body print_int ultoa digits
run_text = refl

-- A program that is not stored has no name.
program_text :
    message_body program_sched 9 (pos 100) true sample
    ≡ codes "Manually scheduled Program  with 100% water level."
unfolding message_body print_int ultoa digits
program_text = refl

address_text : ip2string 3232235777 ≡ codes "192.168.1.1"
unfolding ip2string ultoa digits
address_text = refl
