-- ===== src/Special/Tests.antt =====
-- Requests to special stations (firmware/OpenSprinkler.cpp).
use indigo_open_sprinkler_pl.Common.{◌≡◌, refl, arith, true, false, some}
use indigo_open_sprinkler_pl.Http.{hex2ulong, hex_value, hex_digit}
use indigo_open_sprinkler_pl.Controller.{Controller}
use indigo_open_sprinkler_pl.Controller.Sample.{sample}
use indigo_open_sprinkler_pl.Server.{test_station}
use indigo_open_sprinkler_pl.Server.Dispatch.{handle_web_request, reply_of}
use indigo_open_sprinkler_pl.Json.{codes}
use indigo_open_sprinkler_pl.Special.{
  RemoteStationData, remote_query, switch_gpiostation, until_comma, strtok, nth_word, http_parts,
}
use indigo_open_sprinkler_pl.Special.Answer.{switch_remotestation_answer}

abbrev receiver : Controller
receiver = record sample { texts = record (sample.texts) { password = codes "a6d82b" } }

-- All options are set, so that special stations are refreshed.
abbrev sender : Controller
sender = record receiver { options = λ o. 1 }

abbrev sixth : RemoteStationData
sixth = record { ip = codes "c0a80014"; port = codes "1f90"; sid = codes "05" }

switch_remotestation_answer_example :
    handle_web_request 99 109 (remote_query sixth true sender) receiver
    ≡ reply_of (test_station 5 112 receiver)
unfolding hex2ulong hex_value hex_digit
switch_remotestation_answer_example =
    switch_remotestation_answer sixth true sender receiver
      (refl, (refl, (refl, (refl, (refl, (refl, tt)))))) (omega arith) (97, codes "6d82b", refl)
      refl (omega arith) (omega arith)

-- Pin 17, active low, is turned on.
gpio_run : switch_gpiostation 49 55 48 true ≡ (17, 0)
unfolding switch_gpiostation
gpio_run = refl

http_run :
    http_parts (codes "host,80,on,off") false
    ≡ (some (codes "host"), some (codes "80"), some (codes "off"))
unfolding http_parts nth_word strtok until_comma
http_run = refl
