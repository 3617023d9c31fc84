-- ===== src/Setup/Tests.antt =====
-- A controller that is switched on with the options of another firmware (`do_setup` of
-- firmware/main.cpp), and a request to it.
use indigo_open_sprinkler_pl.Common.{
  ℕ, ◌-◌, ◌<◌, ◌≡◌, inl, refl, true, false, ◌==◌, if◌then◌else◌, get_or,
}
use indigo_open_sprinkler_pl.Controller.{Controller}
use indigo_open_sprinkler_pl.Controller.Sample.{sample}
use indigo_open_sprinkler_pl.Controller.Stations.{station_on}
use indigo_open_sprinkler_pl.Server.Dispatch.{handle_web_request}
use indigo_open_sprinkler_pl.Json.{codes}
use indigo_open_sprinkler_pl.System.{IsSafe, Reach, start, later, request, tick}
use indigo_open_sprinkler_pl.Setup.{
  power_on, needs_reset, station_label, default_options, default_password, do_setup,
}
use indigo_open_sprinkler_pl.Setup.Closed.{do_setup-closed}
use indigo_open_sprinkler_pl.Setup.Safe.{started-IsSafe, do_setup-reset}

abbrev started : Controller
started = do_setup true (power_on 64 sample)

reset_is_due : needs_reset sample ≡ true
unfolding needs_reset
reset_is_due = refl

twelfth_name : station_label 11 ≡ codes "S12"
unfolding station_label
twelfth_name = refl

do_setup-closed_example :
    (started.runtime.nqueue ≡ 0)
    × (started.status.program_busy ≡ false)
    × ((sid : ℕ) → sid < 56 → station_on started sid ≡ false)
    × ((sid : ℕ) → sid < 56 → get_or started.valves (56 - 1 - sid) false ≡ false)
do_setup-closed_example = do_setup-closed 64 true sample

-- The first request of a client, a minute after the start.
abbrev asked : Controller
asked =
    (handle_web_request 99 118 (codes "pw=a6d82bced638de3def1e9bbb4983225c&en=0&")
      (record started { clock = 1060 })).0

asked-Reach : Reach started asked
asked-Reach = later (later start (tick 1060)) (request 99 118 _)

started-IsSafe_example : IsSafe asked
started-IsSafe_example = started-IsSafe 64 true sample (inl reset_is_due) asked-Reach

do_setup-reset_example :
    (started.nstations ≡ 8)
    × (started.nprograms ≡ 0)
    × (started.texts.password ≡ default_password)
    × ((oid : ℕ)
        → oid < 51
        → started.options oid ≡ (if oid == 40 then 0 else default_options 64 oid))
do_setup-reset_example = do_setup-reset 64 true sample reset_is_due
