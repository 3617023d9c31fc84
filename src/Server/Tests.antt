-- ===== src/Server/Tests.antt =====
-- Requests to the sample controller.
use indigo_open_sprinkler_pl.Common.{
  take, ◌<◌, some, ℕ, ◌≤◌, ◌≡◌, ◌≢◌, ◌⊎◌, refl, arith, true, ◌==◌, if◌then◌else◌, List, [], ◌∷◌,
  map,
}
use indigo_open_sprinkler_pl.Runtime.{queued, unlinked, runtime_queue_size}
use indigo_open_sprinkler_pl.Runtime.Removal.{key}
use indigo_open_sprinkler_pl.Http.{
  find_nonempty, find_key_val, find_value, copy_value, password_verify, verify, text_of, url_decode,
  decoded,
}
use indigo_open_sprinkler_pl.Controller.OptionIndex.{op_max}
use indigo_open_sprinkler_pl.Controller.Sample.{sample, busy_queue}
use indigo_open_sprinkler_pl.Server.{html_success, html_not_permitted, check_password, test_station}
use indigo_open_sprinkler_pl.Server.Password.{server_change_password_lem}
use indigo_open_sprinkler_pl.Server.Options.{
  server_change_password, key_npw, key_cpw, change_all_options, is_protected,
}
use indigo_open_sprinkler_pl.Server.Dispatch.{handle_web_request}
use indigo_open_sprinkler_pl.Server.Bounds.{
  handle_web_request_locked, AreInRange, change_all_options_lem,
}
use indigo_open_sprinkler_pl.Server.Manual.{test_station_lem}

-- "pw=x&en=0&" with the wrong password, and a change of the time zone.
abbrev wrong : List ℕ
wrong = 112 ∷ 119 ∷ 61 ∷ 120 ∷ 38 ∷ 101 ∷ 110 ∷ 61 ∷ 48 ∷ 38 ∷ []

abbrev timezone : List ℕ
timezone = 111 ∷ 49 ∷ 61 ∷ 52 ∷ 48 ∷ 38 ∷ []

handle_web_request_locked_example : (handle_web_request 99 118 wrong sample).0 ≡ sample
unfolding check_password find_nonempty find_key_val find_value copy_value password_verify verify
    text_of url_decode
handle_web_request_locked_example = handle_web_request_locked 99 118 wrong sample refl

sample-AreInRange : AreInRange sample.options
unfolding op_max
sample-AreInRange oid h ranged = ground arith

change_all_options_lem_example :
    AreInRange (change_all_options timezone sample).options
    × ((j : ℕ)
        → is_protected j ≡ true
        → (change_all_options timezone sample).options j ≡ sample.options j)
change_all_options_lem_example = change_all_options_lem timezone sample sample-AreInRange

test_station_lem_example :
    let c' = (test_station 5 90 sample).0 in
    let answer = (test_station 5 90 sample).1 in
    (255 ≡ unlinked
      → ((runtime_queue_size ≤ 3) × (test_station 5 90 sample ≡ (sample, html_not_permitted)))
        ⊎ ((3 < runtime_queue_size)
            × (answer ≡ html_success)
            × (map key (queued c'.runtime) ≡ (5, 90, 99) ∷ map key (queued busy_queue))))
    × (255 ≢ unlinked
        → (answer ≡ html_success)
          × (c'.runtime.nqueue ≡ 3)
          × ((j : ℕ)
              → key (c'.runtime.queue j)
                ≡ (if j == 255 then (5, 90, 99) else key (busy_queue.queue j))))
test_station_lem_example = test_station_lem 5 90 sample (omega arith) refl

-- "npw=ab&cpw=ab&"
abbrev new_password : List ℕ
new_password = 110 ∷ 112 ∷ 119 ∷ 61 ∷ 97 ∷ 98 ∷ 38 ∷ 99 ∷ 112 ∷ 119 ∷ 61 ∷ 97 ∷ 98 ∷ 38 ∷ []

server_change_password_lem_example :
    let rest = sample.buffer_rest key_npw in
    (((server_change_password new_password sample).1 ≢ html_success)
      × ((server_change_password new_password sample).0 ≡ sample))
    ⊎ (((server_change_password new_password sample).1 ≡ html_success)
        × ((v : List ℕ) × (w : List ℕ) × (find_nonempty key_npw new_password ≡ some v)
            × (find_nonempty key_cpw new_password ≡ some w)
            × (take 36 v ≡ take 36 w)
            × ((pw : List ℕ)
                → let stored = (server_change_password new_password sample).0.texts.password in
                  (password_verify stored pw ≡ true → take 35 (decoded v rest) ≡ text_of pw)
                  × (take 35 (decoded v rest) ≡ text_of pw → password_verify stored pw ≡ true))))
server_change_password_lem_example = server_change_password_lem new_password sample

new_password_run :
    ((server_change_password new_password sample).1 ≡ html_success)
    × ((server_change_password new_password sample).0.texts.password ≡ 97 ∷ 98 ∷ [])
unfolding server_change_password find_nonempty find_key_val find_value copy_value text_of url_decode
new_password_run = (refl, refl)
