-- ===== src/MainLoop/Rain.antt =====
-- Rain delays, seen from the loop.
use indigo_open_sprinkler_pl.Common.{
  List, Bool, Bool-cases, inl, inr, bit_and, ℕ, ◌/◌, ◌-◌, ◌≡◌, ◌<◌, ◌≤◌, refl, ◌∙◌, ap, leb-true,
  arith, true, false, if◌then◌else◌, ltb, ◌==◌, ◌∷◌,
}
use indigo_open_sprinkler_pl.Common.Int.{ℤ, pos}
use indigo_open_sprinkler_pl.Program.{secs_per_day}
use indigo_open_sprinkler_pl.Controller.{
  MessageType, rainsensor, Event, message, message_bit, Controller, log_raindelay, value_record,
  write_log, push_message, log_line, log_values, elapsed,
}
use indigo_open_sprinkler_pl.Controller.OptionIndex.{option_ifttt_enable, option_enable_logging}
use indigo_open_sprinkler_pl.Controller.Settings.{raindelay_start, raindelay_stop, nvdata_save}
use indigo_open_sprinkler_pl.MainLoop.{check_rain_delay, log_rain_delay, same}

-- After the check a rain delay is on exactly while its stop time lies ahead.
pub rain_delayed-check :
    (curr_time : ℕ) (c : Controller)
    → (check_rain_delay curr_time c).status.rain_delayed ≡ ltb curr_time c.nvdata.rd_stop_time
unfolding check_rain_delay raindelay_start raindelay_stop
rain_delayed-check curr_time c = ground arith

-- What the loop does about the rain delay in one second.
abbrev pub look : ℕ → Controller → Controller
look curr_time c = log_rain_delay curr_time (check_rain_delay curr_time c)

-- A message changes the events only.
pushed :
    (type : MessageType) (lval : ℕ) (fval : ℤ) (c : Controller)
    → (es : List Event) × (push_message type lval fval c ≡ record c { events = es })
unfolding push_message
pushed type lval fval c =
    elim (Bool-cases (bit_and (c.options option_ifttt_enable) (message_bit type) == 0)) [
      | inl e ↦ (c.events, rw (push_message, e) refl)
      | inr e ↦ elim (Bool-cases c.has_ifttt_key) [
        | inl f ↦ (message type lval fval ∷ c.events, rw (push_message, e, f) refl)
        | inr f ↦ (c.events, rw (push_message, e, f) refl)
      ]
    ]

check-starts :
    (t : ℕ) (c : Controller)
    → c.status.rain_delayed ≡ false
    → t < c.nvdata.rd_stop_time
    → check_rain_delay t c ≡ raindelay_start c
unfolding check_rain_delay
check-starts t c off h =
    let soon : ltb t c.nvdata.rd_stop_time ≡ true = ground (arith, h) in
    rw (check_rain_delay, off, soon) refl

changed :
    (old on : Bool) (c start stop : Controller)
    → on ≡ true
    → old ≡ false
    → (if same old on then c else record (if on then start else stop) { old_rain_delayed = on })
      ≡ record start { old_rain_delayed = true }
changed false true c start stop e f = refl
changed false false c start stop e f = absurd (ground (arith, e))
changed true on c start stop e f = absurd (ground (arith, f))

started :
    (t : ℕ) (d : Controller)
    → d.status.rain_delayed ≡ true
    → d.old_rain_delayed ≡ false
    → (es : List Event) × (log_rain_delay t d
        ≡ record d { raindelay_start_time = t; events = es; old_rain_delayed = true })
unfolding log_rain_delay
started t d on seen =
    let (es, e) = pushed rainsensor 2 (pos 1) (record d { raindelay_start_time = t }) in
    let seen_now : Controller → Controller = λ p. record p { old_rain_delayed = true } in
    (
      es,
      changed d.old_rain_delayed d.status.rain_delayed d
            (push_message rainsensor 2 (pos 1) (record d { raindelay_start_time = t }))
            (push_message rainsensor 2 (pos 0) (write_log log_raindelay t d)) on seen
          ∙ ap seen_now e,
    )

-- The second in which a delay starts.
look-starts :
    (t : ℕ) (c : Controller)
    → c.status.rain_delayed ≡ false
    → c.old_rain_delayed ≡ false
    → t < c.nvdata.rd_stop_time
    → let d = look t c in
      (d.status.rain_delayed ≡ true)
      × (d.old_rain_delayed ≡ true)
      × (d.raindelay_start_time ≡ t)
      × (d.nvdata.rd_stop_time ≡ c.nvdata.rd_stop_time)
      × (d.options ≡ c.options)
      × (d.log ≡ c.log)
unfolding raindelay_start nvdata_save
look-starts t c off seen h =
    let (es, e) = started t (raindelay_start c) refl seen in
    rw (check-starts t c off h, e) (refl, refl, refl, refl, refl, refl)

-- A second before the delay ends.
look-waits :
    (t : ℕ) (c : Controller)
    → c.status.rain_delayed ≡ true
    → c.old_rain_delayed ≡ true
    → t < c.nvdata.rd_stop_time
    → look t c ≡ c
unfolding check_rain_delay log_rain_delay
look-waits t c on seen h = ground arith

stopped-log :
    (t : ℕ) (d : Controller)
    → d.status.rain_delayed ≡ false
    → d.old_rain_delayed ≡ true
    → (log_rain_delay t d).log ≡ (
        if d.options option_enable_logging == 0
        then d.log
        else value_record (t / secs_per_day) log_raindelay 0 (elapsed t d.raindelay_start_time) t
          ∷ d.log)
unfolding log_rain_delay write_log push_message log_line log_values
stopped-log t d off seen = ground arith

stopped-same :
    (t : ℕ) (d : Controller)
    → d.status.rain_delayed ≡ false
    → d.old_rain_delayed ≡ true
    → ((log_rain_delay t d).status.rain_delayed ≡ false)
      × ((log_rain_delay t d).old_rain_delayed ≡ false)
      × ((log_rain_delay t d).nvdata ≡ d.nvdata)
unfolding log_rain_delay write_log push_message
stopped-same t d off seen = ground arith

check-ends :
    (t : ℕ) (c : Controller)
    → c.status.rain_delayed ≡ true
    → c.nvdata.rd_stop_time ≤ t
    → check_rain_delay t c ≡ raindelay_stop c
unfolding check_rain_delay
check-ends t c on h = rw (on, leb-true c.nvdata.rd_stop_time t h) refl

-- The second in which it ends.
look-ends :
    (t : ℕ) (c : Controller)
    → c.status.rain_delayed ≡ true
    → c.old_rain_delayed ≡ true
    → c.nvdata.rd_stop_time ≤ t
    → let d = look t c in
      (d.status.rain_delayed ≡ false)
      × (d.old_rain_delayed ≡ false)
      × (d.nvdata.rd_stop_time ≡ 0)
      × (d.log ≡ (
          if c.options option_enable_logging == 0
          then c.log
          else value_record (t / secs_per_day) log_raindelay 0 (elapsed t c.raindelay_start_time) t
            ∷ c.log))
unfolding raindelay_stop nvdata_save
look-ends t c on seen h =
    let same = stopped-same t (raindelay_stop c) refl seen in
    rw (check-ends t c on h)
      (same.0, same.1, ap (λ v. v.rd_stop_time) same.2, stopped-log t (raindelay_stop c) refl seen)

look-idle :
    (t : ℕ) (c : Controller)
    → c.status.rain_delayed ≡ false
    → c.old_rain_delayed ≡ false
    → c.nvdata.rd_stop_time ≡ 0
    → look t c ≡ c
unfolding check_rain_delay log_rain_delay
look-idle t c off seen h = ground arith

-- A rain delay from its start to its end, as the loop sees it: it starts in a second t that the stop
-- time lies behind, is on in every second between until the stop time, and is over in the second t'
-- that reaches it. Only then, and if logging is enabled, one record is added to the log, with the
-- seconds since the start; and from then on the loop finds nothing to do about it.
pub rain_delay_logged :
    (t between t' later : ℕ) (c : Controller)
    → c.status.rain_delayed ≡ false
    → c.old_rain_delayed ≡ false
    → t < c.nvdata.rd_stop_time
    → between < c.nvdata.rd_stop_time
    → c.nvdata.rd_stop_time ≤ t'
    → let on = look t c in
      let over = look t' on in
      (on.status.rain_delayed ≡ true)
      × (on.log ≡ c.log)
      × (look between on ≡ on)
      × (over.status.rain_delayed ≡ false)
      × (over.log ≡ (
          if c.options option_enable_logging == 0
          then c.log
          else value_record (t' / secs_per_day) log_raindelay 0 (t' - t) t' ∷ c.log))
      × (look later over ≡ over)
rain_delay_logged t between t' later c off seen h k l =
    let s = look-starts t c off seen h in
    let e = look-ends t' (look t c) s.0 s.1 (omega (arith, s.3)) in
    let span : elapsed t' (look t c).raindelay_start_time ≡ t' - t = ground (arith, s.2) in
    (
      s.0,
      s.5,
      look-waits between (look t c) s.0 s.1 (omega (arith, s.3)),
      e.0,
      e.3 ∙ rw (s.4, span, s.5) refl,
      look-idle later (look t' (look t c)) e.0 e.1 e.2,
    )
