-- ===== src/Tests/Events.antt =====
-- internal/event: the channels, the reporting and the conversions.
use vps_safe_dashboard.Prelude.{
  ℕ, ◌≡◌, refl, ◌≤◌, List, [], ◌∷◌, some, codes, ◌*◌, ◌+◌, ◌%◌, ◌^◌, arith,
}
use vps_safe_dashboard.Text.{itoa, pos, map_option}
use vps_safe_dashboard.Event.{SystemEvent, BanEvent, Chan, Source, Level, new_rate_limiter, report}
use vps_safe_dashboard.Event.Ipv4.{uint32_to_ipv4}
use vps_safe_dashboard.Event.Micros.{micros_to_unix, number, seconds64, micros_to_unix_lem}
use vps_safe_dashboard.Event.Channels.{Channels, new_channels, make_chan, drain, in_flight}
use vps_safe_dashboard.Event.Channels.Fifo.{Drained, drain_lem}
use vps_safe_dashboard.Event.Reporting.{Call, State, waiting, report_all, report_all_rate}

-- 1700000000123456 microseconds
abbrev stamp : List ℕ
stamp = codes "1700000000123456"

micros_to_unix-stamp : micros_to_unix stamp ≡ some (pos 1700000000)
unfolding micros_to_unix
micros_to_unix-stamp = refl

micros_to_unix_example :
    micros_to_unix stamp ≡ map_option (λ n. seconds64 (n % 2 ^ 64)) (number stamp)
micros_to_unix_example = micros_to_unix_lem stamp

uint32_to_ipv4-home : uint32_to_ipv4 2130706433 ≡ codes "127.0.0.1"
unfolding uint32_to_ipv4 itoa
uint32_to_ipv4-home = refl

abbrev ban : ℕ → BanEvent
ban n = record { ts = n; ip = n; type = []; jail = [] }

abbrev event : ℕ → SystemEvent ℕ
event n = record { ts = n; source = Source.disk; level = Level.warn; message = n }

-- Two bans and an event of the agent in flight.
abbrev busy : Channels ℕ ℕ
busy = record (new_channels 4) {
  f2b = record (make_chan 4) { queue = ban 1 ∷ ban 2 ∷ [] };
  system = record (make_chan 4) { queue = event 7 ∷ [] };
}

drain_example : Drained busy (drain 4 busy)
unfolding new_channels
drain_example = drain_lem 4 busy (unfold in_flight in omega arith)

abbrev two_of_three : Chan ℕ
two_of_three = record { capacity = 3; queue = 1 ∷ 2 ∷ [] }

abbrev call : ℕ → Call ℕ
call t = record {
  t1 = t;
  t2 = t + 1;
  t3 = t + 2;
  source = Source.disk;
  level = Level.warn;
  message = t;
}

abbrev calls : List (Call ℕ)
calls = call 100 ∷ call 105 ∷ call 120 ∷ []

abbrev quiet : State ℕ
quiet = (new_rate_limiter 10, some (make_chan 8))

report_all-quiet : waiting (report_all quiet calls).1 ≡ 2
unfolding report_all report
report_all-quiet = refl

report_all_example :
    waiting (report_all quiet calls).1 * 10 + 0
    ≤ waiting quiet.1 * 10 + (report_all quiet calls).0.last
report_all_example =
    report_all_rate 10 (omega arith) (omega arith) quiet calls refl
      (omega arith, (omega arith, (omega arith, tt)))
