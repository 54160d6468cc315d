-- ===== src/Tests/Log.antt =====
-- A log file that is opened by the first event, and a line that is longer than the buffer.
use legacy_point_monitor.Common.{
  ◌-◌, ◌≡◌, refl, true, some, List, [], ◌∷◌, ◌++◌, length, take, replicate, inl, inr,
}
use legacy_point_monitor.Common.Int.{pos, negsuc}
use legacy_point_monitor.Log.{
  Text, warning, fatal, start, Calls, red, colour, log_event, set_logfile, close_logfile,
  also_print_log, write_status, error_word,
}
use legacy_point_monitor.Log.Lines.{Formats, target, log_event-line}
use legacy_point_monitor.Log.Files.{
  Use, print_too, open_file, close_file, event, use_all, AllAnswer, Balanced, use_all-Balanced,
}

-- A format without arguments: vsnprintf copies it.
abbrev plain : Calls
plain = record {
  opened = pos 3;
  write = λ fd text. pos (length text);
  vsnprintf = λ fmt size. (pos (length fmt), take (size - 1) fmt);
  stamp = λ l. 32 ∷ [];
}

plain-Formats : (fmt : Text) → Formats plain fmt fmt
plain-Formats fmt size = refl

-- 3000 letters.
abbrev long_line : Text
long_line = replicate 3000 97

log_event-line_example :
    ((log_event plain warning long_line start).1.writes
      ≡ (target plain start, plain.stamp warning ++ long_line ++ 10 ∷ []) ∷ start.writes)
    × ((log_event plain warning long_line start).0
        ≡ write_status
            (plain.write (target plain start) (plain.stamp warning ++ long_line ++ 10 ∷ []))
            (length (plain.stamp warning ++ long_line ++ 10 ∷ [])))
log_event-line_example =
    log_event-line plain warning long_line (plain.stamp warning ++ long_line ++ 10 ∷ []) start
      (plain-Formats (plain.stamp warning ++ long_line ++ 10 ∷ []))

abbrev session : List Use
session =
    print_too true
    ∷ event plain fatal error_word
    ∷ open_file (negsuc 0)
    ∷ open_file (pos 4)
    ∷ close_file
    ∷ []

session-AllAnswer : AllAnswer session
session-AllAnswer = (tt, (inr (3, refl), (inl refl, (inr (4, refl), (tt, tt)))))

use_all-Balanced_example : Balanced (use_all session start)
use_all-Balanced_example = use_all-Balanced session start session-AllAnswer (inl (refl, refl))

session_end : use_all session start ≡ record {
  fd = negsuc 0;
  also_print = true;
  writes = (pos 3, 32 ∷ error_word ++ 10 ∷ []) ∷ [];
  printed = (some red, 32 ∷ error_word ++ 10 ∷ []) ∷ [];
  opens = 2;
  closes = 2;
}
unfolding log_event set_logfile close_logfile also_print_log colour
session_end = refl
