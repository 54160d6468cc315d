-- ===== src/Log.antt =====
-- src/lib/log_mgr/log_mgr.c and include/log_mgr.h. A text is the list of its bytes, without the NUL. What
-- open, write, vsnprintf and the time answer is an argument; what is written, printed, opened and
-- closed is kept, the last first.
pub mod Lines
pub mod Files
use legacy_point_monitor.Common.{
  ℕ, zero, suc, ◌+◌, Bool, true, false, ◌&&◌, ◌||◌, Option, none, some, List, [], ◌∷◌, ◌++◌, ltb,
  leb, ◌==◌, if◌then◌else◌, length,
}
use legacy_point_monitor.Common.Int.{ℤ, pos, negsuc, minus_one, ◌==ℤ◌}

abbrev pub Text : Type 0
Text = List ℕ

pub data Levels : Type 0 where
  info warning fatal : Levels

abbrev pub log_ok : ℤ
log_ok = pos 0

abbrev pub log_error : ℤ
log_error = minus_one

abbrev pub bad_file : ℤ
bad_file = minus_one

abbrev pub buffer_size : ℕ
buffer_size = 2048

pub data Colour : Type 0 where
  red yellow : Colour

-- `Fd` and `AlsoPrint`; the writes with their descriptors, the lines on stdout, and how often a file was
-- opened and closed.
pub record Log : Type 0 where
  pub fd : ℤ
  pub also_print : Bool
  pub writes : List (ℤ × Text)
  pub printed : List (Option Colour × Text)
  pub opens : ℕ
  pub closes : ℕ

abbrev pub start : Log
start = record {
  fd = bad_file;
  also_print = false;
  writes = [];
  printed = [];
  opens = 0;
  closes = 0;
}

-- What open answers; what write answers to a descriptor and a text; what vsnprintf answers to a format
-- and a size, and the text that it leaves in the buffer; the time and level before a line.
pub record Calls : Type 0 where
  pub opened : ℤ
  pub write : ℤ → Text → ℤ
  pub vsnprintf : Text → ℕ → ℤ × Text
  pub stamp : Levels → Text

abbrev pub starts_with : Text → Text → Bool
starts_with [] t = true
starts_with (b ∷ bs) [] = false
starts_with (b ∷ bs) (a ∷ t) = a == b && starts_with bs t

-- `strstr(text, word) != NULL`
abbrev pub strstr : Text → Text → Bool
strstr [] word = starts_with word []
strstr (a ∷ t) word = starts_with word (a ∷ t) || strstr t word

-- "FATAL", "Error", "ERROR" and "WARNING".
abbrev pub fatal_word : Text
fatal_word = 70 ∷ 65 ∷ 84 ∷ 65 ∷ 76 ∷ []

abbrev pub error_word : Text
error_word = 69 ∷ 114 ∷ 114 ∷ 111 ∷ 114 ∷ []

abbrev pub upper_error_word : Text
upper_error_word = 69 ∷ 82 ∷ 82 ∷ 79 ∷ 82 ∷ []

abbrev pub warning_word : Text
warning_word = 87 ∷ 65 ∷ 82 ∷ 78 ∷ 73 ∷ 78 ∷ 71 ∷ []

unfoldable pub colour : Text → Option Colour
colour text =
    if strstr text fatal_word || strstr text error_word || strstr text upper_error_word
    then some red
    else if strstr text warning_word
    then some yellow
    else none

unfoldable pub also_print_log : Bool → Log → Log
also_print_log print log = record log { also_print = print }

unfoldable pub close_logfile : Log → Log
close_logfile log = elim log.fd [
  | pos n ↦ record log { fd = bad_file; closes = log.closes + 1 }
  | negsuc n ↦ log
]

unfoldable pub set_logfile : ℤ → Log → ℤ × Log
unfolding close_logfile
set_logfile tmp_fd log =
    if tmp_fd ==ℤ bad_file
    then (log_error, log)
    else (log_ok, record (close_logfile (record log { opens = log.opens + 1 })) { fd = tmp_fd })

-- The answer of write, for a text of the length: -1, fewer bytes, or all. The comparison with strlen is
-- one of unsigned numbers.
abbrev pub write_status : ℤ → ℕ → ℤ
write_status (negsuc zero) len = log_error
write_status (negsuc (suc n)) len = log_ok
write_status (pos n) len = if ltb n len then log_error else log_ok

-- From a text that is formatted without an error on.
unfoldable pub write_out : Calls → Text → Log → ℤ × Log
unfolding colour
write_out c text log = (
  write_status (c.write log.fd text) (length text),
  record log {
    writes = (log.fd, text) ∷ log.writes;
    printed = if log.also_print then (colour text, text) ∷ log.printed else log.printed;
  },
)

-- What the second vsnprintf answers, with a buffer of the size.
unfoldable pub format_again : Calls → ℕ → ℤ × Text → Log → ℤ × Log
unfolding write_out
format_again c size (negsuc n, text) log = write_out c text log
format_again c size (pos n, text) log =
    if leb size n then (log_error, log) else write_out c text log

-- What the first vsnprintf answers; the second one gets a buffer of one byte more than that.
unfoldable pub format_first : Calls → Text → ℤ × Text → Log → ℤ × Log
unfolding format_again
format_first c fmt (negsuc n, text) log = write_out c text log
format_first c fmt (pos n, text) log =
    if leb buffer_size n
    then format_again c (n + 1) (c.vsnprintf fmt (n + 1)) log
    else write_out c text log

unfoldable pub _log_event : Calls → Text → Log → ℤ × Log
unfolding format_first
_log_event c fmt log = format_first c fmt (c.vsnprintf fmt buffer_size) log

-- A first event opens the default file; a newline ends the line.
unfoldable pub log_event : Calls → Levels → Text → Log → ℤ × Log
unfolding _log_event set_logfile
log_event c l fmt log =
    let log = if log.fd ==ℤ bad_file then (set_logfile c.opened log).1 else log in
    _log_event c (c.stamp l ++ fmt ++ 10 ∷ []) log
