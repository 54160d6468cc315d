-- ===== src/Log/Files.antt =====
-- How many log files the process has open.
use legacy_point_monitor.Common.{
  ℕ, ◌+◌, ◌≡◌, refl, sym, ap, ◌∙◌, Bool, List, [], ◌∷◌, ◌++◌, leb, Bool-cases, inl, inr, ◌⊎◌,
}
use legacy_point_monitor.Common.Int.{ℤ, pos, negsuc, ◌==ℤ◌}
use legacy_point_monitor.Log.{
  Text, Levels, bad_file, buffer_size, Log, Calls, also_print_log, close_logfile, set_logfile,
  write_out, format_first, format_again, _log_event, log_event,
}

-- A call of the library's interface, with what open answers or with all answers.
pub data Use : Type 0 where
  print_too : Bool → Use
  open_file : ℤ → Use
  close_file : Use
  event : Calls → Levels → Text → Use

abbrev pub use_log : Use → Log → Log
use_log (print_too b) log = also_print_log b log
use_log (open_file fd) log = (set_logfile fd log).1
use_log close_file log = close_logfile log
use_log (event c l fmt) log = (log_event c l fmt log).1

abbrev pub use_all : List Use → Log → Log
use_all [] log = log
use_all (u ∷ us) log = use_all us (use_log u log)

-- open answers -1 or a descriptor.
abbrev pub Answers : ℤ → Type 0
Answers fd = (fd ≡ bad_file) ⊎ ((n : ℕ) × (fd ≡ pos n))

abbrev pub OpenAnswers : Use → Type 0
OpenAnswers (open_file fd) = Answers fd
OpenAnswers (event c l fmt) = Answers c.opened
OpenAnswers (print_too b) = Unit
OpenAnswers close_file = Unit

abbrev pub AllAnswer : List Use → Type 0
AllAnswer [] = Unit
AllAnswer (u ∷ us) = OpenAnswers u × AllAnswer us

-- The file behind the descriptor is the only one that was opened and not closed; there is none at -1.
abbrev pub Balanced : Log → Type 0
Balanced log =
    ((log.fd ≡ bad_file) × (log.opens ≡ log.closes))
    ⊎ ((n : ℕ) × (log.fd ≡ pos n) × (log.opens ≡ log.closes + 1))

close-Balanced : (log : Log) → Balanced log → Balanced (close_logfile log)
unfolding close_logfile
close-Balanced log (inl (none, same)) = rw none (inl (refl, same))
close-Balanced log (inr (n, fd, more)) = rw fd (inl (refl, more))

set-Balanced : (fd : ℤ) (log : Log) → Answers fd → Balanced log → Balanced (set_logfile fd log).1
unfolding set_logfile close_logfile
set-Balanced fd log (inl fails) b = rw fails b
set-Balanced fd log (inr (m, works)) (inl (none, same)) =
    rw (works, none) (inr (m, refl, ap (λ n. n + 1) same))
set-Balanced fd log (inr (m, works)) (inr (n, old, more)) =
    rw (works, old) (inr (m, refl, ap (λ n. n + 1) more))

-- What a write leaves as it was.
abbrev SameFile : Log → Log → Type 0
SameFile log log' = (log'.fd ≡ log.fd) × (log'.opens ≡ log.opens) × (log'.closes ≡ log.closes)

format_again-SameFile :
    (c : Calls) (size : ℕ) (answer : ℤ × Text) (log : Log)
    → SameFile log (format_again c size answer log).1
unfolding format_again write_out
format_again-SameFile c size (negsuc n, text) log = (refl, refl, refl)
format_again-SameFile c size (pos n, text) log = elim (Bool-cases (leb size n)) [
  | inl small ↦ rw small (refl, refl, refl)
  | inr fits ↦ rw fits (refl, refl, refl)
]

format_first-SameFile :
    (c : Calls) (fmt : Text) (answer : ℤ × Text) (log : Log)
    → SameFile log (format_first c fmt answer log).1
unfolding format_first write_out
format_first-SameFile c fmt (negsuc n, text) log = (refl, refl, refl)
format_first-SameFile c fmt (pos n, text) log = elim (Bool-cases (leb buffer_size n)) [
  | inl long ↦ rw long (format_again-SameFile c (n + 1) (c.vsnprintf fmt (n + 1)) log)
  | inr short ↦ rw short (refl, refl, refl)
]

SameFile-Balanced : (log log' : Log) → SameFile log log' → Balanced log → Balanced log'
SameFile-Balanced log log' (fd, opens, closes) (inl (none, same)) =
    inl (fd ∙ none, opens ∙ same ∙ sym closes)
SameFile-Balanced log log' (fd, opens, closes) (inr (n, old, more)) =
    inr (n, fd ∙ old, opens ∙ more ∙ ap (λ k. k + 1) (sym closes))

event-Balanced :
    (c : Calls) (l : Levels) (fmt : Text) (log : Log)
    → Answers c.opened
    → Balanced log
    → Balanced (log_event c l fmt log).1
unfolding log_event _log_event
event-Balanced c l fmt log answers b =
    let line = c.stamp l ++ fmt ++ 10 ∷ [] in
    let written : (log : Log) → Balanced log → Balanced (_log_event c line log).1 = λ log b.
      SameFile-Balanced log (_log_event c line log).1
        (format_first-SameFile c line (c.vsnprintf line buffer_size) log) b in
    elim (Bool-cases (log.fd ==ℤ bad_file)) [
      | inl closed ↦
          rw closed (written (set_logfile c.opened log).1 (set-Balanced c.opened log answers b))
      | inr is_open ↦ rw is_open (written log b)
    ]

use_log-Balanced : (u : Use) (log : Log) → OpenAnswers u → Balanced log → Balanced (use_log u log)
unfolding also_print_log
use_log-Balanced (print_too p) log answers b = b
use_log-Balanced (open_file fd) log answers b = set-Balanced fd log answers b
use_log-Balanced close_file log answers b = close-Balanced log b
use_log-Balanced (event c l fmt) log answers b = event-Balanced c l fmt log answers b

-- From a state in which the file behind the descriptor is the only one that was opened and not
-- closed, any sequence of calls of the library, where open answers -1 or a descriptor, leads to
-- such a state.
pub use_all-Balanced :
    (us : List Use) (log : Log) → AllAnswer us → Balanced log → Balanced (use_all us log)
use_all-Balanced [] log answers b = b
use_all-Balanced (u ∷ us) log (first, later) b =
    use_all-Balanced us (use_log u log) later (use_log-Balanced u log first b)
