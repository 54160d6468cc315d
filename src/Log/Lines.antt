-- ===== src/Log/Lines.antt =====
-- What log_event writes, and what it answers.
use legacy_point_monitor.Common.{
  ℕ, ◌+◌, ◌-◌, ◌≡◌, refl, sym, ap, ◌∙◌, false, [], ◌∷◌, ◌++◌, leb, if◌then◌else◌, arith, length,
  take, take_all, Bool-cases, inl, inr,
}
use legacy_point_monitor.Common.Int.{ℤ, pos, negsuc, ◌==ℤ◌, eq_of_beqℤ}
use legacy_point_monitor.Log.{
  Text, Levels, bad_file, buffer_size, Log, Calls, write_status, write_out, format_first,
  format_again, _log_event, log_event, set_logfile, close_logfile,
}

-- vsnprintf as documented, for a format that it turns into `text`: it answers the length of the whole
-- text, and leaves as much of it in the buffer as fits there.
abbrev pub Formats : Calls → Text → Text → Type 0
Formats c fmt text = (size : ℕ) → c.vsnprintf fmt size ≡ (pos (length text), take (size - 1) text)

log_event-text :
    (c : Calls) (fmt text : Text) (log : Log)
    → Formats c fmt text
    → _log_event c fmt log ≡ write_out c text log
unfolding _log_event format_first format_again
log_event-text c fmt text log f = elim (Bool-cases (leb buffer_size (length text))) [
  | inl long ↦
      let fits : leb (length text + 1) (length text) ≡ false = ground arith in
      let whole : take (length text + 1 - 1) text ≡ text =
        take_all (length text + 1 - 1) text (omega arith) in
      ap (λ r. format_first c fmt r log) (f buffer_size)
      ∙ rw long (
          ap (λ r. format_again c (length text + 1) r log) (f (length text + 1))
          ∙ rw (fits, whole) refl)
  | inr short ↦
      let whole : take (buffer_size - 1) text ≡ text =
        take_all (buffer_size - 1) text (ground arith) in
      ap (λ r. format_first c fmt r log) (f buffer_size) ∙ rw (short, whole) refl
]

-- The descriptor that log_event writes to.
abbrev pub target : Calls → Log → ℤ
target c log = if log.fd ==ℤ bad_file then c.opened else log.fd

close-writes : (log : Log) (fd : ℤ) → log.fd ≡ fd → (close_logfile log).writes ≡ log.writes
unfolding close_logfile
close-writes log (pos n) e = rw e refl
close-writes log (negsuc n) e = rw e refl

-- The log once there is an open file, if one can be opened.
abbrev with_file : Calls → Log → Log
with_file c log = if log.fd ==ℤ bad_file then (set_logfile c.opened log).1 else log

with_file-target :
    (c : Calls) (log : Log)
    → ((with_file c log).fd ≡ target c log) × ((with_file c log).writes ≡ log.writes)
unfolding set_logfile
with_file-target c log = elim (Bool-cases (log.fd ==ℤ bad_file)) [
  | inl closed ↦ elim (Bool-cases (c.opened ==ℤ bad_file)) [
    | inl fails ↦
        rw (closed, fails)
          (eq_of_beqℤ log.fd bad_file closed ∙ sym (eq_of_beqℤ c.opened bad_file fails), refl)
    | inr works ↦
        rw (closed, works) (refl, close-writes (record log { opens = log.opens + 1 }) log.fd refl)
  ]
  | inr is_open ↦ rw is_open (refl, refl)
]

-- Where vsnprintf is as documented, log_event writes all of the line at once however long it is, to
-- the open file or else to the one that it opens, and answers by what write answers.
pub log_event-line :
    (c : Calls) (l : Levels) (fmt line : Text) (log : Log)
    → Formats c (c.stamp l ++ fmt ++ 10 ∷ []) line
    → ((log_event c l fmt log).1.writes ≡ (target c log, line) ∷ log.writes)
      × ((log_event c l fmt log).0 ≡ write_status (c.write (target c log) line) (length line))
unfolding log_event write_out
log_event-line c l fmt line log f =
    let run = log_event-text c (c.stamp l ++ fmt ++ 10 ∷ []) line (with_file c log) f in
    let (fd, writes) = with_file-target c log in
    (
      ap (λ (r : ℤ × Log). r.1.writes) run
          ∙ ap (λ d. (d, line) ∷ (with_file c log).writes) fd
          ∙ ap (λ ws. (target c log, line) ∷ ws) writes,
      ap (λ (r : ℤ × Log). r.0) run ∙ ap (λ d. write_status (c.write d line) (length line)) fd,
    )
