-- ===== src/Logger.antt =====
-- logger of src/s6_logger.h, a copy of which stands in src/s6_net_thread.cpp: lines of text are kept in
-- memory and written out together. What sprintf makes of a number under %05d is a parameter, `print`.
use serendip6_reobs.Base.{
  ℕ, ◌+◌, ◌*◌, ◌/◌, ◌≤◌, ◌<◌, ◌≡◌, ◌⊎◌, List, [], ◌∷◌, ◌++◌, arith, length, length-append, leb,
  ◌||◌, if◌then◌else◌, Bool-cases, inl, inr, refl, sym, ◌∙◌,
}
use mathlib.Core.List.{append_assoc, append-nil}

-- The static variables: the text from the start of `log` to `log_p`, and `num_lines`. `written` are the
-- logs written out so far, one after the other.
pub record Log : Type 0 where
  pub text : List ℕ
  pub num_lines : ℕ
  pub written : List ℕ

-- sizeof(log), and int(log_size*0.9).
abbrev pub log_size : ℕ
log_size = 1024 * 1024 * 1024

abbrev pub log_limit : ℕ
log_limit = log_size * 9 / 10

-- The log is below its limit between two calls.
pub record HasRoom (l : Log) : Type 0 where
  pub room : length l.text < log_limit

module _ (print : ℕ → List ℕ) where
  -- The line "%05d  %s\n".
  abbrev pub log_line : (num_lines : ℕ) (log_message : List ℕ) → List ℕ
  log_line num_lines log_message = print num_lines ++ (32 ∷ 32 ∷ log_message ++ (10 ∷ []))

  -- The log with the new line, and what is returned.
  unfoldable pub logger : (log_message : List ℕ) (line_limit : ℕ) → Log → Log × ℕ
  logger log_message line_limit l =
      let num_lines = l.num_lines + 1 in
      let text = l.text ++ log_line num_lines log_message in
      if leb line_limit num_lines || leb log_limit (length text)
      then (record { text = []; num_lines = 0; written = l.written ++ text }, line_limit)
      else (record l { text = text; num_lines = num_lines }, num_lines)

  length-log_line :
      (n : ℕ) (msg : List ℕ)
      → length (print n) ≤ 11
      → length msg < 200
      → length (log_line n msg) < 214
  length-log_line n msg short small =
      omega
        (arith, length-append (print n) (32 ∷ 32 ∷ msg ++ (10 ∷ [])), length-append msg (10 ∷ []))

  -- With messages of less than 200 bytes, and numbers printed with at most 11, the array is never
  -- overrun: the line and the zero byte behind it fit, and the log is below its limit again afterwards.
  pub logger_fits :
      (msg : List ℕ) (line_limit : ℕ) (l : Log)
      → HasRoom l
      → length (print (l.num_lines + 1)) ≤ 11
      → length msg < 200
      → (length (l.text ++ log_line (l.num_lines + 1) msg) + 1 ≤ log_size)
        × HasRoom (logger msg line_limit l).0
  unfolding logger
  logger_fits msg line_limit l h short small = ground (
    arith,
    length-append l.text (log_line (l.num_lines + 1) msg),
    length-log_line (l.num_lines + 1) msg,
  )

  -- Every line is kept once, in order. If it reaches the limit of lines, or the text that of the array, all
  -- is written out and `log` starts at its first byte; otherwise nothing is, and the line is counted.
  pub logger_keeps :
      (msg : List ℕ) (line_limit : ℕ) (l : Log)
      → let (l', returned) = logger msg line_limit l in
        (l'.written ++ l'.text ≡ (l.written ++ l.text) ++ log_line (l.num_lines + 1) msg)
        × (((returned ≡ line_limit)
              × (l'.text ≡ [])
              × (l'.num_lines ≡ 0)
              × ((line_limit ≤ l.num_lines + 1)
                  ⊎ (log_limit ≤ length (l.text ++ log_line (l.num_lines + 1) msg))))
            ⊎ ((returned ≡ l'.num_lines)
                × (l'.num_lines ≡ l.num_lines + 1)
                × (l'.num_lines < line_limit)
                × (length l'.text < log_limit)
                × (l'.written ≡ l.written)))
  unfolding logger
  logger_keeps msg line_limit l =
      let text = l.text ++ log_line (l.num_lines + 1) msg in
      elim (Bool-cases (leb line_limit (l.num_lines + 1) || leb log_limit (length text))) [
        | inl over ↦ rw over (
          append-nil (l.written ++ text)
              ∙ sym (append_assoc l.written l.text (log_line (l.num_lines + 1) msg)),
          inl (refl, refl, refl, ground (arith, over)),
        )
        | inr under ↦ rw under (
          sym (append_assoc l.written l.text (log_line (l.num_lines + 1) msg)),
          inr (refl, refl, ground (arith, under), ground (arith, under), refl),
        )
      ]
