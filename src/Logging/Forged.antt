-- ===== src/Logging/Forged.antt =====
-- What a message with a newline does to the text formatter.
use mathlib.Core.List.{append_assoc, append-nil}
use corridor.Prelude.{eqb_self, ◌≡◌, refl, sym, ◌∙◌, ap, [], ◌∷◌, ◌++◌, false}
use corridor.Prelude.Int.{ℤ}
use corridor.Prelude.Text.{Text, text}
use corridor.Logging.{
  Level, text_formatter, Logger, Library, caller_of, caller_part, line_start, is_filtered,
  formatted_writes, format_text, fields_part, output,
}
use corridor.Logging.Lines.{prints, session, bytes_to, bytes_to-append}

-- A message that ends its own line and starts another, of a level at a time.
abbrev pub forged : Library → Logger → Text → Level → ℤ → Text → Text → Text
forged lib l layout level now a b =
    a
    ++ (text "\n" ++ (line_start lib layout level now ++ (caller_part (caller_of lib l now) ++ b)))

regroup :
    (s c s' c' a b : Text)
    → s ++ (c ++ ((a ++ (text "\n" ++ (s' ++ (c' ++ b)))) ++ text "\n"))
      ≡ (s ++ (c ++ (a ++ text "\n"))) ++ (s' ++ (c' ++ (b ++ text "\n")))
regroup s c s' c' a b = simp append_assoc

module _ (lib : Library) (l : Logger) (layout : Text) (level : Level)
    (is_text : l.formatter ≡ text_formatter layout) (on : is_filtered l level ≡ false) where
  one_write : (s : Text) → bytes_to l.out ((l.out, s) ∷ []) ≡ s
  unfolding bytes_to
  one_write s = rw (eqb_self l.out) (append-nil s)

  plain_text :
      (now : ℤ) (message : Text)
      → format_text lib layout level now message [] (caller_of lib l now)
        ≡ line_start lib layout level now
          ++ (caller_part (caller_of lib l now) ++ (message ++ text "\n"))
  unfolding format_text fields_part
  plain_text now message = refl

  text_bytes :
      (now : ℤ) (message : Text)
      → bytes_to l.out (output lib l level now message [])
        ≡ line_start lib layout level now
          ++ (caller_part (caller_of lib l now) ++ (message ++ text "\n"))
  unfolding output
  text_bytes now message =
      let written : output lib l level now message []
          ≡ formatted_writes lib l (text_formatter layout) level now message [] =
        rw on (ap (λ f. formatted_writes lib l f level now message []) is_text) in
      ap (bytes_to l.out) written
      ∙ one_write (format_text lib layout level now message [] (caller_of lib l now))
      ∙ plain_text now message

  -- With the text formatter one call can write what two write: a message in which a newline, a
  -- time stamp, a level and a caller stand before a second message leaves exactly the bytes of the
  -- two calls, at a level that is written.
  pub output-forged :
      (now now' : ℤ) (a b : Text)
      → bytes_to l.out (session lib l (prints level now (forged lib l layout level now' a b) ∷ []))
        ≡ bytes_to l.out (session lib l (prints level now a ∷ prints level now' b ∷ []))
  unfolding session
  output-forged now now' a b =
      let c = caller_part (caller_of lib l now) in
      let c' = caller_part (caller_of lib l now') in
      let one = text_bytes now (forged lib l layout level now' a b) in
      ap (bytes_to l.out)
        (append-nil (output lib l level now (forged lib l layout level now' a b) []))
      ∙ one
      ∙ regroup (line_start lib layout level now) c (line_start lib layout level now') c' a b
      ∙ sym (
          bytes_to-append l.out (output lib l level now a []) (output lib l level now' b [] ++ [])
          ∙ ap (λ s. s ++ bytes_to l.out (output lib l level now' b [] ++ [])) (text_bytes now a)
          ∙ ap
              (λ ws.
                (line_start lib layout level now ++ (c ++ (a ++ text "\n"))) ++ bytes_to l.out ws)
              (append-nil (output lib l level now' b []))
          ∙ ap (λ s. (line_start lib layout level now ++ (c ++ (a ++ text "\n"))) ++ s)
              (text_bytes now' b))
