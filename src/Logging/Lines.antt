-- ===== src/Logging/Lines.antt =====
-- The lines that the JSON formatter writes.
use corridor.Prelude.{
  eqb_self, ℕ, ◌≡◌, refl, sym, ◌∙◌, ap, List, [], ◌∷◌, ◌++◌, map, true, false, ok, arith, leb, eqb,
  if◌then◌else◌, Bool-cases, inl, inr,
}
use mathlib.Core.List.{append_assoc, append-nil}
use corridor.Prelude.Int.{ℤ}
use corridor.Prelude.Text.{Text, text, contains}
use corridor.Prelude.Dict.{Dict}
use corridor.Config.Yaml.{Value}
use corridor.Logging.{
  Level, rank, level_to_string, json_formatter, Logger, Library, JsonLogEntry, Write, caller_of,
  is_filtered, formatted_writes, json_writes, format_json, output, logf, logw,
}

-- A call of one of the three kinds: with its operands printed, formatted, or with fields.
pub data LogCall : Type 0 where
  prints formats : Level → ℤ → Text → LogCall
  lists : Level → ℤ → Text → Dict Value → LogCall

abbrev pub level_of : LogCall → Level
level_of (prints level now message) = level
level_of (formats level now message) = level
level_of (lists level now message fields) = level

abbrev pub writes_of : Library → Logger → LogCall → List Write
writes_of lib l (prints level now message) = output lib l level now message []
writes_of lib l (formats level now message) = logf lib l level now message
writes_of lib l (lists level now message fields) = logw lib l level now message fields

-- The writes of calls in a row.
unfoldable pub session : Library → Logger → List LogCall → List Write
session lib l [] = []
session lib l (call ∷ calls) = writes_of lib l call ++ session lib l calls

-- The bytes that a writer gets.
unfoldable pub bytes_to : ℕ → List Write → Text
bytes_to out [] = []
bytes_to out ((w, bytes) ∷ ws) =
    let rest = bytes_to out ws in if eqb w out then bytes ++ rest else rest

-- The lines of a text that end in a newline, after the bytes read so far of the first.
unfoldable pub lines_from : Text → Text → List Text
lines_from line [] = []
lines_from line (c ∷ s) = elim (eqb c 10) [
  | true ↦ line ∷ lines_from [] s
  | false ↦ lines_from (line ++ (c ∷ [])) s
]

abbrev pub lines : Text → List Text
lines s = lines_from [] s

-- The calls at a level that is at most the logger's.
unfoldable pub enabled : Logger → List LogCall → List LogCall
enabled l [] = []
enabled l (call ∷ calls) =
    let rest = enabled l calls in
    if leb (rank (level_of call)) (rank l.level) then call ∷ rest else rest

abbrev entry_at : Library → Logger → Level → ℤ → Text → Dict Value → JsonLogEntry
entry_at lib l level now message fields = record {
  timestamp = lib.format_utc_nano now;
  level = level_to_string level;
  message = message;
  caller = caller_of lib l now;
  fields = fields;
}

abbrev pub entry_for : Library → Logger → LogCall → JsonLogEntry
entry_for lib l (prints level now message) = entry_at lib l level now message []
entry_for lib l (formats level now message) = entry_at lib l level now message []
entry_for lib l (lists level now message fields) = entry_at lib l level now message fields

-- The law of `json.Marshal` on entries: what it gives has no newline in it.
pub record Marshals (lib : Library) (json : JsonLogEntry → Text) : Type 0 where
  pub gives : (e : JsonLogEntry) → lib.marshal e ≡ ok (json e)
  pub one_line : (e : JsonLogEntry) → contains (json e) 10 ≡ false

lines_from_line :
    (line t rest : Text)
    → contains t 10 ≡ false
    → lines_from line (t ++ (10 ∷ rest)) ≡ (line ++ t) ∷ lines_from [] rest
unfolding lines_from contains
lines_from_line line [] rest plain = ap (λ s. s ∷ lines_from [] rest) (sym (append-nil line))
lines_from_line line (c ∷ t) rest plain = elim (Bool-cases (eqb c 10)) [
  | inl newline ↦ let e = rw newline at plain in absurd (cc)
  | inr other ↦
      let tail : contains t 10 ≡ false = rw other at plain in
      rw (other, lines_from)
        (lines_from_line (line ++ (c ∷ [])) t rest tail
          ∙ ap (λ s. s ∷ lines_from [] rest) (append_assoc line (c ∷ []) t))
]

pub bytes_to-append :
    (out : ℕ) (ws vs : List Write) → bytes_to out (ws ++ vs) ≡ bytes_to out ws ++ bytes_to out vs
unfolding bytes_to
bytes_to-append out [] vs = refl
bytes_to-append out ((w, bytes) ∷ ws) vs = elim (Bool-cases (eqb w out)) [
  | inl same ↦
      rw (same, bytes_to-append out ws vs)
        (sym (append_assoc bytes (bytes_to out ws) (bytes_to out vs)))
  | inr other ↦ rw other (bytes_to-append out ws vs)
]

module _ (lib : Library) (json : JsonLogEntry → Text) (law : Marshals lib json) (l : Logger)
    (is_json : l.formatter ≡ json_formatter) where
  output_enabled :
      (level : Level) (now : ℤ) (message : Text) (fields : Dict Value)
      → is_filtered l level ≡ false
      → output lib l level now message fields
        ≡ (l.out, json (entry_at lib l level now message fields)) ∷ (l.out, text "\n") ∷ []
  unfolding output format_json
  output_enabled level now message fields on =
      let given = law.gives (entry_at lib l level now message fields) in
      rw on (
        ap (λ f. formatted_writes lib l f level now message fields) is_json
        ∙ ap (json_writes l.out level message) given)

  -- A call that is filtered out writes nothing, in each of the three kinds.
  writes_of-filtered :
      (call : LogCall) → is_filtered l (level_of call) ≡ true → writes_of lib l call ≡ []
  unfolding output logf logw
  writes_of-filtered (prints level now message) off = rw off refl
  writes_of-filtered (formats level now message) off = rw off refl
  writes_of-filtered (lists level now message fields) off = rw off refl

  writes_of-enabled :
      (call : LogCall)
      → is_filtered l (level_of call) ≡ false
      → writes_of lib l call ≡ (l.out, json (entry_for lib l call)) ∷ (l.out, text "\n") ∷ []
  unfolding logf logw
  writes_of-enabled (prints level now message) on = output_enabled level now message [] on
  writes_of-enabled (formats level now message) on = rw on (output_enabled level now message [] on)
  writes_of-enabled (lists level now message fields) on =
      rw on (output_enabled level now message fields on)

  own_bytes : (s : Text) → bytes_to l.out ((l.out, s) ∷ (l.out, text "\n") ∷ []) ≡ s ++ (10 ∷ [])
  unfolding bytes_to
  own_bytes s = rw (eqb_self l.out) refl

  -- With the JSON formatter the lines that the logger's writer gets over any calls are the
  -- entries of exactly the calls at the logger's level or below, in order, one line for each,
  -- whatever bytes the messages have; if `json.Marshal` gives each entry a text without newlines.
  pub session-lines :
      (calls : List LogCall)
      → lines (bytes_to l.out (session lib l calls))
        ≡ map (λ c. json (entry_for lib l c)) (enabled l calls)
  unfolding session bytes_to lines_from enabled
  session-lines [] = refl
  session-lines (call ∷ calls) =
      let split = ap lines (bytes_to-append l.out (writes_of lib l call) (session lib l calls)) in
      elim (Bool-cases (is_filtered l (level_of call))) [
        | inl off ↦
            let passed : leb (rank (level_of call)) (rank l.level) ≡ false = ground arith in
            split
            ∙ ap (λ ws. lines (bytes_to l.out ws ++ bytes_to l.out (session lib l calls)))
                (writes_of-filtered call off)
            ∙ session-lines calls
            ∙ rw passed refl
        | inr on ↦
            let passed : leb (rank (level_of call)) (rank l.level) ≡ true = ground arith in
            let entry = json (entry_for lib l call) in
            let after = bytes_to l.out (session lib l calls) in
            rw passed (
              split
              ∙ ap (λ ws. lines (bytes_to l.out ws ++ after)) (writes_of-enabled call on)
              ∙ ap (λ b. lines (b ++ after)) (own_bytes entry)
              ∙ ap lines (append_assoc entry (10 ∷ []) after)
              ∙ lines_from_line [] entry after (law.one_line (entry_for lib l call))
              ∙ ap (λ ls. entry ∷ ls) (session-lines calls))
      ]
