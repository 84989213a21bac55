-- ===== src/Tail.antt =====
-- internal/tail/tail.go: the reader of a growing file.
pub mod Position
use iceclimber.Common.{
  ℕ, zero, suc, ◌+◌, ◌-◌, ◌≡◌, Bool, true, false, ◌||◌, Option, none, some, List, [], ◌∷◌, take,
  drop, length, ltb, leb, ◌==◌, if◌then◌else◌,
}
use iceclimber.Common.Text.{Text, text_eq, split, trim_right_byte, last_index_byte}

-- A Reader without its path. The file is none if it cannot be opened or its size cannot be asked; a
-- read of an open file does not fail.
pub record Reader : Type 0 where
  pub offset : ℕ

abbrev pub new_reader : Reader
new_reader = record { offset = 0 }

-- the lines of a text, without what follows the last of them
unfoldable pub lines_of : Text → List Text
unfolding split trim_right_byte
lines_of text = split b'\n' (trim_right_byte text b'\n')

unfoldable pub history : Option Text → Reader → List Text × Reader
unfolding lines_of text_eq trim_right_byte
history none r = ([], r)
history (some text) r = (
  if text_eq (trim_right_byte text b'\n') [] then [] else lines_of text,
  record { offset = length text },
)

-- Poll behind the seek: `text` is what follows the offset.
unfoldable pub take_lines : Text → ℕ → List Text × Reader
unfolding last_index_byte lines_of
take_lines text offset = elim (last_index_byte text b'\n') [
  | none ↦ ([], record { offset = offset })
  | some last ↦
      (lines_of (take (last + 1) text), record { offset = offset + length (take (last + 1) text) })
]

-- the offset after the check for a file that shrank
unfoldable pub kept_offset : ℕ → ℕ → ℕ
kept_offset size offset = if ltb size offset then 0 else offset

unfoldable pub poll_from : Text → ℕ → List Text × Reader
unfolding take_lines
poll_from text offset =
    if length text == offset
    then ([], record { offset = offset })
    else take_lines (drop offset text) offset

unfoldable pub poll : Option Text → Reader → List Text × Reader
unfolding poll_from kept_offset
poll none r = ([], r)
poll (some text) r = poll_from text (kept_offset (length text) r.offset)

-- n is the number of lines; n <= 0 of the source is 0 here
unfoldable pub last_n : List Text → ℕ → List Text
last_n lines n = if n == 0 || leb (length lines) n then lines else drop (length lines - n) lines
