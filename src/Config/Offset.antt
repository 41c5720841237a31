-- ===== src/Config/Offset.antt =====
-- contextAtOffset. Slicing out of range is a panic. `int(offset)-start-1` can be -1, which is
-- `none`, and strings.Repeat panics on it.
pub mod Line
use hawk_apiserver.Prelude.{
  ℕ, suc, ◌+◌, ◌-◌, Bool, true, false, List, [], ◌∷◌, ◌++◌, Option, none, some, if◌then◌else◌, leb,
  ltb, length, take, drop, replicate,
}
use hawk_apiserver.Text.{Text, last_index_byte, index_byte, count_byte}
use hawk_apiserver.Outcome.{Outcome, done, panic, ◌>>=◌}

pub record OffsetContext : Type 0 where
  pub start : ℕ
  pub end : ℕ
  pub line : ℕ
  pub pos : Option ℕ

-- `strings.LastIndex(s, "\n") + 1`
abbrev after : Option ℕ → ℕ
after none = 0
after (some i) = suc i

abbrev or_end : ℕ → ℕ → Option ℕ → ℕ
or_end start end none = end
or_end start end (some i) = start + i

-- `a - b - 1`
unfoldable pub minus_one : ℕ → ℕ → Option ℕ
minus_one a b = if ltb b a then some (a - b - 1) else none

unfoldable pub line_start : Text → ℕ → ℕ
line_start str offset = after (last_index_byte (take offset str) 10)

unfoldable pub context_at_offset : Text → ℕ → Outcome OffsetContext
unfolding line_start minus_one
context_at_offset str offset =
    let start = line_start str offset in
    if leb offset (length str)
    then done (record {
      start = start;
      end = or_end start (length str) (index_byte (drop start str) 10);
      line = count_byte (take start str) 10;
      pos = minus_one offset start;
    })
    else panic

-- The lines that fatalSyntaxError logs for the offset: the line in question, and a caret.
abbrev caret : Option ℕ → Outcome Text
caret none = panic
caret (some n) = done (replicate n b' ' ++ b'^' ∷ [])

unfoldable pub error_lines : Text → ℕ → Outcome (ℕ × Text × Text)
unfolding context_at_offset
error_lines js offset = do
  ctx ← context_at_offset js offset
  mark ← caret ctx.pos
  done (ctx.line, take (ctx.end - ctx.start) (drop ctx.start js), mark)
