-- ===== src/Config/Offset/Line.antt =====
-- Which line and column the reporter shows for an offset, in a file cut into the lines before, the
-- line in question and the rest.
use native.Mathlib.Nat.{add-zero}
use hawk_apiserver.Prelude.{
  ℕ, suc, ◌+◌, ◌-◌, ◌≤◌, ◌<◌, ◌≡◌, refl, sym, ap, ◌⊎◌, inl, inr, [], ◌∷◌, ◌++◌, none, some, length,
  take, replicate, arith, append_assoc, append-nil, length-append, take-append, drop-append, leb,
  true,
}
use hawk_apiserver.Text.{Text, last_index_byte, index_byte, count_byte}
use hawk_apiserver.Text.Laws.{Lacks, IsTail}
use hawk_apiserver.Text.Positions.{
  last_index_byte_of_Lacks, last_index_byte-append, index_byte_of_Lacks, index_byte-append,
  take-append_add, take-append_le, Lacks-take,
}
use hawk_apiserver.Outcome.{done, panic}
use hawk_apiserver.Config.Offset.{
  after, or_end, minus_one, line_start, context_at_offset, error_lines,
}

-- Whole lines: nothing, or a text that ends in a line feed.
abbrev pub IsLines : Text → Type 0
IsLines pre = (pre ≡ []) ⊎ ((q : Text) × (pre ≡ q ++ 10 ∷ []))

after-last_index_byte :
    (pre l : Text) → IsLines pre → Lacks 10 l → after (last_index_byte (pre ++ l) 10) ≡ length pre
after-last_index_byte pre l (inl e) h = rw (e, last_index_byte_of_Lacks 10 l h)
after-last_index_byte pre l (inr (q, e)) h =
    rw (e, append_assoc, last_index_byte-append 10 q l h, length-append q (10 ∷ [])) (omega arith)

module _ (pre l rest : Text) (lines : IsLines pre) (one_line : Lacks 10 l)
    (is_rest : IsTail 10 rest) where
  line_start_lem :
      (n : ℕ) → n ≤ length l → line_start (pre ++ (l ++ rest)) (length pre + n) ≡ length pre
  unfolding line_start
  line_start_lem n h =
      rw (take-append_add pre (l ++ rest) n, take-append_le n l rest h)
        (after-last_index_byte pre (take n l) lines (Lacks-take 10 n l one_line))

  line_end :
      or_end (length pre) (length (pre ++ (l ++ rest))) (index_byte (l ++ rest) 10)
      ≡ length pre + length l
  line_end = elim is_rest [
    | inl e ↦ rw (e, append-nil, index_byte_of_Lacks 10 l one_line, length-append pre l) refl
    | inr (u, e) ↦ rw (e, index_byte-append 10 l u one_line) refl
  ]

  -- The offset's line, from its start to its end, and the number of lines before.
  context_at_offset_lem :
      (n : ℕ)
      → n ≤ length l
      → context_at_offset (pre ++ (l ++ rest)) (length pre + n)
        ≡ done (record {
          start = length pre;
          end = length pre + length l;
          line = count_byte pre 10;
          pos = minus_one (length pre + n) (length pre);
        })
  unfolding context_at_offset
  context_at_offset_lem n h = rw (
    line_start_lem n h,
    drop-append pre (l ++ rest),
    take-append pre (l ++ rest),
    line_end,
    in_range,
  )
    where
      in_range : leb (length pre + n) (length (pre ++ (l ++ rest))) ≡ true
      in_range = ground (arith, length-append pre (l ++ rest), length-append l rest)

  -- In a text cut into whole lines, a line without a line feed, and a rest that is empty or begins
  -- with one, behind byte k of that line the report is the number of lines before, the line itself, and a caret
  -- under that byte.
  pub error_lines_lem :
      (k : ℕ)
      → k < length l
      → error_lines (pre ++ (l ++ rest)) (length pre + suc k)
        ≡ done (count_byte pre 10, l, replicate k b' ' ++ b'^' ∷ [])
  unfolding error_lines
  error_lines_lem k h = rw (
    context_at_offset_lem (suc k) h,
    column,
    width,
    drop-append pre (l ++ rest),
    take-append l rest,
  )
    where
      column : minus_one (length pre + suc k) (length pre) ≡ some k
      column = unfold minus_one in ground arith

      width : length pre + length l - length pre ≡ length l
      width = omega arith

  -- In a text cut in that way, with the offset at the start of the line, as behind a line feed that
  -- is itself the error, the reporter panics.
  pub error_lines_panic : error_lines (pre ++ (l ++ rest)) (length pre) ≡ panic
  unfolding error_lines
  error_lines_panic = rw (
    ap (error_lines (pre ++ (l ++ rest))) (sym (add-zero (length pre))),
    error_lines,
    context_at_offset_lem 0 (omega arith),
    column,
  )
    where
      column : minus_one (length pre + 0) (length pre) ≡ none
      column = unfold minus_one in ground arith
