-- ===== src/Subgraph/Cursor.antt =====
-- internal/thegraph/sync.go: formatCursor, parseCursor and resumeCursor.
use chain_parse_service.Base.{String, ◌≡◌, ap, ◌∙◌, Option, none, some, Bool, true, false}
use chain_parse_service.Base.Int.{ℤ, pos, ◌-ℤ◌}
use chain_parse_service.Base.Decimal.{
  show_int, parse_int, cut_colon, FitsInt64, cut_colon-show_int, parse_int-show_int,
}

unfoldable pub format_cursor : ℤ → String → String
unfolding show_int
format_cursor ts id = show_int ts (String.◌∷◌ ":" id)

abbrev with_id : String → Option ℤ → Option (ℤ × String)
with_id id none = none
with_id id (some ts) = some (ts, id)

abbrev parse_parts : Option (String × String) → Option (ℤ × String)
parse_parts none = none
parse_parts (some (t, id)) = with_id id (parse_int t)

unfoldable pub parse_cursor : String → Option (ℤ × String)
unfolding parse_int cut_colon
parse_cursor s = parse_parts (cut_colon s)

abbrev pub or_fallback : ℤ × String → Option (ℤ × String) → ℤ × String
or_fallback d none = d
or_fallback d (some c) = c

abbrev pub of_saved : ℤ × String → Option String → ℤ × String
of_saved d none = d
of_saved d (some s) = or_fallback d (parse_cursor s)

-- What the cursor store answers: `readable` is false where it gives an error.
unfoldable pub resume_cursor : ℤ → Bool → Option String → ℤ × String
unfolding parse_cursor
resume_cursor initial_since true saved = of_saved (initial_since -ℤ pos 1, "") saved
resume_cursor initial_since false saved = (initial_since -ℤ pos 1, "")

-- A cursor that was written is read back, whatever the id.
pub parse_cursor-format_cursor :
    (ts : ℤ) (id : String) → FitsInt64 ts → parse_cursor (format_cursor ts id) ≡ some (ts, id)
unfolding parse_cursor format_cursor
parse_cursor-format_cursor ts id h =
    ap parse_parts (cut_colon-show_int ts id) ∙ ap (with_id id) (parse_int-show_int ts h)
