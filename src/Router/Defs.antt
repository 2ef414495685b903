-- ===== src/Router/Defs.antt =====
-- The tokens of a query, and the query that they make.
-- An `i64` stands as the number that is 2 ^ 63 larger. The clock and the calendar (the `time`
-- library) are parameters.
use kernel_lore_mcp.Base.{
  ℕ, ◌+◌, ◌^◌, Bool, false, not, ◌&&◌, ◌||◌, List, [], ◌∷◌, ◌++◌, if◌then◌else◌, leb, ltb, ◌==◌,
  all, length, Option, none, some, or_else, ◌*◌,
}
use kernel_lore_mcp.Error.{Result, ok, err, query_parse, ok_or, ◌>>=◌}
use kernel_lore_mcp.Text.{Text, codes, is_digit, trim, split_once, text_eq}
use kernel_lore_mcp.Text.Decimal.{parse_unsigned}

abbrev pub and_then : {A B : Type 0} → Option A → (A → Option B) → Option B
and_then none f = none
and_then (some a) f = f a

abbrev pub Token : Type 0
Token = Text × Bool

abbrev pub is_separator : ℕ → Bool
is_separator c = c == 32 || c == 9 || c == 10

-- what the buffer adds to the tokens when a token ends
abbrev pub end_token : Text → Bool → List Token → List Token
end_token buf quoted rest = if length buf == 0 then rest else (buf, quoted) ∷ rest

-- the loop over the characters, with the buffer and the two flags
unfoldable pub tokenize_from : Text → Text → Bool → Bool → List Token
tokenize_from [] buf in_quote was_quoted = end_token buf was_quoted []
tokenize_from (c ∷ s) buf in_quote was_quoted =
    let is_end = is_separator c && not in_quote in
    let rest =
      tokenize_from s (if c == 34 then buf else if is_end then [] else buf ++ c ∷ [])
        (if c == 34 then not in_quote else in_quote)
        (if c == 34
          then was_quoted || not in_quote
          else if is_end && not (length buf == 0)
          then false
          else was_quoted) in
    if not (c == 34) && is_end then end_token buf was_quoted rest else rest

unfoldable pub tokenize_tagged : Text → List Token
tokenize_tagged q = tokenize_from q [] false false

pub record ParsedQuery : Type 0 where
  pub free_text : List Text
  pub list : Option Text
  pub touched_file : Option Text
  pub touched_function : Option Text
  pub patch_substring : Option Text
  pub message_id : Option Text
  pub from_addr : Option Text
  pub fixes_sha : Option Text
  pub since_unix_ns : Option ℕ
  pub until_unix_ns : Option ℕ

abbrev pub no_query : ParsedQuery
no_query = record {
  free_text = [];
  list = none;
  touched_file = none;
  touched_function = none;
  patch_substring = none;
  message_id = none;
  from_addr = none;
  fixes_sha = none;
  since_unix_ns = none;
  until_unix_ns = none;
}

-- `ago`: now less so many units of so many seconds, if that is a time; the rest parse the formats
pub record Calendar : Type 0 where
  pub ago : ℕ → ℕ → Option ℕ
  pub date : Text → Option ℕ
  pub rfc3339 : Text → Option ℕ
  pub naive : Text → Option ℕ

abbrev pub digits_of : Text → Text × Text
digits_of [] = ([], [])
digits_of (c ∷ s) =
    let rest = digits_of s in if is_digit c then (c ∷ rest.0, rest.1) else ([], c ∷ s)

-- `saturating_mul` on an amount that is not negative
abbrev pub saturating_mul : ℕ → ℕ → ℕ
saturating_mul a b = let p = a * b in if ltb p (2 ^ 63) then p else 9223372036854775807

unfoldable pub relative_of : Calendar → ℕ → Text → Option ℕ
relative_of cal amount suffix =
    if text_eq suffix (codes "s")
    then cal.ago amount 1
    else if text_eq suffix (codes "h")
    then cal.ago amount 3600
    else if text_eq suffix (codes "d")
    then cal.ago amount 86400
    else if text_eq suffix (codes "w")
    then cal.ago amount 604800
    else if text_eq suffix (codes "mo")
    then cal.ago (saturating_mul amount 30) 86400
    else if text_eq suffix (codes "y")
    then cal.ago (saturating_mul amount 365) 86400
    else none

unfoldable pub parse_relative_time_bound : Calendar → Text → Option ℕ
parse_relative_time_bound cal value =
    let parts = digits_of value in
    if length parts.0 == 0 || length parts.1 == 0
    then none
    else and_then (parse_unsigned (2 ^ 63) parts.0) (λ amount. relative_of cal amount parts.1)

unfoldable pub parse_time_bound : Calendar → Text → Result ℕ
parse_time_bound cal raw =
    let value = trim raw in
    if length value == 0
    then err query_parse
    else if all is_digit value
    then ok_or query_parse (and_then (parse_unsigned (2 ^ 63) value) (λ n. some (n + 2 ^ 63)))
    else ok_or query_parse (
        or_else (parse_relative_time_bound cal value)
          (or_else (cal.date value) (or_else (cal.rfc3339 value) (cal.naive value))))

abbrev pub keyed : Calendar → Text → Text → Bool → ParsedQuery → Result ParsedQuery
keyed cal key value quoted q =
    if text_eq key (codes "list")
    then ok (record q { list = some value })
    else if text_eq key (codes "dfn")
    then ok (record q { touched_file = some value })
    else if text_eq key (codes "dfhh")
    then ok (record q { touched_function = some value })
    else if text_eq key (codes "dfb")
    then ok (record q { patch_substring = some value })
    else if text_eq key (codes "mid")
    then ok (record q { message_id = some value })
    else if text_eq key (codes "f")
    then ok (record q { from_addr = some value })
    else if text_eq key (codes "fixes")
    then ok (record q { fixes_sha = some value })
    else if text_eq key (codes "since")
    then (parse_time_bound cal value >>= λ t. ok (record q { since_unix_ns = some t }))
    else if text_eq key (codes "until")
    then (parse_time_bound cal value >>= λ t. ok (record q { until_unix_ns = some t }))
    else if text_eq key (codes "b")
    then (if quoted
        then err query_parse
        else ok (record q { free_text = q.free_text ++ value ∷ [] }))
    else err query_parse

abbrev pub bare : Text → Bool → ParsedQuery → Result ParsedQuery
bare tok quoted q =
    if quoted then err query_parse else ok (record q { free_text = q.free_text ++ tok ∷ [] })

abbrev pub one_token :
    Calendar → Text → Bool → Option (Text × Text) → ParsedQuery → Result ParsedQuery
one_token cal tok quoted none q = bare tok quoted q
one_token cal tok quoted (some (key, value)) q = keyed cal key value quoted q

unfoldable pub apply_tokens : Calendar → List Token → ParsedQuery → Result ParsedQuery
unfolding parse_time_bound
apply_tokens cal [] q = ok q
apply_tokens cal ((tok, quoted) ∷ toks) q =
    one_token cal tok quoted (split_once 58 tok) q >>= λ next. apply_tokens cal toks next

abbrev pub is_reversed : Option ℕ → Option ℕ → Bool
is_reversed (some since) (some until) = leb until since
is_reversed (some since) none = false
is_reversed none until = false

unfoldable pub parse_query : Calendar → Text → Result ParsedQuery
parse_query cal q = apply_tokens cal (tokenize_tagged q) no_query >>= λ out.
    if is_reversed out.since_unix_ns out.until_unix_ns then err query_parse else ok out
