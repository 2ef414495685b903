-- ===== src/Tests/Router.antt =====
-- src/router.rs on small queries.
use kernel_lore_mcp.Base.{ℕ, ◌<◌, ◌≡◌, refl, Bool, true, false, none, some, List, [], ◌∷◌, All}
use kernel_lore_mcp.Error.{ok, err, query_parse}
use kernel_lore_mcp.Text.{Text, codes, text_eq, split_once, trim}
use kernel_lore_mcp.Text.Decimal.{parse_unsigned}
use kernel_lore_mcp.Router.{
  Calendar, ParsedQuery, tokenize_from, tokenize_tagged, apply_tokens, parse_time_bound,
  parse_query,
}
use kernel_lore_mcp.Router.Words.{IsWord, unwords, tokenize_tagged-unwords}
use kernel_lore_mcp.Router.Query.{IsAllowed, parse_query_sound}

abbrev calendar : Calendar
calendar = record { ago = λ n u. none; date = λ t. none; rfc3339 = λ t. none; naive = λ t. none }

-- an empty pair of quotes makes the next word count as quoted
empty_quotes : tokenize_tagged (codes "\"\" foo") ≡ (codes "foo", true) ∷ []
unfolding tokenize_tagged tokenize_from
empty_quotes = refl

phrase_refused : parse_query calendar (codes "\"use after free\"") ≡ err query_parse
unfolding parse_query tokenize_tagged tokenize_from apply_tokens split_once
phrase_refused = refl

abbrev words : List Text
words = codes "ksmbd" ∷ codes "dacl" ∷ []

plain : All IsWord words
plain = (
  ((λ e. absurd (cc)), (same, (same, (same, (same, (same, tt)))))),
  (((λ e. absurd (cc)), (same, (same, (same, (same, tt))))), tt),
)
  where
    same : (◌≡◌ {A = Bool} false false) × (◌≡◌ {A = Bool} false false)
    same = (refl, refl)

tokenize_tagged-unwords_example :
    tokenize_tagged (unwords words) ≡ (codes "ksmbd", false) ∷ (codes "dacl", false) ∷ []
tokenize_tagged-unwords_example = tokenize_tagged-unwords words plain

abbrev query : Text
query = codes "list:lkml dfb:\"a b\" since:5 until:9 foo"

abbrev parsed : ParsedQuery
parsed = record {
  free_text = codes "foo" ∷ [];
  list = some (codes "lkml");
  touched_file = none;
  touched_function = none;
  patch_substring = some (codes "a b");
  message_id = none;
  from_addr = none;
  fixes_sha = none;
  since_unix_ns = some 9223372036854775813;
  until_unix_ns = some 9223372036854775817;
}

accepted : parse_query calendar query ≡ ok parsed
unfolding parse_query tokenize_tagged tokenize_from apply_tokens parse_time_bound parse_unsigned
    trim split_once text_eq
accepted = refl

parse_query_sound_example :
    ((since until : ℕ)
      → some 9223372036854775813 ≡ some since
      → some 9223372036854775817 ≡ some until
      → since < until)
    × All IsAllowed (tokenize_tagged query)
parse_query_sound_example = parse_query_sound calendar query parsed accepted
