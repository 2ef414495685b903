-- ===== src/Tests/Parse.antt =====
-- src/parse.rs on a patch message of two lines of prose, and on what its loops meet.
use kernel_lore_mcp.Base.{
  ℕ, ◌≤◌, ◌≡◌, refl, ◌⊎◌, ◌↔◌, true, false, [], ◌∷◌, ◌++◌, Option, none, some, IsIn,
}
use kernel_lore_mcp.Text.{
  Text, codes, lines, trim, trim_start, trim_end, split_once, split_once_at, to_ascii_lowercase,
  to_ascii_uppercase, strip_prefix, starts_with, text_eq, nonempty, split, contains, is_whitespace,
  trim_matches, trim_start_matches, trim_end_matches,
}
use kernel_lore_mcp.Text.Decimal.{parse_unsigned, parse_digits}
use kernel_lore_mcp.Text.Distinct.{IsDistinct, listed, push_new}
use kernel_lore_mcp.Parse.Subject.{
  Subject, decompose_subject, strip_replies, after_reply, strip_tags, bracket, dedup_tags,
  read_tokens, numbers_of, version_of, read_tag, split_ascii_whitespace,
}
use kernel_lore_mcp.Parse.Subject.Total.{IsBounded, decompose_subject-returns}
use kernel_lore_mcp.Parse.Body.{needle, split_prose_and_patch, scrub_prose}
use kernel_lore_mcp.Parse.Body.First.{StartsDiff, split_prose_and_patch-first}
use kernel_lore_mcp.Parse.Trailers.{
  is_trailer_line, trailer_lines, trailing, push_all, add_lines, extract_trailers,
}
use kernel_lore_mcp.Parse.Trailers.Found.{values, Gives, extract_trailers-values}
use kernel_lore_mcp.Parse.Trailers.Lines.{trailer_lines-all}
use kernel_lore_mcp.Parse.Patch.{parse_patch, patch_lines, strip_side, extract_function_name}
use kernel_lore_mcp.Parse.Patch.Totals.{hunk_lines, changed}
use kernel_lore_mcp.Parse.Patch.Names.{name, extract_function_name-declarator}
use kernel_lore_mcp.Parse.Message.{Mail, parse_message, is_plausible_message_date}
use kernel_lore_mcp.Parse.Message.Consistent.{AgreesOnPatch, parse_message-consistent}

abbrev subject : Text
subject = codes "Re: [PATCH v3 2/5] ksmbd: fix foo"

subject_read :
    decompose_subject subject
    ≡ some (record {
      normalized = codes "ksmbd: fix foo";
      tags = codes "PATCH v3 2/5" ∷ codes "PATCH" ∷ [];
      version = 3;
      index = some 2;
      total = some 5;
      is_cover = false;
    })
unfolding decompose_subject strip_replies after_reply strip_prefix to_ascii_lowercase trim_start
    trim strip_tags bracket split_once dedup_tags read_tokens nonempty split numbers_of
    parse_unsigned version_of contains to_ascii_uppercase read_tag split_ascii_whitespace
    is_whitespace trim_end_matches trim_matches trim_start_matches text_eq split_once_at
    parse_digits listed push_new
subject_read = refl

decompose_subject-returns_example :
    (s : Subject) × (decompose_subject subject ≡ some s) × IsDistinct s.tags × IsBounded s
decompose_subject-returns_example = decompose_subject-returns subject

abbrev diff : Text
diff = needle ++ codes "a/x.c b/x.c"

abbrev body : Text
body = codes "fix it" ++ 10 ∷ diff

split_prose_and_patch-first_example :
    (((k : ℕ) → ¬ StartsDiff body k)
      × ((split_prose_and_patch body).patch ≡ none)
      × ((split_prose_and_patch body).prose ≡ scrub_prose body))
    ⊎ ((n : ℕ) × (prose : Text) × (patch : Text) × StartsDiff body n
        × ((k : ℕ) → StartsDiff body k → n ≤ k)
        × (prose ++ patch ≡ body)
        × ((split_prose_and_patch body).patch ≡ some patch)
        × ((split_prose_and_patch body).prose ≡ scrub_prose prose))
split_prose_and_patch-first_example = split_prose_and_patch-first body

-- a trailer with a blank at its end stands in the list twice
abbrev signed : Text
signed = codes "Signed-off-by: A <a@b> " ++ 10 ∷ []

signed_twice : (extract_trailers signed).signed_off_by ≡ codes "A <a@b>" ∷ codes "A <a@b>" ∷ []
unfolding extract_trailers add_lines trailer_lines push_all lines is_trailer_line split_once
    trim_end starts_with trim push_new listed trailing text_eq to_ascii_lowercase
signed_twice = refl

extract_trailers-values_example :
    IsIn (codes "A <a@b>") (values (codes "signed-off-by") (extract_trailers signed)) ↔ (
      (l : Text) × IsIn l (trailer_lines signed)
      × Gives (split_once 58 l) (codes "signed-off-by") (codes "A <a@b>"))
extract_trailers-values_example =
    extract_trailers-values signed (codes "signed-off-by") (codes "A <a@b>")

trailer_lines-all_example :
    ((l : Text)
      → IsIn l (lines signed)
      → is_trailer_line (trim_end l) ≡ true
      → IsIn l (trailer_lines signed))
    × ((l : Text)
        → IsIn l (trailer_lines signed)
        → (raw : Text) × IsIn raw (lines signed)
          × ((raw ≡ l) ⊎ (trim_end raw ≡ l))
          × (is_trailer_line (trim_end raw) ≡ true))
trailer_lines-all_example = trailer_lines-all signed

-- an added line that starts with a plus sign is not counted
abbrev plus_plus : Text
plus_plus =
    diff ++ 10 ∷ codes "@@ -1 +1 @@ int f(void)" ++ 10 ∷ codes "+++i;" ++ 10 ∷ codes "+j = 1;"

plus_missed : (parse_patch plus_plus).insertions ≡ 1
unfolding parse_patch patch_lines lines strip_prefix starts_with
plus_missed = refl

-- a file below a directory named `b` loses the directory
b_lost : (parse_patch (needle ++ codes "a/b/x.c b/b/x.c")).files ≡ codes "x.c" ∷ []
unfolding parse_patch patch_lines lines strip_prefix split_once strip_side push_new listed text_eq
b_lost = refl

declarator_cut : trim (codes " int f(void)") ≡ codes "int " ++ codes "f" ++ (40 ∷ codes "void)")
unfolding trim
declarator_cut = refl

extract_function_name-declarator_example :
    extract_function_name (codes " int f(void)") ≡ some (codes "f")
extract_function_name-declarator_example =
    extract_function_name-declarator (codes " int f(void)") (codes "int ") (codes "f")
      (codes "void)") declarator_cut (refl, (refl, (refl, (refl, (refl, tt))))) refl
      (name 102 [] refl refl tt)

-- a patch that replaces a line by two
abbrev patch : Text
patch =
    codes "diff --git a/x.c b/x.c"
    ++ 10 ∷ codes "@@ -1 +1,2 @@"
    ++ 10 ∷ codes "-old"
    ++ 10 ∷ codes "+new"
    ++ 10 ∷ codes "+more"

totals_of_patch : (changed 43 patch ≡ 2) × (changed 45 patch ≡ 1)
unfolding hunk_lines lines strip_prefix starts_with
totals_of_patch = (refl, refl)

abbrev mail : Mail
mail = record {
  message_id = some (codes "<m@x>");
  from = none;
  to = none;
  cc = none;
  subject = some subject;
  date = some 11223372036854775808;
  in_reply_to = none;
  references = none;
  body_texts = some (codes "fix it" ++ 10 ∷ patch) ∷ [];
}

abbrev ascii : Text → Text
ascii = λ s. to_ascii_lowercase s

parse_message-consistent_example :
    AgreesOnPatch (parse_message ascii 12223372036854775808 none (some mail))
    × IsDistinct (parse_message ascii 12223372036854775808 none (some mail)).to_addrs
    × IsDistinct (parse_message ascii 12223372036854775808 none (some mail)).cc_addrs
    × ((ns : ℕ)
        → (parse_message ascii 12223372036854775808 none (some mail)).date_unix_ns ≡ some ns
        → (is_plausible_message_date 12223372036854775808 ns ≡ true)
          ⊎ (◌≡◌ {A = Option ℕ} none (some ns)))
parse_message-consistent_example =
    parse_message-consistent ascii 12223372036854775808 none (some mail)
