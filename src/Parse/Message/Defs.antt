-- ===== src/Parse/Message/Defs.antt =====
-- What mail_parser reads from the bytes of a message is a parameter, and so are the clock and
-- Unicode lower case. An `i64` stands as the number that is 2 ^ 63 larger.
use kernel_lore_mcp.Base.{
  ℕ, ◌+◌, ◌%◌, ◌^◌, Bool, false, ◌&&◌, ◌||◌, List, [], ◌∷◌, ◌++◌, map, if◌then◌else◌, leb, ltb,
  ◌==◌, length, any, Option, none, some, or_else, unwrap_or, ◌>>=◌, is_some,
}
use kernel_lore_mcp.Text.{Text, trim, to_ascii_lowercase, strip_prefix, strip_suffix, codes}
use kernel_lore_mcp.Text.Distinct.{push_new}
use kernel_lore_mcp.Parse.Subject.{Subject, no_subject, decompose_subject}
use kernel_lore_mcp.Parse.Body.{split_prose_and_patch}
use kernel_lore_mcp.Parse.Trailers.{Trailers, no_trailers, extract_trailers}
use kernel_lore_mcp.Parse.Patch.{parse_patch}

-- an address of a header: its mailbox and its display name
pub record Addr : Type 0 where
  pub address : Option Text
  pub name : Option Text

-- A message as mail_parser gives it; `date` is what `time` reads from its RFC 3339 form, and
-- `body_texts` what `body_text` gives for each text body part.
pub record Mail : Type 0 where
  pub message_id : Option Text
  pub from : Option (List Addr)
  pub to : Option (List Addr)
  pub cc : Option (List Addr)
  pub subject : Option Text
  pub date : Option ℕ
  pub in_reply_to : Option (List Text)
  pub references : Option (List Text)
  pub body_texts : List (Option Text)

unfoldable pub strip_angles : Text → Text
strip_angles s =
    let t = trim s in unwrap_or t (strip_prefix (codes "<") t >>= λ r. strip_suffix (codes ">") r)

-- one address: kept if it is not empty, has no blank, and is new
unfoldable pub push_addr : Option Text → List Text → List Text
push_addr none out = out
push_addr (some a) out =
    let norm = to_ascii_lowercase (trim a) in
    if length norm == 0 || any (λ c. c == 32) norm then out else push_new norm out

unfoldable pub push_addrs : List Addr → List Text → List Text
push_addrs [] out = out
push_addrs (a ∷ rest) out = push_addrs rest (push_addr a.address out)

unfoldable pub collect_envelope_addrs : Option (List Addr) → List Text
collect_envelope_addrs none = []
collect_envelope_addrs (some group) = push_addrs group []

-- 1990-01-01 and one week, in nanoseconds
abbrev pub min_ns : ℕ
min_ns = 9854524036854775808

abbrev pub week_ns : ℕ
week_ns = 604800000000000

unfoldable pub saturating_add : ℕ → ℕ → ℕ
saturating_add a b = if ltb (a + b) (2 ^ 64) then a + b else 18446744073709551615

unfoldable pub is_plausible_message_date : ℕ → ℕ → Bool
is_plausible_message_date now_ns ns = leb min_ns ns && leb ns (saturating_add now_ns week_ns)

pub record ParsedMessage : Type 0 where
  pub message_id : Option Text
  pub from_addr : Option Text
  pub from_name : Option Text
  pub to_addrs : List Text
  pub cc_addrs : List Text
  pub subject_raw : Option Text
  pub subject_normalized : Option Text
  pub subject_tags : List Text
  pub series_version : ℕ
  pub series_index : Option ℕ
  pub series_total : Option ℕ
  pub is_cover_letter : Bool
  pub date_unix_ns : Option ℕ
  pub in_reply_to : Option Text
  pub references : List Text
  pub prose : Text
  pub patch : Option Text
  pub has_patch : Bool
  pub touched_files : List Text
  pub touched_functions : List Text
  pub files_changed : Option ℕ
  pub insertions : Option ℕ
  pub deletions : Option ℕ
  -- the map of trailers and the named lists
  pub trailers : Trailers

abbrev pub no_message : ParsedMessage
no_message = record {
  message_id = none;
  from_addr = none;
  from_name = none;
  to_addrs = [];
  cc_addrs = [];
  subject_raw = none;
  subject_normalized = none;
  subject_tags = [];
  series_version = 0;
  series_index = none;
  series_total = none;
  is_cover_letter = false;
  date_unix_ns = none;
  in_reply_to = none;
  references = [];
  prose = [];
  patch = none;
  has_patch = false;
  touched_files = [];
  touched_functions = [];
  files_changed = none;
  insertions = none;
  deletions = none;
  trailers = no_trailers;
}

abbrev pub first : {A : Type 0} → List A → Option A
first [] = none
first (a ∷ rest) = some a

abbrev pub texts_of : Option (List Text) → List Text
texts_of none = []
texts_of (some ts) = ts

unfoldable pub with_from : (Text → Text) → Option (List Addr) → ParsedMessage → ParsedMessage
with_from to_lowercase from m =
    let contact = from >>= λ contacts. first contacts in
    record m {
      from_addr = contact >>= λ a. a.address >>= λ s. some (to_lowercase (trim s));
      from_name = contact >>= λ a. a.name >>= λ s. some (trim s);
    }

-- the parts of the subject, if there is one; `decompose_subject` always returns
abbrev pub subject_parts : Option Text → Option Subject
subject_parts none = none
subject_parts (some subject) = some (unwrap_or (no_subject subject) (decompose_subject subject))

unfoldable pub with_subject : Option Text → ParsedMessage → ParsedMessage
with_subject subject m =
    let parts = subject_parts subject in
    let s = unwrap_or (no_subject []) parts in
    record m {
      subject_raw = subject;
      subject_normalized = parts >>= λ p. some p.normalized;
      subject_tags = s.tags;
      series_version = s.version;
      series_index = s.index;
      series_total = s.total;
      is_cover_letter = s.is_cover;
    }

unfoldable pub message_date : ℕ → Option ℕ → Option ℕ → Option ℕ
message_date now_ns date commit_date =
    or_else (date >>= λ ns. if is_plausible_message_date now_ns ns then some ns else none)
      commit_date

-- the parts that have a text, joined by line feeds
unfoldable pub join_parts : List (Option Text) → Text
join_parts [] = []
join_parts (none ∷ ps) = join_parts ps
join_parts (some t ∷ []) = t
join_parts (some t ∷ p ∷ ps) =
    let rest = join_parts (p ∷ ps) in if any is_some (p ∷ ps) then t ++ 10 ∷ rest else t

unfoldable pub body_text : List (Option Text) → Text
body_text [] = []
body_text (p ∷ []) = unwrap_or [] p
body_text (p ∷ q ∷ ps) = join_parts (p ∷ q ∷ ps)

unfoldable pub with_body : Text → ParsedMessage → ParsedMessage
with_body body m =
    let s = split_prose_and_patch body in
    record m {
      prose = s.prose;
      patch = s.patch;
      has_patch = s.has_patch;
      trailers = extract_trailers s.prose;
    }

abbrev pub with_patch_info : Option Text → ParsedMessage → ParsedMessage
with_patch_info none m = m
with_patch_info (some patch) m =
    let p = parse_patch patch in
    record m {
      touched_files = p.files;
      touched_functions = p.funcs;
      files_changed = some (length p.files % 2 ^ 32);
      insertions = some p.insertions;
      deletions = some p.deletions;
    }

abbrev pub from_mail : (Text → Text) → ℕ → Option ℕ → Mail → ParsedMessage
from_mail to_lowercase now_ns commit_date mail =
    let head = with_subject mail.subject (
      with_from to_lowercase mail.from (record no_message {
        message_id = mail.message_id >>= λ m. some (strip_angles m);
        to_addrs = collect_envelope_addrs mail.to;
        cc_addrs = collect_envelope_addrs mail.cc;
      })) in
    let out = with_body (body_text mail.body_texts) (record head {
      date_unix_ns = message_date now_ns mail.date commit_date;
      in_reply_to = first (texts_of mail.in_reply_to) >>= λ t. some (strip_angles t);
      references = map strip_angles (texts_of mail.references);
    }) in
    with_patch_info out.patch out

unfoldable pub parse_message : (Text → Text) → ℕ → Option ℕ → Option Mail → ParsedMessage
parse_message to_lowercase now_ns commit_date none = no_message
parse_message to_lowercase now_ns commit_date (some mail) =
    from_mail to_lowercase now_ns commit_date mail
