-- ===== src/TrailerRefs/Defs.antt =====
-- Emails, hashes, urls and message ids inside trailer values, and the set of keys of a trailer.
use kernel_lore_mcp.Base.{
  ℕ, ◌+◌, ◌-◌, ◌*◌, ◌/◌, ◌%◌, Bool, not, ◌&&◌, ◌||◌, List, [], ◌∷◌, ◌++◌, if◌then◌else◌, ltb, leb,
  ◌==◌, length, drop, all, within, any, Option, none, some, unwrap_or, or_else, ◌>>=◌,
}
use kernel_lore_mcp.Text.{
  Text, codes, is_hexdigit, is_graphic, lower, to_ascii_lowercase, trim, trim_matches, strip_prefix,
  strip_suffix, starts_with, split_once_at, split_once, split, split_whitespace, text_eq, text_lt,
}
use kernel_lore_mcp.Text.Sorted.{set_insert}

pub record TrailerRef : Type 0 where
  pub ref_kind : Text
  pub ref_value : Text

abbrev pub ref_kind_raw_lc : Text
ref_kind_raw_lc = codes "raw_lc"

abbrev pub ref_kind_email : Text
ref_kind_email = codes "email"

abbrev pub ref_kind_sha_prefix : Text
ref_kind_sha_prefix = codes "sha_prefix"

abbrev pub ref_kind_syzbot_hash : Text
ref_kind_syzbot_hash = codes "syzbot_hash"

abbrev pub ref_kind_lore_mid : Text
ref_kind_lore_mid = codes "lore_mid"

abbrev pub ref_kind_url_lc : Text
ref_kind_url_lc = codes "url_lc"

unfoldable pub strip_angles : Text → Text
strip_angles s =
    let t = trim s in unwrap_or t (strip_prefix (codes "<") t >>= λ r. strip_suffix (codes ">") r)

-- what follows the last `<`
unfoldable pub after_last_angle : Text → Option Text
after_last_angle [] = none
after_last_angle (c ∷ s) = or_else (after_last_angle s) (if c == 60 then some s else none)

-- the first element that passes the test
abbrev pub find : (Text → Bool) → List Text → Option Text
find p [] = none
find p (x ∷ xs) = let later = find p xs in if p x then some x else later

abbrev pub find_map : (Text → Option Text) → List Text → Option Text
find_map f [] = none
find_map f (x ∷ xs) = or_else (f x) (find_map f xs)

unfoldable pub email_token : Text → Text
email_token s = unwrap_or [] (
    find (λ tok. any (λ c. c == 64) tok) (split_whitespace s) >>= λ tok.
    some (to_ascii_lowercase (trim_matches (λ c. not (is_graphic c)) tok)))

abbrev pub in_angles : Text → Text
in_angles rest =
    unwrap_or [] (split_once 62 rest >>= λ parts. some (to_ascii_lowercase (trim parts.0)))

unfoldable pub extract_email : Text → Text
extract_email s = elim (after_last_angle s) [ none ↦ email_token s | some rest ↦ in_angles rest ]

unfoldable pub normalize_trailer_ref_value : Text → Text → Text
normalize_trailer_ref_value ref_kind value =
    if text_eq ref_kind ref_kind_raw_lc
      || text_eq ref_kind ref_kind_email
      || text_eq ref_kind ref_kind_url_lc
      || text_eq ref_kind ref_kind_sha_prefix
    then to_ascii_lowercase (trim value)
    else if text_eq ref_kind ref_kind_syzbot_hash
    then to_ascii_lowercase (trim value)
    else if text_eq ref_kind ref_kind_lore_mid
    then trim (strip_angles value)
    else trim value

unfoldable pub is_hex_token : Text → Bool
is_hex_token s = leb 8 (length s) && leb (length s) 40 && all is_hexdigit s

abbrev pub when : Bool → Text → Option Text
when b t = if b then some t else none

abbrev pub first_piece : List Text → Option Text
first_piece [] = none
first_piece (p ∷ ps) = some p

unfoldable pub extract_syzbot_hash_from_email : Text → Option Text
extract_syzbot_hash_from_email email =
    first_piece (split (λ c. c == 64) (to_ascii_lowercase (trim email))) >>= λ local.
    strip_prefix (codes "syzbot+") local >>= λ hash. when (is_hex_token hash) hash

unfoldable pub take_while : (ℕ → Bool) → Text → Text
take_while p [] = []
take_while p (c ∷ s) = let rest = take_while p s in if p c then c ∷ rest else []

abbrev pub hash_after : Text → Text → Option Text
hash_after key url_lc = split_once_at key url_lc >>= λ parts.
    when (is_hex_token (take_while is_hexdigit parts.1)) (take_while is_hexdigit parts.1)

unfoldable pub extract_syzbot_hash_from_url : Text → Option Text
extract_syzbot_hash_from_url url =
    let url_lc = to_ascii_lowercase (trim url) in
    or_else (hash_after (codes "extid=") url_lc) (hash_after (codes "id=") url_lc)

abbrev pub hex_value : ℕ → ℕ
hex_value c =
    if within 48 57 c
    then c - 48
    else if within 97 102 c
    then c - 97 + 10
    else if within 65 70 c
    then c - 65 + 10
    else 0

-- `as_bytes`: the UTF-8 of a text
abbrev pub utf8 : ℕ → List ℕ
utf8 c =
    if ltb c 128
    then c ∷ []
    else if ltb c 2048
    then (192 + c / 64) ∷ (128 + c % 64) ∷ []
    else if ltb c 65536
    then (224 + c / 4096) ∷ (128 + c / 64 % 64) ∷ (128 + c % 64) ∷ []
    else (240 + c / 262144) ∷ (128 + c / 4096 % 64) ∷ (128 + c / 64 % 64) ∷ (128 + c % 64) ∷ []

unfoldable pub as_bytes : Text → List ℕ
as_bytes [] = []
as_bytes (c ∷ s) = utf8 c ++ as_bytes s

-- every byte that is not part of an escape becomes a character of its own
unfoldable pub decode_bytes : List ℕ → Text
decode_bytes [] = []
decode_bytes (b ∷ []) = b ∷ []
decode_bytes (b ∷ h ∷ []) = b ∷ h ∷ []
decode_bytes (b ∷ h ∷ l ∷ r) =
    let escaped = decode_bytes r in
    let plain = decode_bytes (h ∷ l ∷ r) in
    if b == 37 && is_hexdigit h && is_hexdigit l
    then (hex_value h * 16 + hex_value l) ∷ escaped
    else b ∷ plain

unfoldable pub percent_decode_ascii : Text → Text
percent_decode_ascii s = decode_bytes (as_bytes s)

-- the message id in one segment of a path
unfoldable pub mid_of_segment : Text → Option Text
mid_of_segment segment =
    let decoded = percent_decode_ascii segment in
    let mid = strip_angles (trim decoded) in
    when (not (length segment == 0) && any (λ c. c == 64) decoded && not (length mid == 0)) mid

unfoldable pub extract_lore_mid_from_url : Text → Option Text
extract_lore_mid_from_url url =
    split_once_at (codes "lore.kernel.org/") (to_ascii_lowercase url) >>= λ parts.
    find_map mid_of_segment
      (split (λ c. c == 47 || c == 63 || c == 35) (drop (length parts.0 + 16) url))

abbrev pub is_url_bracket : ℕ → Bool
is_url_bracket c = c == 60 || c == 62 || c == 40 || c == 41 || c == 44 || c == 59

abbrev pub urls_of : List Text → List Text
urls_of [] = []
urls_of (tok ∷ toks) =
    let rest = urls_of toks in
    let trimmed = trim_matches is_url_bracket tok in
    if starts_with (codes "http://") trimmed || starts_with (codes "https://") trimmed
    then trimmed ∷ rest
    else rest

unfoldable pub extract_urls : Text → List Text
extract_urls raw = urls_of (split_whitespace raw)

abbrev pub flush : Text → List Text → List Text
flush current out = if is_hex_token current then set_insert current out else out

-- the loop over the characters, with the token so far and the tokens found
unfoldable pub scan_hex : Text → Text → List Text → List Text
scan_hex [] current out = flush current out
scan_hex (c ∷ s) current out =
    scan_hex s (if is_hexdigit c then current ++ lower c ∷ [] else [])
      (if is_hexdigit c then out else flush current out)

unfoldable pub extract_sha_prefixes : Text → List Text
extract_sha_prefixes raw = scan_hex raw [] []

abbrev pub same_ref : TrailerRef → TrailerRef → Bool
same_ref a b = text_eq a.ref_kind b.ref_kind && text_eq a.ref_value b.ref_value

-- the derived order: the kind, then the value
abbrev pub ref_lt : TrailerRef → TrailerRef → Bool
ref_lt a b =
    text_lt a.ref_kind b.ref_kind
    || (text_eq a.ref_kind b.ref_kind && text_lt a.ref_value b.ref_value)

unfoldable pub ref_insert : TrailerRef → List TrailerRef → List TrailerRef
ref_insert r [] = r ∷ []
ref_insert r (x ∷ xs) =
    let rest = ref_insert r xs in
    if same_ref r x then x ∷ xs else if ref_lt r x then r ∷ x ∷ xs else x ∷ rest

unfoldable pub insert_refs : List TrailerRef → List TrailerRef → List TrailerRef
insert_refs [] out = out
insert_refs (r ∷ rs) out = insert_refs rs (ref_insert r out)

abbrev pub tagged : Text → Option Text → List TrailerRef
tagged kind none = []
tagged kind (some v) = record { ref_kind = kind; ref_value = v } ∷ []

unfoldable pub reporter_refs : Text → List TrailerRef
reporter_refs raw =
    let email = extract_email raw in
    if length email == 0
    then []
    else tagged ref_kind_email (some email)
      ++ tagged ref_kind_syzbot_hash (extract_syzbot_hash_from_email email)

unfoldable pub sha_refs : List Text → List TrailerRef
sha_refs [] = []
sha_refs (sha ∷ shas) = tagged ref_kind_sha_prefix (some sha) ++ sha_refs shas

unfoldable pub url_refs : List Text → List TrailerRef
url_refs [] = []
url_refs (url ∷ urls) =
    tagged ref_kind_url_lc (some (to_ascii_lowercase url))
    ++ tagged ref_kind_lore_mid (extract_lore_mid_from_url url)
    ++ tagged ref_kind_syzbot_hash (extract_syzbot_hash_from_url url)
    ++ url_refs urls

unfoldable pub extract_trailer_refs : Text → Text → List TrailerRef
extract_trailer_refs kind raw =
    let kind_lc = to_ascii_lowercase kind in
    let raw_trimmed = trim raw in
    if length raw_trimmed == 0
    then []
    else insert_refs
        (tagged ref_kind_raw_lc (some (to_ascii_lowercase raw_trimmed))
          ++ (if text_eq kind_lc (codes "reported_by") then reporter_refs raw_trimmed else [])
          ++ (if text_eq kind_lc (codes "fixes")
              then sha_refs (extract_sha_prefixes raw_trimmed)
              else [])
          ++ (if text_eq kind_lc (codes "link") || text_eq kind_lc (codes "closes")
              then url_refs (extract_urls raw_trimmed)
              else []))
        []
