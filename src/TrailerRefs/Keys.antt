-- ===== src/TrailerRefs/Keys.antt =====
-- The keys of a trailer are stored in the form that `normalize_trailer_ref_value` gives a lookup.
use kernel_lore_mcp.Base.{
  ◌≡◌, refl, ◌⊎◌, inl, inr, Bool, true, false, not, ◌||◌, List, [], ◌∷◌, ◌++◌, All, All-append,
  if◌then◌else◌, Bool-cases, Option-cases, length, any, Option, none, some, ◌==◌, subst,
}
use mathlib.Core.Option.{some-injective}
use kernel_lore_mcp.Text.{
  Text, codes, is_whitespace, is_graphic, to_ascii_lowercase, trim, trim_matches, split_whitespace,
  split_once, starts_with, text_eq,
}
use kernel_lore_mcp.Text.Clean.{IsClean}
use kernel_lore_mcp.Text.Parts.{All-trim_matches, split_whitespace-All}
use kernel_lore_mcp.TrailerRefs.Defs.{
  TrailerRef, ref_kind_raw_lc, ref_kind_email, ref_kind_sha_prefix, ref_kind_syzbot_hash,
  ref_kind_lore_mid, ref_kind_url_lc, after_last_angle, find, email_token, in_angles, extract_email,
  normalize_trailer_ref_value, extract_syzbot_hash_from_email, extract_syzbot_hash_from_url,
  extract_lore_mid_from_url, is_url_bracket, urls_of, extract_urls, extract_sha_prefixes, same_ref,
  ref_lt, ref_insert, insert_refs, tagged, reporter_refs, sha_refs, url_refs, extract_trailer_refs,
}
use kernel_lore_mcp.TrailerRefs.Hashes.{of_email-IsHash, of_url-IsHash}
use kernel_lore_mcp.TrailerRefs.Tokens.{
  IsKey, IsKey-lower_trim, IsKey-lower_clean, IsHash-IsKey, IsSha, extract_sha_prefixes-IsSha,
}

-- A lookup of the value finds it: normalization leaves the value as it is.
abbrev pub IsNormal : TrailerRef → Type 0
IsNormal r =
    (r.ref_kind ≡ ref_kind_lore_mid)
    ⊎ (normalize_trailer_ref_value r.ref_kind r.ref_value ≡ r.ref_value)

-- The kinds that are lowered and trimmed.
key-IsNormal :
    (v : Text)
    → IsKey v
    → IsNormal (record { ref_kind = ref_kind_raw_lc; ref_value = v })
      × IsNormal (record { ref_kind = ref_kind_email; ref_value = v })
      × IsNormal (record { ref_kind = ref_kind_sha_prefix; ref_value = v })
      × IsNormal (record { ref_kind = ref_kind_syzbot_hash; ref_value = v })
      × IsNormal (record { ref_kind = ref_kind_url_lc; ref_value = v })
unfolding normalize_trailer_ref_value text_eq
key-IsNormal v k = (inr k, inr k, inr k, inr k, inr k)

tagged-IsNormal :
    (kind : Text) (o : Option Text)
    → ((v : Text) → o ≡ some v → IsNormal (record { ref_kind = kind; ref_value = v }))
    → All IsNormal (tagged kind o)
tagged-IsNormal kind none h = tt
tagged-IsNormal kind (some v) h = (h v refl, tt)

find-All :
    (P : Text → Type 0) (p : Text → Bool) (ws : List Text) (w : Text)
    → All P ws
    → find p ws ≡ some w
    → P w
find-All P p [] w a h = absurd (cc)
find-All P p (x ∷ ws) w a h = elim (Bool-cases (p x)) [
  | inl e ↦ subst P (some-injective x w (rw e at h)) a.0
  | inr e ↦ find-All P p ws w a.1 (rw e at h)
]

no_text-IsKey : IsKey []
unfolding to_ascii_lowercase trim
no_text-IsKey = IsKey-lower_trim []

email_token-IsKey : (s : Text) → IsKey (email_token s)
unfolding email_token
email_token-IsKey s =
    elim (Option-cases (find (λ tok. any (λ c. c == 64) tok) (split_whitespace s))) [
      | inl e ↦ rw e no_text-IsKey
      | inr (tok, e) ↦
          let clean : IsClean tok =
            find-All (All (λ c. is_whitespace c ≡ false)) (λ t. any (λ c. c == 64) t)
              (split_whitespace s) tok (split_whitespace-All s) e in
          rw e (
            IsKey-lower_clean (trim_matches (λ c. not (is_graphic c)) tok)
              (All-trim_matches (λ c. is_whitespace c ≡ false) (λ c. not (is_graphic c)) tok clean))
    ]

in_angles-IsKey : (rest : Text) → IsKey (in_angles rest)
in_angles-IsKey rest = elim (Option-cases (split_once 62 rest)) [
  | inl e ↦ rw e no_text-IsKey
  | inr (parts, e) ↦ rw e (IsKey-lower_trim parts.0)
]

extract_email-IsKey : (s : Text) → IsKey (extract_email s)
unfolding extract_email
extract_email-IsKey s = elim (Option-cases (after_last_angle s)) [
  | inl e ↦ rw (e, extract_email) (email_token-IsKey s)
  | inr (rest, e) ↦ rw (e, extract_email) (in_angles-IsKey rest)
]

urls_of-IsClean : (ws : List Text) → All IsClean ws → All IsClean (urls_of ws)
urls_of-IsClean [] a = tt
urls_of-IsClean (w ∷ ws) a =
    let trimmed = trim_matches is_url_bracket w in
    let later = urls_of-IsClean ws a.1 in
    elim (Bool-cases
      (starts_with (codes "http://") trimmed || starts_with (codes "https://") trimmed)) [
        | inl e ↦ rw e (All-trim_matches (λ c. is_whitespace c ≡ false) is_url_bracket w a.0, later)
        | inr e ↦ rw e later
      ]

url_refs-IsNormal : (urls : List Text) → All IsClean urls → All IsNormal (url_refs urls)
unfolding url_refs
url_refs-IsNormal [] a = tt
url_refs-IsNormal (url ∷ urls) a =
    let (_, _, _, _, lc) = key-IsNormal (to_ascii_lowercase url) (IsKey-lower_clean url a.0) in
    let mids =
      tagged-IsNormal ref_kind_lore_mid (extract_lore_mid_from_url url) (λ v e. inl refl) in
    let hashes =
      tagged-IsNormal ref_kind_syzbot_hash (extract_syzbot_hash_from_url url) (λ v e.
        let (_, _, _, h, _) = key-IsNormal v (IsHash-IsKey v (of_url-IsHash url v e)) in h) in
    let first = tagged ref_kind_url_lc (some (to_ascii_lowercase url)) in
    All-append IsNormal
      (first
        ++ tagged ref_kind_lore_mid (extract_lore_mid_from_url url)
        ++ tagged ref_kind_syzbot_hash (extract_syzbot_hash_from_url url))
      (url_refs urls)
      (All-append IsNormal (first ++ tagged ref_kind_lore_mid (extract_lore_mid_from_url url))
        (tagged ref_kind_syzbot_hash (extract_syzbot_hash_from_url url))
        (All-append IsNormal first (tagged ref_kind_lore_mid (extract_lore_mid_from_url url))
          (lc, tt) mids)
        hashes)
      (url_refs-IsNormal urls a.1)

sha_refs-IsNormal : (shas : List Text) → All IsSha shas → All IsNormal (sha_refs shas)
unfolding sha_refs
sha_refs-IsNormal [] a = tt
sha_refs-IsNormal (s ∷ shas) a =
    let (h, _, _) = a.0 in
    let (_, _, n, _, _) = key-IsNormal s (IsHash-IsKey s h) in (n, sha_refs-IsNormal shas a.1)

reporter_refs-IsNormal : (raw : Text) → All IsNormal (reporter_refs raw)
unfolding reporter_refs
reporter_refs-IsNormal raw =
    let email = extract_email raw in
    elim (Bool-cases (length email == 0)) [
      | inl e ↦ rw e tt
      | inr e ↦
          let (_, n, _, _, _) = key-IsNormal email (extract_email-IsKey raw) in
          rw e (
            n,
            tagged-IsNormal ref_kind_syzbot_hash (extract_syzbot_hash_from_email email) (λ v q.
                let (_, _, _, h, _) = key-IsNormal v (IsHash-IsKey v (of_email-IsHash email v q)) in
                h),
          )
    ]

ref_insert-All :
    (P : TrailerRef → Type 0) (r : TrailerRef) (xs : List TrailerRef)
    → P r
    → All P xs
    → All P (ref_insert r xs)
unfolding ref_insert
ref_insert-All P r [] p a = (p, tt)
ref_insert-All P r (x ∷ xs) p a =
    let later = ref_insert-All P r xs p a.1 in
    elim (Bool-cases (same_ref r x)) [
      | inl e ↦ rw e a
      | inr e ↦ elim (Bool-cases (ref_lt r x)) [
        | inl f ↦ rw (e, f) (p, a)
        | inr f ↦ rw (e, f) (a.0, later)
      ]
    ]

insert_refs-All :
    (P : TrailerRef → Type 0) (rs out : List TrailerRef)
    → All P rs
    → All P out
    → All P (insert_refs rs out)
unfolding insert_refs
insert_refs-All P [] out a b = b
insert_refs-All P (r ∷ rs) out a b =
    insert_refs-All P rs (ref_insert r out) a.1 (ref_insert-All P r out a.0 b)

if-All : (b : Bool) (rs : List TrailerRef) → All IsNormal rs → All IsNormal (if b then rs else [])
if-All true rs a = a
if-All false rs a = tt

extract_urls-IsClean : (raw : Text) → All IsClean (extract_urls raw)
unfolding extract_urls
extract_urls-IsClean raw = urls_of-IsClean (split_whitespace raw) (split_whitespace-All raw)

-- Every key of a trailer that is not a message id is in normal form: normalizing it for a lookup
-- gives the same key.
pub extract_trailer_refs-IsNormal : (kind raw : Text) → All IsNormal (extract_trailer_refs kind raw)
unfolding extract_trailer_refs
extract_trailer_refs-IsNormal kind raw =
    let t = trim raw in
    let lc = to_ascii_lowercase kind in
    let raw_ref = tagged ref_kind_raw_lc (some (to_ascii_lowercase t)) in
    let reporter = if text_eq lc (codes "reported_by") then reporter_refs t else [] in
    let shas = if text_eq lc (codes "fixes") then sha_refs (extract_sha_prefixes t) else [] in
    let is_link = text_eq lc (codes "link") || text_eq lc (codes "closes") in
    let urls = if is_link then url_refs (extract_urls t) else [] in
    let (k, _, _, _, _) = key-IsNormal (to_ascii_lowercase t) (IsKey-lower_trim raw) in
    let r =
      if-All (text_eq lc (codes "reported_by")) (reporter_refs t) (reporter_refs-IsNormal t) in
    let h =
      if-All (text_eq lc (codes "fixes")) (sha_refs (extract_sha_prefixes t))
        (sha_refs-IsNormal (extract_sha_prefixes t) ((extract_sha_prefixes-IsSha t).0)) in
    let u =
      if-All is_link (url_refs (extract_urls t))
        (url_refs-IsNormal (extract_urls t) (extract_urls-IsClean t)) in
    elim (Bool-cases (length t == 0)) [
      | inl e ↦ rw e tt
      | inr e ↦ rw e (
          insert_refs-All IsNormal (raw_ref ++ reporter ++ shas ++ urls) []
            (All-append IsNormal (raw_ref ++ reporter ++ shas) urls
              (All-append IsNormal (raw_ref ++ reporter) shas
                (All-append IsNormal raw_ref reporter (k, tt) r) h)
              u)
            tt)
    ]
