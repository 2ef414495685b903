-- ===== src/Reader/Matches.antt =====
-- The tests that the scans make of a row, and the names of the fields.
use kernel_lore_mcp.Base.{
  ◌==◌, Bool, false, ◌&&◌, List, [], ◌∷◌, any, all, leb, length, if◌then◌else◌, Option, none, some,
}
use kernel_lore_mcp.Text.{
  Text, codes, text_eq, contains, to_ascii_lowercase, is_hexdigit, is_digit, strip_prefix, split,
}
use kernel_lore_mcp.Reader.Rows.{
  MessageRow, EqField, field_message_id, field_list, field_from_addr, field_in_reply_to, field_tid,
  field_commit_oid, field_body_sha256, field_subject_normalized, field_touched_file,
  field_touched_function, field_reference, field_subject_tag, field_signed_off_by,
  field_reviewed_by, field_acked_by, field_tested_by, field_co_developed_by, field_reported_by,
  field_suggested_by, field_helped_by, field_assisted_by, field_fixes, field_link, field_closes,
  field_cc_stable,
}

abbrev pub is_one_of : Text → List Text → Bool
is_one_of name names = any (λ n. text_eq name n) names

-- the arms in their order
abbrev pub pick : Text → List (List Text × EqField) → Option EqField
pick name [] = none
pick name ((names, field) ∷ arms) = if is_one_of name names then some field else pick name arms

unfoldable pub from_name : Text → Option EqField
from_name name = pick name (
    (codes "message_id" ∷ [], field_message_id)
    ∷ (codes "list" ∷ [], field_list)
    ∷ (codes "from_addr" ∷ [], field_from_addr)
    ∷ (codes "in_reply_to" ∷ [], field_in_reply_to)
    ∷ (codes "tid" ∷ [], field_tid)
    ∷ (codes "commit_oid" ∷ [], field_commit_oid)
    ∷ (codes "body_sha256" ∷ [], field_body_sha256)
    ∷ (codes "subject_normalized" ∷ [], field_subject_normalized)
    ∷ (codes "touched_files" ∷ codes "touched_file" ∷ [], field_touched_file)
    ∷ (codes "touched_functions" ∷ codes "touched_function" ∷ [], field_touched_function)
    ∷ (codes "references" ∷ codes "reference" ∷ [], field_reference)
    ∷ (codes "subject_tags" ∷ codes "subject_tag" ∷ codes "tag" ∷ [], field_subject_tag)
    ∷ (codes "signed_off_by" ∷ [], field_signed_off_by)
    ∷ (codes "reviewed_by" ∷ [], field_reviewed_by)
    ∷ (codes "acked_by" ∷ [], field_acked_by)
    ∷ (codes "tested_by" ∷ [], field_tested_by)
    ∷ (codes "co_developed_by" ∷ [], field_co_developed_by)
    ∷ (codes "reported_by" ∷ [], field_reported_by)
    ∷ (codes "suggested_by" ∷ [], field_suggested_by)
    ∷ (codes "helped_by" ∷ [], field_helped_by)
    ∷ (codes "assisted_by" ∷ codes "co_authored_by" ∷ [], field_assisted_by)
    ∷ (codes "fixes" ∷ [], field_fixes)
    ∷ (codes "link" ∷ [], field_link)
    ∷ (codes "closes" ∷ [], field_closes)
    ∷ (codes "cc_stable" ∷ [], field_cc_stable)
    ∷ [])

abbrev pub is_value : Text → Option Text → Bool
is_value value none = false
is_value value (some x) = text_eq x value

abbrev pub any_is : Text → List Text → Bool
any_is value xs = any (λ x. text_eq x value) xs

abbrev pub any_contains : Text → List Text → Bool
any_contains value xs = any (λ x. contains value x) xs

unfoldable pub eq_field_matches : EqField → MessageRow → Text → Bool
eq_field_matches field_message_id r value = text_eq r.message_id value
eq_field_matches field_list r value = text_eq r.list value
eq_field_matches field_from_addr r value = is_value value r.from_addr
eq_field_matches field_in_reply_to r value = is_value value r.in_reply_to
eq_field_matches field_tid r value = is_value value r.tid
eq_field_matches field_commit_oid r value = text_eq r.commit_oid value
eq_field_matches field_body_sha256 r value = text_eq r.body_sha256 value
eq_field_matches field_subject_normalized r value = is_value value r.subject_normalized
eq_field_matches field_touched_file r value = any_is value r.touched_files
eq_field_matches field_touched_function r value = any_is value r.touched_functions
eq_field_matches field_reference r value = any_is value r.references
eq_field_matches field_subject_tag r value = any_is value r.subject_tags
eq_field_matches field_signed_off_by r value = any_contains value r.signed_off_by
eq_field_matches field_reviewed_by r value = any_contains value r.reviewed_by
eq_field_matches field_acked_by r value = any_contains value r.acked_by
eq_field_matches field_tested_by r value = any_contains value r.tested_by
eq_field_matches field_co_developed_by r value = any_contains value r.co_developed_by
eq_field_matches field_reported_by r value = any_contains value r.reported_by
eq_field_matches field_suggested_by r value = any_contains value r.suggested_by
eq_field_matches field_helped_by r value = any_contains value r.helped_by
eq_field_matches field_assisted_by r value = any_contains value r.assisted_by
eq_field_matches field_fixes r value = any_contains value r.fixes
eq_field_matches field_link r value = any_contains value r.link
eq_field_matches field_closes r value = any_contains value r.closes
eq_field_matches field_cc_stable r value = any_contains value r.cc_stable

unfoldable pub any_trailer_contains_email : MessageRow → Text → Bool
any_trailer_contains_email row addr_lc =
    any (λ l. any (λ t. contains addr_lc (to_ascii_lowercase t)) l)
      (row.signed_off_by ∷ row.reviewed_by ∷ row.acked_by ∷ row.tested_by ∷ row.co_developed_by
        ∷ row.reported_by ∷ row.suggested_by ∷ row.helped_by ∷ row.assisted_by ∷ [])

unfoldable pub is_sha_prefix : Text → Bool
is_sha_prefix s = leb 7 (length s) && leb (length s) 40 && all is_hexdigit s

abbrev pub is_year_and_number : List Text → Bool
is_year_and_number (y ∷ n ∷ []) =
    length y == 4 && all is_digit y && leb 4 (length n) && all is_digit n
is_year_and_number _ = false

abbrev pub is_cve_tail : Option Text → Bool
is_cve_tail none = false
is_cve_tail (some tail) = is_year_and_number (split (λ c. c == 45) tail)

unfoldable pub is_cve_id : Text → Bool
is_cve_id s = is_cve_tail (strip_prefix (codes "CVE-") s)
