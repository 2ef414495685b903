-- ===== src/Tests/TrailerRefs.antt =====
-- src/trailer_refs.rs on trailers of its tests.
use kernel_lore_mcp.Base.{◌≡◌, ◌≢◌, refl, some, [], ◌∷◌, All, IsIn}
use kernel_lore_mcp.Text.{Text, codes, trim, to_ascii_lowercase, split, strip_prefix}
use kernel_lore_mcp.Text.Sorted.{IsStrict, set_insert}
use kernel_lore_mcp.TrailerRefs.{
  ref_kind_raw_lc, normalize_trailer_ref_value, is_hex_token, scan_hex, extract_sha_prefixes,
  extract_syzbot_hash_from_email, extract_trailer_refs,
}
use kernel_lore_mcp.TrailerRefs.Tokens.{IsSha, extract_sha_prefixes-IsSha}
use kernel_lore_mcp.TrailerRefs.Keys.{IsNormal, extract_trailer_refs-IsNormal}
use kernel_lore_mcp.TrailerRefs.Raw.{extract_trailer_refs-finds_raw}

abbrev fixes : Text
fixes = codes "ABCDEF123456 (\"ksmbd: fix\")"

sha_found : extract_sha_prefixes fixes ≡ codes "abcdef123456" ∷ []
unfolding extract_sha_prefixes scan_hex is_hex_token set_insert
sha_found = refl

syzbot_found :
    extract_syzbot_hash_from_email (codes "syzbot+00112233445566778899@syzkaller.appspotmail.com")
    ≡ some (codes "00112233445566778899")
unfolding extract_syzbot_hash_from_email is_hex_token trim to_ascii_lowercase split strip_prefix
syzbot_found = refl

extract_sha_prefixes-IsSha_example :
    All IsSha (extract_sha_prefixes fixes) × IsStrict (extract_sha_prefixes fixes)
extract_sha_prefixes-IsSha_example = extract_sha_prefixes-IsSha fixes

extract_trailer_refs-IsNormal_example : All IsNormal (extract_trailer_refs (codes "Fixes") fixes)
extract_trailer_refs-IsNormal_example = extract_trailer_refs-IsNormal (codes "Fixes") fixes

not_blank : trim fixes ≢ []
unfolding trim
not_blank e = absurd (cc)

extract_trailer_refs-finds_raw_example :
    IsIn
      (record {
        ref_kind = ref_kind_raw_lc;
        ref_value = normalize_trailer_ref_value ref_kind_raw_lc fixes;
      })
      (extract_trailer_refs (codes "Fixes") fixes)
extract_trailer_refs-finds_raw_example =
    extract_trailer_refs-finds_raw (codes "Fixes") fixes not_blank
