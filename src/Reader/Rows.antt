-- ===== src/Reader/Rows.antt =====
-- `MessageRow` and the fields that an equality query names. An `i64` stands as the number that is
-- 2 ^ 63 larger.
use kernel_lore_mcp.Base.{ℕ, Bool, List, Option}
use kernel_lore_mcp.Text.{Text}

pub record MessageRow : Type 0 where
  pub message_id : Text
  pub list : Text
  pub shard : Text
  pub commit_oid : Text
  pub from_addr : Option Text
  pub from_name : Option Text
  pub subject_raw : Option Text
  pub subject_normalized : Option Text
  pub subject_tags : List Text
  pub date_unix_ns : Option ℕ
  pub in_reply_to : Option Text
  pub references : List Text
  pub tid : Option Text
  pub series_version : ℕ
  pub series_index : Option ℕ
  pub series_total : Option ℕ
  pub is_cover_letter : Bool
  pub has_patch : Bool
  pub touched_files : List Text
  pub touched_functions : List Text
  pub files_changed : Option ℕ
  pub insertions : Option ℕ
  pub deletions : Option ℕ
  pub signed_off_by : List Text
  pub reviewed_by : List Text
  pub acked_by : List Text
  pub tested_by : List Text
  pub co_developed_by : List Text
  pub reported_by : List Text
  pub fixes : List Text
  pub link : List Text
  pub closes : List Text
  pub cc_stable : List Text
  pub suggested_by : List Text
  pub helped_by : List Text
  pub assisted_by : List Text
  pub trailers_json : Option Text
  pub body_segment_id : ℕ
  pub body_offset : ℕ
  pub body_length : ℕ
  pub body_sha256 : Text
  pub schema_version : ℕ

pub data EqField : Type 0 where
  field_message_id field_list field_from_addr field_in_reply_to field_tid field_commit_oid : EqField
  field_body_sha256 field_subject_normalized field_touched_file field_touched_function : EqField
  field_reference field_subject_tag field_signed_off_by field_reviewed_by field_acked_by : EqField
  field_tested_by field_co_developed_by field_reported_by field_suggested_by : EqField
  field_helped_by field_assisted_by field_fixes field_link field_closes field_cc_stable : EqField
