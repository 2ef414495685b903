-- ===== src/Ingest/Rows.antt =====
-- The rows that a message becomes: src/metadata.rs `MetadataRow`, src/over.rs `OverRow`, and
-- `build_over_row`. Where the source casts to `i64`, the number is that of the same 64 bits.
use kernel_lore_mcp.Base.{
  ℕ, ◌/◌, ◌%◌, ◌+◌, ltb, if◌then◌else◌, Bool, List, [], ◌∷◌, length, ◌==◌, Option, none, some,
  ◌>>=◌,
}
use kernel_lore_mcp.Text.{Text, to_ascii_lowercase}
use kernel_lore_mcp.Dict.{Dict}
use kernel_lore_mcp.Store.{Bytes, StoreOffset}
use kernel_lore_mcp.Parse.Message.{ParsedMessage}

pub record MetadataRow : Type 0 where
  pub list : Text
  pub shard : Text
  pub commit_oid : Text
  pub offset : StoreOffset
  pub body_sha256_hex : Text
  pub body_length : ℕ
  pub parsed : ParsedMessage

pub record DddPayload : Type 0 where
  pub subject_raw : Option Text
  pub subject_normalized : Option Text
  pub subject_tags : List Text
  pub references : List Text
  pub touched_files : List Text
  pub touched_functions : List Text
  pub signed_off_by : List Text
  pub reviewed_by : List Text
  pub acked_by : List Text
  pub tested_by : List Text
  pub co_developed_by : List Text
  pub reported_by : List Text
  pub suggested_by : List Text
  pub helped_by : List Text
  pub assisted_by : List Text
  pub to_addrs : List Text
  pub cc_addrs : List Text
  pub fixes : List Text
  pub link : List Text
  pub closes : List Text
  pub cc_stable : List Text
  pub trailers_json : Option Text
  pub from_name : Option Text
  pub from_addr_original_case : Option Text
  pub shard : Option Text

pub record OverRow : Type 0 where
  pub message_id : Text
  pub list : Text
  pub from_addr : Option Text
  pub date_unix_ns : Option ℕ
  pub in_reply_to : Option Text
  pub tid : Option Text
  pub body_segment_id : ℕ
  pub body_offset : ℕ
  pub body_length : ℕ
  pub body_sha256 : Text
  pub has_patch : Bool
  pub is_cover_letter : Bool
  pub series_version : Option ℕ
  pub series_index : Option ℕ
  pub series_total : Option ℕ
  pub files_changed : Option ℕ
  pub insertions : Option ℕ
  pub deletions : Option ℕ
  pub commit_oid : Option Text
  pub ddd : DddPayload

abbrev pub hex_digit : ℕ → ℕ
hex_digit n = if ltb n 10 then 48 + n else 87 + n

unfoldable pub hex : Bytes → Text
hex [] = []
hex (b ∷ bytes) = hex_digit (b / 16) ∷ hex_digit (b % 16) ∷ hex bytes

-- the trailers, as serde_json writes them
abbrev pub trailers_json_of : (Dict (List Text) → Option Text) → Dict (List Text) → Option Text
trailers_json_of to_json trailers = if length trailers == 0 then none else to_json trailers

unfoldable pub build_over_row :
    (Dict (List Text) → Option Text)
    → Text
    → Text
    → ParsedMessage
    → StoreOffset
    → ℕ
    → Text
    → Text
    → Text
    → OverRow
build_over_row to_json message_id list parsed ptr body_length body_sha256_hex shard commit_oid =
    let t = parsed.trailers in
    record {
      message_id = message_id;
      list = list;
      from_addr = parsed.from_addr >>= λ a. some (to_ascii_lowercase a);
      date_unix_ns = parsed.date_unix_ns;
      in_reply_to = parsed.in_reply_to;
      tid = none;
      body_segment_id = ptr.segment_id;
      body_offset = ptr.offset;
      body_length = body_length;
      body_sha256 = body_sha256_hex;
      has_patch = parsed.has_patch;
      is_cover_letter = parsed.is_cover_letter;
      series_version = some parsed.series_version;
      series_index = parsed.series_index;
      series_total = parsed.series_total;
      files_changed = parsed.files_changed;
      insertions = parsed.insertions;
      deletions = parsed.deletions;
      commit_oid = some commit_oid;
      ddd = record {
        subject_raw = parsed.subject_raw;
        subject_normalized = parsed.subject_normalized;
        subject_tags = parsed.subject_tags;
        references = parsed.references;
        touched_files = parsed.touched_files;
        touched_functions = parsed.touched_functions;
        signed_off_by = t.signed_off_by;
        reviewed_by = t.reviewed_by;
        acked_by = t.acked_by;
        tested_by = t.tested_by;
        co_developed_by = t.co_developed_by;
        reported_by = t.reported_by;
        suggested_by = t.suggested_by;
        helped_by = t.helped_by;
        assisted_by = t.assisted_by;
        to_addrs = parsed.to_addrs;
        cc_addrs = parsed.cc_addrs;
        fixes = t.fixes;
        link = t.link;
        closes = t.closes;
        cc_stable = t.cc_stable;
        trailers_json = trailers_json_of to_json t.trailers;
        from_name = parsed.from_name;
        from_addr_original_case = parsed.from_addr;
        shard = some shard;
      };
    }
