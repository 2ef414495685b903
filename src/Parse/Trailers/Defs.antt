-- ===== src/Parse/Trailers/Defs.antt =====
-- Which lines are trailers, and the lists that they fill.
use kernel_lore_mcp.Base.{
  ℕ, Bool, false, not, ◌&&◌, ◌||◌, List, [], ◌∷◌, ◌++◌, if◌then◌else◌, leb, ◌==◌, length, all,
  retain, Option, none, some, unwrap_or,
}
use mathlib.Core.List.{reverse}
use kernel_lore_mcp.Text.{
  Text, codes, is_alphabetic, is_alphanumeric, to_ascii_lowercase, trim, trim_end, starts_with,
  split_once, contains, lines, text_eq,
}
use kernel_lore_mcp.Text.Distinct.{push_new}
use kernel_lore_mcp.Dict.{Dict, lookup, insert}

abbrev pub is_name_char : ℕ → Bool
is_name_char c = is_alphanumeric c || c == 45 || c == 95

abbrev pub is_name : Text → Bool
is_name [] = false
is_name (c ∷ s) = is_alphabetic c && all is_name_char s

-- the length is in bytes in the source, and of a name that passes the test there is no other
abbrev pub is_trailer : Option (Text × Text) → Bool
is_trailer none = false
is_trailer (some (head, rest)) =
    starts_with (codes " ") rest && leb (length (trim head)) 64 && is_name (trim head)

unfoldable pub is_trailer_line : Text → Bool
is_trailer_line line = is_trailer (split_once 58 line)

-- the loop from the last line up, with the lines collected so far, the last one first
unfoldable pub trailing : List Text → List Text → List Text
trailing [] acc = acc
trailing (raw ∷ rest) acc =
    let line = trim_end raw in
    let go_on = trailing rest (if length line == 0 then acc else acc ++ line ∷ []) in
    let stops = if length line == 0 then not (length acc == 0) else not (is_trailer_line line) in
    if stops then acc else go_on

unfoldable pub push_all : List Text → List Text → List Text
push_all [] out = out
push_all (l ∷ ls) out = push_all ls (push_new l out)

unfoldable pub trailer_lines : Text → List Text
trailer_lines prose =
    push_all (retain (λ l. is_trailer_line (trim_end l)) (lines prose))
      (reverse (trailing (reverse (lines prose)) []))

pub record Trailers : Type 0 where
  pub trailers : Dict (List Text)
  pub signed_off_by : List Text
  pub reviewed_by : List Text
  pub acked_by : List Text
  pub tested_by : List Text
  pub co_developed_by : List Text
  pub reported_by : List Text
  pub suggested_by : List Text
  pub helped_by : List Text
  pub assisted_by : List Text
  pub fixes : List Text
  pub link : List Text
  pub closes : List Text
  pub cc_stable : List Text

abbrev pub no_trailers : Trailers
no_trailers = record {
  trailers = [];
  signed_off_by = [];
  reviewed_by = [];
  acked_by = [];
  tested_by = [];
  co_developed_by = [];
  reported_by = [];
  suggested_by = [];
  helped_by = [];
  assisted_by = [];
  fixes = [];
  link = [];
  closes = [];
  cc_stable = [];
}

-- the list of the map's entry, to which the value is pushed
abbrev pub push_entry : Text → Text → Dict (List Text) → Dict (List Text)
push_entry name value m = insert name (unwrap_or [] (lookup name m) ++ value ∷ []) m

-- the named lists
unfoldable pub push_named : Text → Text → Trailers → Trailers
push_named name v t =
    if text_eq name (codes "signed-off-by")
    then record t { signed_off_by = t.signed_off_by ++ v ∷ [] }
    else if text_eq name (codes "reviewed-by")
    then record t { reviewed_by = t.reviewed_by ++ v ∷ [] }
    else if text_eq name (codes "acked-by")
    then record t { acked_by = t.acked_by ++ v ∷ [] }
    else if text_eq name (codes "tested-by")
    then record t { tested_by = t.tested_by ++ v ∷ [] }
    else if text_eq name (codes "co-developed-by")
    then record t { co_developed_by = t.co_developed_by ++ v ∷ [] }
    else if text_eq name (codes "reported-by")
    then record t { reported_by = t.reported_by ++ v ∷ [] }
    else if text_eq name (codes "suggested-by")
    then record t { suggested_by = t.suggested_by ++ v ∷ [] }
    else if text_eq name (codes "helped-by")
    then record t { helped_by = t.helped_by ++ v ∷ [] }
    else if text_eq name (codes "assisted-by") || text_eq name (codes "co-authored-by")
    then record t { assisted_by = t.assisted_by ++ v ∷ [] }
    else if text_eq name (codes "fixes")
    then record t { fixes = t.fixes ++ v ∷ [] }
    else if text_eq name (codes "link")
    then record t { link = t.link ++ v ∷ [] }
    else if text_eq name (codes "closes")
    then record t { closes = t.closes ++ v ∷ [] }
    else if text_eq name (codes "cc")
    then (if contains (codes "stable@") (to_ascii_lowercase v)
        then record t { cc_stable = t.cc_stable ++ v ∷ [] }
        else t)
    else t

-- one line of the last loop
abbrev pub add_parts : Option (Text × Text) → Trailers → Trailers
add_parts none t = t
add_parts (some (name, value)) t =
    let name_norm = to_ascii_lowercase (trim name) in
    push_named name_norm (trim value)
      (record t { trailers = push_entry name_norm (trim value) t.trailers })

unfoldable pub add_lines : List Text → Trailers → Trailers
unfolding push_named
add_lines [] t = t
add_lines (line ∷ rest) t = add_lines rest (add_parts (split_once 58 line) t)

unfoldable pub extract_trailers : Text → Trailers
extract_trailers prose = add_lines (trailer_lines prose) no_trailers
