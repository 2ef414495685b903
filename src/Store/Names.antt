-- ===== src/Store/Names.antt =====
-- The names of the segment files: `segment_path` and `parse_segment_id` of src/store.rs.
use mathlib.Core.List.{reverse, reverse-append, reverse-reverse}
use kernel_lore_mcp.Base.{
  ℕ, zero, suc, ◌-◌, ◌<◌, ◌≡◌, ◌≢◌, refl, ◌∙◌, [], ◌∷◌, ◌++◌, length, arith, Option, some, All,
  ◌>>=◌, true,
}
use kernel_lore_mcp.Text.{Text, codes, is_digit, strip_prefix, strip_prefix-append, strip_suffix}
use kernel_lore_mcp.Text.Decimal.{
  to_string, to_string-ne-nil, to_string-digits, parse_digits, parse_unsigned,
  parse_unsigned_digits, parse_digits-to_string, parse_digits-zero, u32_bound,
}

-- that many zeros in front; `{id:06}` pads to six digits
unfoldable pub pad : ℕ → Text → Text
pad zero s = s
pad (suc n) s = b'0' ∷ pad n s

unfoldable pub segment_name : ℕ → Text
segment_name id =
    codes "segment-" ++ (pad (6 - length (to_string id)) (to_string id) ++ codes ".zst")

unfoldable pub parse_segment_id : Text → Option ℕ
parse_segment_id name = do
  rest ← strip_prefix (codes "segment-") name
  num ← strip_suffix (codes ".zst") rest
  parse_unsigned u32_bound num

strip_suffix-append : (p s : Text) → strip_suffix p (s ++ p) ≡ some s
unfolding strip_suffix
strip_suffix-append p s =
    rw (reverse-append s p, strip_prefix-append (reverse p) (reverse s), reverse-reverse s)

pad-digits :
    (n : ℕ) (s : Text) → All (λ c. is_digit c ≡ true) s → All (λ c. is_digit c ≡ true) (pad n s)
unfolding pad
pad-digits zero s h = h
pad-digits (suc n) s h = (refl, pad-digits n s h)

pad-ne-nil : (n : ℕ) (s : Text) → s ≢ [] → pad n s ≢ []
unfolding pad
pad-ne-nil zero s h = h
pad-ne-nil (suc n) s h = λ e. cc

parse_digits-pad :
    (bound n : ℕ) (s : Text) → 0 < bound → parse_digits bound 0 (pad n s) ≡ parse_digits bound 0 s
unfolding pad
parse_digits-pad bound zero s h = refl
parse_digits-pad bound (suc n) s h =
    parse_digits-zero bound (pad n s) h ∙ parse_digits-pad bound n s h

-- Every segment file is read back as the segment that it was named for.
pub parse_segment_id-segment_name :
    (id : ℕ) → id < u32_bound → parse_segment_id (segment_name id) ≡ some id
unfolding parse_segment_id segment_name
parse_segment_id-segment_name id h =
    let n = 6 - length (to_string id) in
    let digits = pad-digits n (to_string id) (to_string-digits id) in
    rw (
      strip_prefix-append (codes "segment-") (pad n (to_string id) ++ codes ".zst"),
      strip_suffix-append (codes ".zst") (pad n (to_string id)),
      parse_unsigned_digits u32_bound (pad n (to_string id))
          (pad-ne-nil n (to_string id) (to_string-ne-nil id)) digits,
      parse_digits-pad u32_bound n (to_string id) (omega arith),
      parse_digits-to_string u32_bound id h,
    )
