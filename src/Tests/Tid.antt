-- ===== src/Tests/Tid.antt =====
-- src/tid.rs on a cover letter, its patch, and an earlier message with the cover letter's subject.
use kernel_lore_mcp.Base.{
  subst, ℕ, ◌<◌, ◌≤◌, ◌≡◌, ◌≢◌, refl, sym, ◌∙◌, inl, inr, Bool, true, false, List, [], ◌∷◌,
  if◌then◌else◌, arith, Option, none, some, ◌↔◌, IsIn, unwrap_or, sort_by,
}
use mathlib.Core.Option.{some-injective}
use kernel_lore_mcp.Text.{Text, codes, text_eq, text_eq-cases, text_eq_iff}
use kernel_lore_mcp.Text.Sorted.{to_set, set_insert}
use kernel_lore_mcp.Tid.{
  LiteRow, by_mid, has_mid, up, next_up, climb, bucket, first_in_window, by_subject, resolve_tid,
  same_bucket, in_window, tid_row, tid_of_mid, collect, propagated,
}
use kernel_lore_mcp.Tid.Agree.{Root, top, above, IsAcyclic, resolve_tid-Root}
use kernel_lore_mcp.Tid.Fallback.{by_subject-earliest}
use kernel_lore_mcp.Tid.Propagate.{Carries, tid_row-propagated_files}

abbrev cover : Text
cover = 99 ∷ []

abbrev patch : Text
patch = 112 ∷ []

abbrev early : Text
early = 101 ∷ []

abbrev file : Text
file = codes "fs/smb/server/smbacl.c"

abbrev cover_row : LiteRow
cover_row = record {
  message_id = cover;
  list = codes "linux-cifs";
  in_reply_to = none;
  references_first = none;
  subject_normalized = some (codes "fixes");
  from_addr = some (codes "a@b");
  date_unix_ns = some 20;
  is_cover_letter = true;
  touched_files = [];
  touched_functions = [];
}

abbrev patch_row : LiteRow
patch_row = record {
  message_id = patch;
  list = codes "linux-cifs";
  in_reply_to = some cover;
  references_first = none;
  subject_normalized = some (codes "fix");
  from_addr = some (codes "a@b");
  date_unix_ns = some 21;
  is_cover_letter = false;
  touched_files = file ∷ [];
  touched_functions = [];
}

abbrev early_row : LiteRow
early_row = record {
  message_id = early;
  list = codes "linux-cifs";
  in_reply_to = none;
  references_first = none;
  subject_normalized = some (codes "fixes");
  from_addr = some (codes "a@b");
  date_unix_ns = some 10;
  is_cover_letter = false;
  touched_files = [];
  touched_functions = [];
}

abbrev series : List LiteRow
series = cover_row ∷ patch_row ∷ []

abbrev corpus : List LiteRow
corpus = early_row ∷ series

up-patch : up corpus patch ≡ some cover
unfolding up by_mid has_mid text_eq
up-patch = refl

up-cover : up corpus cover ≡ none
unfolding up by_mid has_mid text_eq
up-cover = refl

by_subject_cover : by_subject corpus cover_row ≡ some early
unfolding by_subject bucket first_in_window sort_by text_eq
by_subject_cover = refl

cover_gets_early : resolve_tid corpus cover_row ≡ early
unfolding resolve_tid climb next_up up by_mid has_mid by_subject bucket first_in_window sort_by
    text_eq
cover_gets_early = refl

cover_inherits : (tid_row series cover_row).propagated_files ≡ file ∷ []
unfolding tid_row propagated collect tid_of_mid resolve_tid climb next_up up by_mid has_mid
    by_subject bucket first_in_window sort_by text_eq to_set set_insert
cover_inherits = refl

up-early : up corpus early ≡ none
unfolding up by_mid has_mid text_eq
up-early = refl

no_parent : {A : Type 0} (a b p : Text) → up corpus b ≡ none → b ≡ a → up corpus a ≡ some p → A
no_parent a b p n q h =
    let z : ◌≡◌ {A = Option Text} none (some p) =
      sym n ∙ subst (λ x. up corpus x ≡ some p) (sym q) h in
    absurd (cc)

up_other :
    (a : Text)
    → text_eq patch a ≡ false
    → text_eq cover a ≡ false
    → text_eq early a ≡ false
    → up corpus a ≡ none
unfolding up by_mid has_mid text_eq
up_other a x y z = rw (x, y, z) refl

only_patch : (a p : Text) → up corpus a ≡ some p → (patch ≡ a) × (cover ≡ p)
only_patch a p h = elim (text_eq-cases patch a) [
  | inl (_, q) ↦
      (q, some-injective cover p (sym up-patch ∙ subst (λ x. up corpus x ≡ some p) (sym q) h))
  | inr (x, _) ↦ elim (text_eq-cases cover a) [
    | inl (_, q) ↦ no_parent a cover p up-cover q h
    | inr (y, _) ↦ elim (text_eq-cases early a) [
      | inl (_, q) ↦ no_parent a early p up-early q h
      | inr (z, _) ↦
          let n : ◌≡◌ {A = Option Text} none (some p) = sym (up_other a x y z) ∙ h in absurd (cc)
    ]
  ]
]

abbrev rank : Text → ℕ
rank a = if text_eq a patch then 1 else 0

rank_falls : (a p : Text) → patch ≡ a → cover ≡ p → rank p < rank a
unfolding text_eq
rank_falls a p q r =
    subst (λ x. rank p < rank x) q (subst (λ y. rank y < rank patch) r (omega arith))

acyclic : IsAcyclic corpus
acyclic = record {
  rank = rank;
  falls = λ a p h. let (q, r) = only_patch a p h in rank_falls a p q r;
}

patch-Root : Root corpus patch cover
patch-Root = above up-patch (top up-cover refl)

resolve_tid-Root_example :
    resolve_tid corpus patch_row
    ≡ (if text_eq cover patch then unwrap_or patch (by_subject corpus patch_row) else cover)
resolve_tid-Root_example = resolve_tid-Root corpus acyclic patch_row cover patch-Root

patch_ne_cover : patch ≢ cover
unfolding text_eq
patch_ne_cover e = let t : text_eq patch cover ≡ true = (text_eq_iff patch cover).1 e in absurd (cc)

by_subject-earliest_example :
    (subject : Text) × (r : LiteRow) × (some (codes "fixes") ≡ some subject)
    × (r.message_id ≡ early)
    × (IsIn r corpus
        × (same_bucket cover_row subject r ≡ true)
        × (in_window (some 20) (unwrap_or 9223372036854775808 r.date_unix_ns) ≡ true))
    × ((x : LiteRow)
        → (IsIn x corpus
            × (same_bucket cover_row subject x ≡ true)
            × (in_window (some 20) (unwrap_or 9223372036854775808 x.date_unix_ns) ≡ true))
        → unwrap_or 9223372036854775808 r.date_unix_ns
          ≤ unwrap_or 9223372036854775808 x.date_unix_ns)
by_subject-earliest_example = by_subject-earliest corpus cover_row early by_subject_cover

named : resolve_tid series cover_row ≢ []
unfolding resolve_tid climb next_up up by_mid has_mid by_subject bucket first_in_window sort_by
    text_eq
named e = absurd (cc)

tid_row-propagated_files_example :
    (◌≡◌ {A = Bool} true false → (tid_row series cover_row).propagated_files ≡ [])
    × (true ≡ true
        → IsIn file ((tid_row series cover_row).propagated_files)
          ↔ Carries (λ x. x.touched_files) series series (resolve_tid series cover_row) file)
tid_row-propagated_files_example = tid_row-propagated_files series cover_row file named
