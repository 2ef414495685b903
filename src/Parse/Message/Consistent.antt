-- ===== src/Parse/Message/Consistent.antt =====
-- How the fields of a parsed message agree.
use kernel_lore_mcp.Base.{
  ℕ, ◌%◌, ◌^◌, ◌↔◌, IsIn, false, ◌≡◌, refl, sym, ap, ◌∙◌, ◌⊎◌, inl, inr, true, ◌||◌, List, [], ◌∷◌,
  if◌then◌else◌, length, any, ◌==◌, arith, Option, none, some, is_some, or_else-some, bind-some,
  ◌>>=◌, either, subst,
}
use kernel_lore_mcp.Text.{Text, lines, trim, to_ascii_lowercase}
use kernel_lore_mcp.Text.Distinct.{IsDistinct, push_new, push_new-IsDistinct}
use kernel_lore_mcp.Parse.Body.{split_prose_and_patch}
use kernel_lore_mcp.Parse.Patch.Counts.{parse_patch-IsTally}
use kernel_lore_mcp.Parse.Patch.Totals.{changed, NamesFile, parse_patch-totals}
use kernel_lore_mcp.Parse.Message.Defs.{
  Addr, Mail, ParsedMessage, push_addr, push_addrs, collect_envelope_addrs,
  is_plausible_message_date, message_date, with_from, with_subject, with_body, with_patch_info,
  parse_message, body_text,
}

push_addr-IsDistinct :
    (o : Option Text) (out : List Text) → IsDistinct out → IsDistinct (push_addr o out)
unfolding push_addr
push_addr-IsDistinct none out d = d
push_addr-IsDistinct (some a) out d =
    let norm = to_ascii_lowercase (trim a) in
    either IsDistinct (length norm == 0 || any (λ c. c == 32) norm) out (push_new norm out) d
      (push_new-IsDistinct norm out d)

push_addrs-IsDistinct :
    (addrs : List Addr) (out : List Text) → IsDistinct out → IsDistinct (push_addrs addrs out)
unfolding push_addrs
push_addrs-IsDistinct [] out d = d
push_addrs-IsDistinct (a ∷ rest) out d =
    push_addrs-IsDistinct rest (push_addr a.address out) (push_addr-IsDistinct a.address out d)

collect-IsDistinct : (o : Option (List Addr)) → IsDistinct (collect_envelope_addrs o)
unfolding collect_envelope_addrs
collect-IsDistinct none = tt
collect-IsDistinct (some group) = push_addrs-IsDistinct group [] tt

-- The date of a message is plausible or that of its commit.
pub message_date-source :
    (now_ns : ℕ) (date commit_date : Option ℕ) (ns : ℕ)
    → message_date now_ns date commit_date ≡ some ns
    → ((date ≡ some ns) × (is_plausible_message_date now_ns ns ≡ true)) ⊎ (commit_date ≡ some ns)
unfolding message_date
message_date-source now_ns date commit_date ns h =
    let keep : ℕ → Option ℕ = λ x. if is_plausible_message_date now_ns x then some x else none in
    elim (or_else-some (date >>= keep) commit_date ns h) [
      | inl e ↦
          let (x, p, q) = bind-some date keep ns e in
          let (t, same) = kept x q in
          inl (p ∙ ap some same, subst (λ z. is_plausible_message_date now_ns z ≡ true) same t)
      | inr e ↦ inr e
    ]
  where
    kept :
        (x : ℕ)
        → ◌≡◌ {A = Option ℕ} (if is_plausible_message_date now_ns x then some x else none) (some ns)
        → (is_plausible_message_date now_ns x ≡ true) × (x ≡ ns)
    kept x q = ground arith

-- The fields that are read from a patch, against its description: the files are those that its lines
-- `diff --git ` name, each once, and the counters are the numbers of inserted and deleted lines.
abbrev pub IsPatchInfo : Text → ParsedMessage → Type 0
IsPatchInfo p m =
    ((f : Text) → IsIn f m.touched_files ↔ ((l : Text) × IsIn l (lines p) × NamesFile f l))
    × (m.files_changed ≡ some (length m.touched_files % 2 ^ 32))
    × (m.insertions ≡ some (changed 43 p))
    × (m.deletions ≡ some (changed 45 p))

-- without a patch there is nothing of one
abbrev pub HasNoPatchInfo : ParsedMessage → Type 0
HasNoPatchInfo m =
    (m.touched_files ≡ []) × (m.files_changed ≡ none) × (m.insertions ≡ none) × (m.deletions ≡ none)

-- The patch, what is counted in it, and the files agree.
abbrev pub AgreesOnPatch : ParsedMessage → Type 0
AgreesOnPatch m =
    IsDistinct m.touched_files
    × (((m.patch ≡ none) × (m.has_patch ≡ false) × HasNoPatchInfo m)
        ⊎ ((p : Text) × (m.patch ≡ some p) × (m.has_patch ≡ true) × IsPatchInfo p m))

with_patch_info-Agrees :
    (o : Option Text) (m : ParsedMessage)
    → m.patch ≡ o
    → m.has_patch ≡ is_some o
    → HasNoPatchInfo m
    → AgreesOnPatch (with_patch_info o m)
with_patch_info-Agrees none m p h n = (subst IsDistinct (sym n.0) tt, inl (p, h, n))
with_patch_info-Agrees (some patch) m p h n =
    let (i, d, files) = parse_patch-totals patch in
    (
      (parse_patch-IsTally patch).0,
      inr (patch, p, h, (files, refl, ap (λ x. some x) i, ap (λ x. some x) d)),
    )

-- the patch changes nothing else
with_patch_info-others :
    (o : Option Text) (m : ParsedMessage)
    → ((with_patch_info o m).to_addrs ≡ m.to_addrs)
      × ((with_patch_info o m).cc_addrs ≡ m.cc_addrs)
      × ((with_patch_info o m).date_unix_ns ≡ m.date_unix_ns)
with_patch_info-others none m = (refl, refl, refl)
with_patch_info-others (some p) m = (refl, refl, refl)

split_flag :
    (body : Text)
    → (split_prose_and_patch body).has_patch ≡ is_some (split_prose_and_patch body).patch
unfolding split_prose_and_patch
split_flag body = refl

-- In a parsed message the flag says whether there is a patch. Without one there are no files and no
-- counts. With one, the files are those that its lines `diff --git ` name, each once, and counted as
-- a `u32`; the insertions and deletions are, modulo 2 ^ 32, the numbers of the lines in its hunks
-- that begin with one plus and with one minus. A hunk goes from a line `@@ ` to the next line
-- `diff --git `. The recipients are listed once each, and the date is plausible or that of the commit.
pub parse_message-consistent :
    (to_lowercase : Text → Text) (now_ns : ℕ) (commit_date : Option ℕ) (mail : Option Mail)
    → AgreesOnPatch (parse_message to_lowercase now_ns commit_date mail)
      × IsDistinct (parse_message to_lowercase now_ns commit_date mail).to_addrs
      × IsDistinct (parse_message to_lowercase now_ns commit_date mail).cc_addrs
      × ((ns : ℕ)
          → (parse_message to_lowercase now_ns commit_date mail).date_unix_ns ≡ some ns
          → (is_plausible_message_date now_ns ns ≡ true) ⊎ (commit_date ≡ some ns))
unfolding parse_message with_from with_subject with_body
parse_message-consistent f now commit none =
    ((tt, inl (refl, refl, (refl, refl, refl, refl))), tt, tt, λ ns e. absurd (cc))
parse_message-consistent f now commit (some mail) =
    let patch = (split_prose_and_patch (body_text mail.body_texts)).patch in
    let (to_same, cc_same, date_same) = with_patch_info-others patch _ in
    (
      with_patch_info-Agrees patch _ refl (split_flag (body_text mail.body_texts))
          (refl, refl, refl, refl),
      subst IsDistinct (sym to_same) (collect-IsDistinct mail.to),
      subst IsDistinct (sym cc_same) (collect-IsDistinct mail.cc),
      λ ns e. elim (message_date-source now mail.date commit ns (sym date_same ∙ e)) [
        | inl (_, t) ↦ inl t
        | inr c ↦ inr c
      ],
    )
