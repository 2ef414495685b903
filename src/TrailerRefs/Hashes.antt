-- ===== src/TrailerRefs/Hashes.antt =====
-- The hashes of syzbot reports, from an address or a url, are hexadecimal and in lower case.
use kernel_lore_mcp.Base.{
  bind-some, or_else-some, ℕ, ◌≡◌, refl, inl, inr, Bool, true, false, &&-true, List, [], ◌∷◌, arith,
  All, All-weaken, Bool-cases, all, some, ◌>>=◌, ◌==◌, subst,
}
use mathlib.Core.Option.{some-injective}
use kernel_lore_mcp.Text.{
  Text, codes, is_hexdigit, lower, to_ascii_lowercase, trim, split, split_once_at, strip_prefix,
}
use kernel_lore_mcp.Text.Parts.{All-split, All-strip_prefix, All-split_once_at}
use kernel_lore_mcp.TrailerRefs.Defs.{
  is_hex_token, when, first_piece, extract_syzbot_hash_from_email, take_while, hash_after,
  extract_syzbot_hash_from_url,
}
use kernel_lore_mcp.TrailerRefs.Tokens.{IsHash}

when-some : (b : Bool) (t v : Text) → when b t ≡ some v → (b ≡ true) × (t ≡ v)
when-some true t v h = (refl, some-injective t v h)
when-some false t v h = absurd (cc)

IsLowered : Text → Type 0
IsLowered = All (λ c. lower c ≡ c)

lowercase-IsLowered : (s : Text) → IsLowered (to_ascii_lowercase s)
unfolding to_ascii_lowercase IsLowered
lowercase-IsLowered [] = tt
lowercase-IsLowered (c ∷ s) = (ground arith, lowercase-IsLowered s)

hex-IsHash : (s : Text) → IsLowered s → all is_hexdigit s ≡ true → IsHash s
unfolding IsLowered
hex-IsHash [] l h = tt
hex-IsHash (c ∷ s) l h =
    let (x, y) = &&-true (is_hexdigit c) (all is_hexdigit s) h in ((x, l.0), hex-IsHash s l.1 y)

token-IsHash : (s : Text) → IsLowered s → is_hex_token s ≡ true → IsHash s
token-IsHash s l h = hex-IsHash s l (digits s h)
  where
    digits : (t : Text) → is_hex_token t ≡ true → all is_hexdigit t ≡ true
    digits t h = unfold is_hex_token in ground arith

first_piece-All :
    (P : Text → Type 0) (ws : List Text) (w : Text) → first_piece ws ≡ some w → All P ws → P w
first_piece-All P [] w h a = absurd (cc)
first_piece-All P (x ∷ ws) w h a = subst P (some-injective x w h) a.0

pub of_email-IsHash : (email h : Text) → extract_syzbot_hash_from_email email ≡ some h → IsHash h
unfolding extract_syzbot_hash_from_email IsLowered
of_email-IsHash email h e =
    let lowered = to_ascii_lowercase (trim email) in
    let pieces = split (λ c. c == 64) lowered in
    let (local, p', r) =
      bind-some (first_piece pieces)
        (λ local. strip_prefix (codes "syzbot+") local >>= λ hash. when (is_hex_token hash) hash) h
        e in
    let (hash, q', q) =
      bind-some (strip_prefix (codes "syzbot+") local) (λ hash. when (is_hex_token hash) hash) h
        r in
    let (t, same) = when-some (is_hex_token hash) hash h q in
    let local_lowered : All (λ c. (lower c ≡ c) × ((c == 64) ≡ false)) local =
      first_piece-All (All (λ c. (lower c ≡ c) × ((c == 64) ≡ false))) pieces local p'
        (All-split (λ c. lower c ≡ c) (λ c. c == 64) lowered (lowercase-IsLowered (trim email))) in
    let hash_lowered : IsLowered hash =
      All-strip_prefix (λ c. lower c ≡ c) (codes "syzbot+") local hash q'
        (All-weaken (λ c. (lower c ≡ c) × ((c == 64) ≡ false)) (λ c. lower c ≡ c) (λ c z. z.0) local
          local_lowered) in
    subst IsHash same (token-IsHash hash hash_lowered t)

take_while-All : (Q : ℕ → Type 0) (p : ℕ → Bool) (s : Text) → All Q s → All Q (take_while p s)
unfolding take_while
take_while-All Q p [] a = tt
take_while-All Q p (c ∷ s) a = elim (Bool-cases (p c)) [
  | inl e ↦ rw e (a.0, take_while-All Q p s a.1)
  | inr e ↦ rw e tt
]

hash_after-IsHash : (key s h : Text) → IsLowered s → hash_after key s ≡ some h → IsHash h
unfolding IsLowered
hash_after-IsHash key s h l e =
    let (parts, p, q) =
      bind-some (split_once_at key s)
        (λ parts.
          when (is_hex_token (take_while is_hexdigit parts.1)) (take_while is_hexdigit parts.1))
        h e in
    let hash = take_while is_hexdigit parts.1 in
    let (t, same) = when-some (is_hex_token hash) hash h q in
    subst IsHash same (
      token-IsHash hash
        (take_while-All (λ c. lower c ≡ c) is_hexdigit parts.1
          (All-split_once_at (λ c. lower c ≡ c) key s parts p l))
        t)

pub of_url-IsHash : (url h : Text) → extract_syzbot_hash_from_url url ≡ some h → IsHash h
unfolding extract_syzbot_hash_from_url
of_url-IsHash url h e =
    let s = to_ascii_lowercase (trim url) in
    let l = lowercase-IsLowered (trim url) in
    elim (or_else-some (hash_after (codes "extid=") s) (hash_after (codes "id=") s) h e) [
      | inl i ↦ hash_after-IsHash (codes "extid=") s h l i
      | inr i ↦ hash_after-IsHash (codes "id=") s h l i
    ]
