-- ===== src/Ingest/Head/Defs.antt =====
-- `resolve_walk_head_id`: the head, or the best branch when the head is unborn. What git2 finds in
-- the repository is a parameter; a repair of the head that fails is only logged.
use kernel_lore_mcp.Base.{
  ℕ, ◌==◌, Bool, not, ◌&&◌, ◌||◌, List, [], ◌∷◌, ◌++◌, ltb, if◌then◌else◌, Option, none, some,
  is_some, sort_by,
}
use kernel_lore_mcp.Error.{Result, Done, ok, err, gix, ◌>>=◌, ◌>>◌}
use kernel_lore_mcp.Text.{
  Text, codes, text_eq, text_lt, starts_with, strip_prefix, strip_suffix, split_once,
}

pub record Reference : Type 0 where
  pub name : Option Text
  pub target : Option Text
  pub symbolic_target : Option Text

-- opening the repository, looking a reference up, all references, and an object id read again by gix
pub record Refs : Type 0 where
  pub open_bare : Done
  pub find_reference : Text → Option Reference
  pub references : Result (List (Result Reference))
  pub git2_oid_to_gix : Text → Result Text

pub record HeadCandidate : Type 0 where
  pub rank : ℕ
  pub source_ref : Text
  pub repair_ref : Text
  pub oid : Text

abbrev pub bind : {A B : Type 0} → Option A → (A → Option B) → Option B
bind none f = none
bind (some a) f = f a

unfoldable pub local_head_ref_for : Text → Option Text
local_head_ref_for refname =
    if starts_with (codes "refs/heads/") refname
    then some refname
    else bind (strip_prefix (codes "refs/remotes/") refname) (λ remainder.
      bind (split_once 47 remainder) (λ parts.
        if text_eq parts.1 (codes "HEAD") then none else some (codes "refs/heads/" ++ parts.1)))

unfoldable pub rank_for_head_fallback : Text → Option ℕ
rank_for_head_fallback refname =
    if text_eq refname (codes "refs/heads/master")
    then some 0
    else if text_eq refname (codes "refs/heads/main")
    then some 1
    else if text_eq refname (codes "refs/remotes/origin/HEAD")
    then some 2
    else if text_eq refname (codes "refs/remotes/origin/master")
    then some 3
    else if text_eq refname (codes "refs/remotes/origin/main")
    then some 4
    else if starts_with (codes "refs/heads/") refname
    then some 5
    else if starts_with (codes "refs/remotes/") refname
        && not (is_some (strip_suffix (codes "/HEAD") refname))
    then some 6
    else none

module _ (r : Refs) where
  abbrev pub push_target :
      Text → Text → ℕ → Option Text → List HeadCandidate → Result (List HeadCandidate)
  push_target source_ref repair_ref rank none out = ok out
  push_target source_ref repair_ref rank (some target) out = r.git2_oid_to_gix target >>= λ oid.
      ok (
        out
        ++ record { rank = rank; source_ref = source_ref; repair_ref = repair_ref; oid = oid } ∷ [])

  unfoldable pub push_ref_candidate :
      Text → Text → ℕ → List HeadCandidate → Result (List HeadCandidate)
  push_ref_candidate source_ref repair_ref rank out =
      push_target source_ref repair_ref rank (bind (r.find_reference source_ref) (λ f. f.target))
        out

  -- the branch that a symbolic reference names, and the local branch for it
  abbrev pub symbolic : Text → Option (Text × Text)
  symbolic symbolic_ref = bind (r.find_reference symbolic_ref) (λ f.
      bind f.symbolic_target (λ target_name.
        bind (local_head_ref_for target_name) (λ repair_ref. some (target_name, repair_ref))))

  abbrev pub push_named_by :
      Option (Text × Text) → ℕ → List HeadCandidate → Result (List HeadCandidate)
  push_named_by none rank out = ok out
  push_named_by (some (target_name, repair_ref)) rank out =
      push_ref_candidate target_name repair_ref rank out

  -- the reference that counts, with its rank and its local branch
  abbrev pub ranked : Reference → Option (Text × ℕ × Text)
  ranked f = bind f.name (λ name.
      bind (rank_for_head_fallback name)
        (λ rank. bind (local_head_ref_for name) (λ repair_ref. some (name, rank, repair_ref))))

  abbrev pub push_ranked :
      Option (Text × ℕ × Text) → Option Text → List HeadCandidate → Result (List HeadCandidate)
  push_ranked none target out = ok out
  push_ranked (some (name, rank, repair_ref)) target out =
      push_target name repair_ref rank target out

  -- the loop over all references
  unfoldable pub push_all_refs :
      List (Result Reference) → List HeadCandidate → Result (List HeadCandidate)
  push_all_refs [] out = ok out
  push_all_refs (err e ∷ refs) out = err e
  push_all_refs (ok f ∷ refs) out =
      push_ranked (ranked f) f.target out >>= λ out'. push_all_refs refs out'

  unfoldable pub candidates : Result (List HeadCandidate)
  unfolding push_ref_candidate
  candidates =
      r.open_bare
      >> (push_ref_candidate (codes "refs/heads/master") (codes "refs/heads/master") 0 [] >>= (λ a.
          push_ref_candidate (codes "refs/heads/main") (codes "refs/heads/main") 1 a >>= (λ b.
            push_named_by (symbolic (codes "refs/remotes/origin/HEAD")) 2 b >>= (λ c.
              push_ref_candidate (codes "refs/remotes/origin/master") (codes "refs/heads/master") 3
                c
              >>= (λ d.
                  push_ref_candidate (codes "refs/remotes/origin/main") (codes "refs/heads/main") 4
                    d
                  >>= (λ e. r.references >>= (λ refs. push_all_refs refs e)))))))

  abbrev pub is_before : HeadCandidate → HeadCandidate → Bool
  is_before a b = ltb a.rank b.rank || (a.rank == b.rank && text_lt a.source_ref b.source_ref)

  abbrev pub first : List HeadCandidate → Option HeadCandidate
  first [] = none
  first (c ∷ cs) = some c

  unfoldable pub fallback_head_id_from_refs : Result (Option (Text × Text))
  fallback_head_id_from_refs = candidates >>= λ cs.
      ok (bind (first (sort_by is_before cs)) (λ c. some (c.oid, c.repair_ref)))

  abbrev pub or_unborn : Option (Text × Text) → Result Text
  or_unborn none = err gix
  or_unborn (some (oid, _)) = ok oid

  unfoldable pub resolve_walk_head_id : Result Text → Result Text
  resolve_walk_head_id (ok head) = ok head
  resolve_walk_head_id (err _) = fallback_head_id_from_refs >>= or_unborn
