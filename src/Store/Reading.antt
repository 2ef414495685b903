-- ===== src/Store/Reading.antt =====
-- What has been appended can be read, at once and after every later append.
use kernel_lore_mcp.Base.{
  ℕ, ◌≤◌, ◌≡◌, true, inl, inr, ◌++◌, length, length-append, take-append_le, drop, drop-append, leb,
  ◌==◌, arith, Option, none, some, Bool-cases, leb→le, le→leb,
}
use kernel_lore_mcp.Error.{ok, io, ok_or, ◌>>=◌, >>=-eq-ok}
use kernel_lore_mcp.Dict.{lookup}
use kernel_lore_mcp.Store.Names.{segment_name}
use kernel_lore_mcp.Store.Append.{Extends, append-Extends}
use kernel_lore_mcp.Store.Defs.{
  Bytes, Codec, IsCodec, StoreOffset, Store, open_segment, read_exact, read_at, read, append,
}

ok_or-eq-ok {ℓ} : {A : Type ℓ} (o : Option A) {a : A} → ok_or io o ≡ ok a → o ≡ some a
ok_or-eq-ok none h = cc
ok_or-eq-ok (some b) h = cc

read_exact-append : (n : ℕ) (b r f : Bytes) → read_exact n b ≡ ok f → read_exact n (b ++ r) ≡ ok f
read_exact-append n b r f h = elim (Bool-cases (leb n (length b))) [
  | inl e ↦
      let within : n ≤ length b = leb→le n (length b) e in
      let longer : leb n (length (b ++ r)) ≡ true =
        le→leb n (length (b ++ r)) (omega (arith, length-append b r)) in
      rw (longer, take-append_le n b r within) (rw e at h)
  | inr e ↦ absurd (cc (rw e at h))
]

module _ (z : Codec) (laws : IsCodec z) where
  read_at-Extends :
      (s s' : Store) (id offset : ℕ) (b : Bytes)
      → Extends s.segments s'.segments
      → read_at z id offset s ≡ ok b
      → read_at z id offset s' ≡ ok b
  unfolding read_at
  read_at-Extends s s' id offset b x h =
      let (old, o, d) = >>=-eq-ok (open_segment id s) (λ c. z.decode_frame (drop offset c)) h in
      let (more, q) =
        x (segment_name id) old (ok_or-eq-ok (lookup (segment_name id) s.segments) o) in
      let (r, e) = drop-append offset old more in
      rw (q, e) (laws.decode_frame-append (drop offset old) r b d)

  read_exact-Extends :
      (s s' : Store) (p : StoreOffset) (b : Bytes)
      → Extends s.segments s'.segments
      → (do
        c ← open_segment p.segment_id s
        f ← read_exact p.length (drop p.offset c)
        z.decode_all f)
        ≡ ok b
      → (do
        c ← open_segment p.segment_id s'
        f ← read_exact p.length (drop p.offset c)
        z.decode_all f)
        ≡ ok b
  read_exact-Extends s s' p b x h =
      let name = segment_name p.segment_id in
      let (old, o, d) =
        >>=-eq-ok (open_segment p.segment_id s)
          (λ c. read_exact p.length (drop p.offset c) >>= z.decode_all) h in
      let (f, g, k) = >>=-eq-ok (read_exact p.length (drop p.offset old)) z.decode_all d in
      let (more, q) = x name old (ok_or-eq-ok (lookup name s.segments) o) in
      let (r, e) = drop-append p.offset old more in
      rw (q, e, read_exact-append p.length (drop p.offset old) r f g) k

  -- A pointer that can be read is read as the same body after any append, also after one that fails
  -- or is torn.
  pub read-append_later :
      (s : Store) (p : StoreOffset) (b : Bytes) (torn : Option ℕ) (body : Bytes)
      → read z p s ≡ ok b
      → read z p (append z torn body s).1 ≡ ok b
  unfolding read
  read-append_later s p b torn body h = elim (Bool-cases (p.length == 0)) [
    | inl e ↦ rw e (
        read_at-Extends s (append z torn body s).1 p.segment_id p.offset b
          (append-Extends z torn body s) (rw e at h))
    | inr e ↦ rw e (
        read_exact-Extends s (append z torn body s).1 p b (append-Extends z torn body s)
          (rw e at h))
  ]
