-- ===== src/Router/Cursor.antt =====
-- src/router.rs: the signed tokens that continue a listing. serde_json, HMAC-SHA256 and base64 are
-- parameters; an `f64` is of the type `F`.
use kernel_lore_mcp.Base.{
  ℕ, ◌-◌, ◌≡◌, refl, sym, ap, ◌∙◌, inl, inr, ◌↔◌, Bool, true, false, List, ◌++◌, if◌then◌else◌,
  length, take, drop, ltb, length-append, take-append_length, drop-append_length, take-drop, Option,
  none, some, Bool-cases, subst, arith,
}
use kernel_lore_mcp.Error.{
  Error, Result, ok, err, invalid_cursor, state, ok_or, ◌>>=◌, >>=-eq-ok, ok-injective,
}

-- a string of bytes
abbrev pub Bytes : Type 0
Bytes = List ℕ

pub record CursorPayload (F : Type 0) : Type 0 where
  pub query_hash : ℕ
  pub last_seen_score : F
  pub last_seen_mid : Bytes

-- `to_vec`, `from_slice`, the tag of a body under a secret, `verify_slice`, `encode` and `decode`
pub record Crypto (F : Type 0) : Type 0 where
  pub to_json : CursorPayload F → Option Bytes
  pub from_json : Bytes → Option (CursorPayload F)
  pub hmac : Bytes → Bytes → Bytes
  pub verify_slice : Bytes → Bytes → Bool
  pub encode : Bytes → Bytes
  pub decode : Bytes → Option Bytes

-- A tag has 32 bytes, and is verified by comparison.
pub record IsHmac {F : Type 0} (c : Crypto F) : Type 0 where
  pub length-hmac : (secret body : Bytes) → length (c.hmac secret body) ≡ 32
  pub verify_slice_iff : (a b : Bytes) → (c.verify_slice a b ≡ true) ↔ (a ≡ b)

module _ {F : Type 0} (c : Crypto F) where
  -- an HMAC takes a key of any length, so its set up does not fail
  unfoldable pub sign_cursor : Bytes → CursorPayload F → Result Bytes
  sign_cursor secret payload =
      ok_or state (c.to_json payload) >>= λ body. ok (c.encode (body ++ c.hmac secret body))

  abbrev pub verify_parts : Bytes → Bytes → Bytes → Result (CursorPayload F)
  verify_parts secret body sig =
      if c.verify_slice (c.hmac secret body) sig
      then ok_or invalid_cursor (c.from_json body)
      else err invalid_cursor

  unfoldable pub verify_cursor : Bytes → Bytes → Result (CursorPayload F)
  verify_cursor secret token = ok_or invalid_cursor (c.decode token) >>= λ raw.
      if ltb (length raw) 32
      then err invalid_cursor
      else verify_parts secret (take (length raw - 32) raw) (drop (length raw - 32) raw)

  ok_or-ok : {A : Type 0} (e : Error) (o : Option A) (a : A) → ok_or e o ≡ ok a → o ≡ some a
  ok_or-ok e none a h = absurd (cc)
  ok_or-ok e (some b) a h = ap some (ok-injective b a h)

  module _ (h : IsHmac c) (secret : Bytes) where
    verify_parts_iff :
        (body sig : Bytes) (payload : CursorPayload F)
        → (verify_parts secret body sig ≡ ok payload)
          ↔ ((c.hmac secret body ≡ sig) × (c.from_json body ≡ some payload))
    verify_parts_iff body sig payload =
        elim (Bool-cases (c.verify_slice (c.hmac secret body) sig)) [
          | inl e ↦ (
            λ q. (
              (h.verify_slice_iff (c.hmac secret body) sig).0 e,
              ok_or-ok invalid_cursor (c.from_json body) payload (rw e at q),
            ),
            λ q. rw (e, q.1) refl,
          )
          | inr e ↦ (
            λ q. absurd (clash (rw e at q)),
            λ q. absurd (differ (sym e ∙ (h.verify_slice_iff (c.hmac secret body) sig).1 q.0)),
          )
        ]
      where
        clash : ◌≡◌ {A = Result (CursorPayload F)} (err invalid_cursor) (ok payload) → ⊥
        clash q = cc

        differ : false ≡ true → ⊥
        differ q = cc

    -- A token verifies and gives a payload exactly if it decodes to a body that JSON reads as the
    -- payload, followed by the tag of this body under the secret. A tag has 32 bytes and is verified by
    -- comparison.
    pub verify_cursor_iff :
        (token : Bytes) (payload : CursorPayload F)
        → (verify_cursor secret token ≡ ok payload) ↔ (
            (body : Bytes) × (c.decode token ≡ some (body ++ c.hmac secret body))
            × (c.from_json body ≡ some payload))
    unfolding verify_cursor
    verify_cursor_iff token payload = (
      λ q.
          let (raw, d, r) = >>=-eq-ok (ok_or invalid_cursor (c.decode token)) _ q in
          let n = length raw - 32 in
          let (e, read) =
            (verify_parts_iff (take n raw) (drop n raw) payload).0 (long_enough raw r) in
          (
            take n raw,
            ok_or-ok invalid_cursor (c.decode token) raw d
                ∙ ap some (sym (ap (λ z. take n raw ++ z) e ∙ take-drop n raw)),
            read,
          ),
      λ k.
          let (body, d, read) = k in
          let sig = c.hmac secret body in
          let n : length (body ++ sig) - 32 ≡ length body =
            omega (arith, length-append body sig, h.length-hmac secret body) in
          let long : ltb (length (body ++ sig)) 32 ≡ false =
            ground (arith, length-append body sig, h.length-hmac secret body) in
          rw (d, long, n, take-append_length body sig, drop-append_length body sig)
            ((verify_parts_iff body sig payload).1 (refl, read)),
    )
      where
        long_enough :
            (raw : Bytes)
            → (if ltb (length raw) 32
                then err invalid_cursor
                else verify_parts secret (take (length raw - 32) raw) (drop (length raw - 32) raw))
              ≡ ok payload
            → verify_parts secret (take (length raw - 32) raw) (drop (length raw - 32) raw)
              ≡ ok payload
        long_enough raw q = ground arith

  -- A token that was signed verifies under its secret and gives the payload back, where JSON reads
  -- back what it wrote of this payload, and base64 what it encodes. A tag has 32 bytes and is
  -- verified by comparison.
  pub verify_cursor-sign_cursor :
      IsHmac c
      → (secret token : Bytes) (payload : CursorPayload F)
      → ((body : Bytes) → c.to_json payload ≡ some body → c.from_json body ≡ some payload)
      → ((raw : Bytes) → c.decode (c.encode raw) ≡ some raw)
      → sign_cursor secret payload ≡ ok token
      → verify_cursor secret token ≡ ok payload
  unfolding sign_cursor
  verify_cursor-sign_cursor h secret token payload json base64 q =
      let (body, p, r) = >>=-eq-ok (ok_or state (c.to_json payload)) _ q in
      let raw = body ++ c.hmac secret body in
      (verify_cursor_iff h secret token payload).1 (
        body,
        subst (λ z. c.decode z ≡ some raw) (ok-injective (c.encode raw) token r) (base64 raw),
        json body (ok_or-ok state (c.to_json payload) body p),
      )
