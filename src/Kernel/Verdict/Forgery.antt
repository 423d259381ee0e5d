-- ===== src/Kernel/Verdict/Forgery.antt =====
-- What a signature binds: to reuse one for other terms takes a collision of the code that signs.
use the_underwriter.Base.Int.{ℤ, eqb_ℤ, eqb_ℤ→eq}
use the_underwriter.Kernel.Verdict.{signature_of, approve}
use the_underwriter.Base.{
  String, ℕ, ◌≡◌, ◌≢◌, ok, ◌⊎◌, arith, Bool, false, true, Bool-cases, eq_iff, ◌==◌, str_eq, ◌&&◌,
  inl, inr, sym, ◌∙◌,
}
use the_underwriter.Domain.Hashing.{Platform, Canonical, c_dict, c_entry, c_int, c_str, c_end}

-- The terms of an approval.
pub record Grant : Type 0 where
  pub hash : String
  pub contracts : ℤ
  pub nonce : String
  pub expires_at : ℕ

-- The object whose text is signed, its keys sorted.
abbrev pub object : Platform → Grant → Canonical
object lib g = c_dict (
    c_entry "approved_contracts" (c_int g.contracts) (
      c_entry "expires_at" (c_str (lib.datetime_iso g.expires_at)) (
        c_entry "nonce" (c_str g.nonce)
          (c_entry "proposal_hash" (c_str g.hash) (c_entry "verdict" (c_str "APPROVE") c_end)))))

-- What would let these two grants share a signature: their times of expiry, the objects that are signed,
-- or the texts of those objects differ, and the code below the signature does not tell them apart.
pub data Collision (lib : Platform) (secret : String) (g k : Grant) : Type 0 where
  of_times :
      g.expires_at ≢ k.expires_at
      → lib.datetime_iso g.expires_at ≡ lib.datetime_iso k.expires_at
      → Collision lib secret g k
  of_json :
      object lib g ≢ object lib k
      → lib.json_dumps (object lib g) ≡ lib.json_dumps (object lib k)
      → Collision lib secret g k
  of_hmac :
      lib.json_dumps (object lib g) ≢ lib.json_dumps (object lib k)
      → lib.hmac_hex secret (lib.json_dumps (object lib g))
        ≡ lib.hmac_hex secret (lib.json_dumps (object lib k))
      → Collision lib secret g k

signature-eq :
    (lib : Platform) (g : Grant) (secret s : String)
    → signature_of lib g.hash g.contracts approve g.nonce g.expires_at secret ≡ ok s
    → s ≡ lib.hmac_hex secret (lib.json_dumps (object lib g))
unfolding signature_of
signature-eq lib g secret s h = ground arith

-- The signed objects of two grants agree, as a test.
abbrev agree : Platform → Grant → Grant → Bool
agree lib g k =
    eqb_ℤ g.contracts k.contracts
    && (str_eq (lib.datetime_iso g.expires_at) (lib.datetime_iso k.expires_at)
        && (str_eq g.nonce k.nonce && str_eq g.hash k.hash))

module _ (lib : Platform) (g k : Grant) where
  objects_differ : agree lib g k ≡ false → object lib g ≢ object lib k
  objects_differ h e = ground (
    arith,
    eq_iff (lib.datetime_iso g.expires_at) (lib.datetime_iso k.expires_at),
    eq_iff g.nonce k.nonce,
    eq_iff g.hash k.hash,
  )

  same_terms : agree lib g k ≡ true → (g.expires_at == k.expires_at) ≡ true → g ≡ k
  same_terms h e =
      ground (arith, eqb_ℤ→eq g.contracts k.contracts, eq_iff g.nonce k.nonce, eq_iff g.hash k.hash)

  times_collide :
      (secret : String)
      → agree lib g k ≡ true
      → (g.expires_at == k.expires_at) ≡ false
      → Collision lib secret g k
  times_collide secret h e =
      of_times (ground arith)
        (ground (arith, eq_iff (lib.datetime_iso g.expires_at) (lib.datetime_iso k.expires_at)))

-- Two grants that have one signature under one secret are the same grant, with the same proposal, size,
-- nonce and time of expiry; or these two grants are themselves a collision: their different times have
-- one text, their different objects have one JSON text, or the different texts of their objects have
-- one HMAC under the secret.
pub one_signature :
    (lib : Platform) (secret s : String) (g k : Grant)
    → signature_of lib g.hash g.contracts approve g.nonce g.expires_at secret ≡ ok s
    → signature_of lib k.hash k.contracts approve k.nonce k.expires_at secret ≡ ok s
    → (g ≡ k) ⊎ Collision lib secret g k
one_signature lib secret s g k hg hk =
    let x = lib.json_dumps (object lib g) in
    let y = lib.json_dumps (object lib k) in
    elim (Bool-cases (str_eq x y)) [
      | inl same ↦ elim (Bool-cases (agree lib g k)) [
        | inl terms ↦ elim (Bool-cases (g.expires_at == k.expires_at)) [
          | inl times ↦ inl (same_terms lib g k terms times)
          | inr times ↦ inr (times_collide lib g k secret terms times)
        ]
        | inr terms ↦ inr (of_json (objects_differ lib g k terms) ((eq_iff x y).0 same))
      ]
      | inr other ↦ inr (
          of_hmac (λ e. ground (arith, eq_iff x y))
            (sym (signature-eq lib g secret s hg) ∙ signature-eq lib k secret s hk))
    ]
