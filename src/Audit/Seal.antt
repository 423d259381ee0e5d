-- ===== src/Audit/Seal.antt =====
-- What the last hash of a ledger seals: the text of every row.
use the_underwriter.Audit.Chain.{
  IsChain, empty, linked, IsDigest, verify_from-IsChain, latest_hash-tip,
}
use the_underwriter.Audit.Chain.{IsChain, tip}
use the_underwriter.Base.{
  List, ◌≢◌, String, ◌≡◌, Result, Option, ◌∷◌, ok, some, ◌⊎◌, [], none, Bool-cases, str_eq, refl,
  Result-cases, inl, inr, eq_iff, sym, arith, ok-injective, ◌∙◌, Error, err, ap, length, false,
  true, >>=-eq-ok,
}
use the_underwriter.Audit.Ledger.{
  record_payload, Entry, Row, or_genesis, optional, compute_hash, verify_chain, ChainVerification,
  latest_hash, genesis_hash, record_fields,
}
use the_underwriter.Domain.Hashing.{
  Platform, Canonical, c_null, c_str, c_dict, c_entry, c_end, canonicalize, insert_entry,
  canonical_json,
}

-- Two rows that the code below the hashes does not tell apart: the texts that their hashes cover differ
-- and have one digest, or the rows link to different hashes, so that the canonical objects of the two
-- records differ, and those objects have one JSON text.
pub data RowCollision (lib : Platform) (r r' : Row) : Type 0 where
  of_sha256 :
      (text text' : String)
      → record_payload lib r.content (or_genesis r.prev_hash) ≡ ok text
      → record_payload lib r'.content (or_genesis r'.prev_hash) ≡ ok text'
      → text ≢ text'
      → lib.sha256_hex text ≡ lib.sha256_hex text'
      → RowCollision lib r r'
  of_json :
      (object object' : Canonical)
      → canonicalize lib (record_fields r.content (or_genesis r.prev_hash)) ≡ ok object
      → canonicalize lib (record_fields r'.content (or_genesis r'.prev_hash)) ≡ ok object'
      → or_genesis r.prev_hash ≢ or_genesis r'.prev_hash
      → object ≢ object'
      → lib.json_dumps object ≡ lib.json_dumps object'
      → RowCollision lib r r'

-- Two ledgers that collide at one position.
abbrev pub HashCollision : Platform → List Row → List Row → Type 0
HashCollision lib [] rows' = ⊥
HashCollision lib (r ∷ rs) [] = ⊥
HashCollision lib (r ∷ rs) (r' ∷ rs') = RowCollision lib r r' ⊎ HashCollision lib rs rs'

-- The texts that the hashes of the rows cover.
abbrev pub texts : Platform → List Row → List (Result String)
texts lib [] = []
texts lib (r ∷ rs) = record_payload lib r.content (or_genesis r.prev_hash) ∷ texts lib rs

abbrev optional_text : Option String → Canonical
optional_text none = c_null
optional_text (some s) = c_str s

canonicalize-optional :
    (lib : Platform) (o : Option String) → canonicalize lib (optional o) ≡ ok (optional_text o)
unfolding canonicalize
canonicalize-optional lib none = refl
canonicalize-optional lib (some s) = refl

-- The object of a record, its keys sorted.
abbrev record_object : Platform → Entry → Canonical → Canonical → String → Canonical
record_object lib e after before prev = c_dict (
    c_entry "action" (c_str e.action) (
      c_entry "actor" (c_str e.actor) (
        c_entry "after" after (
          c_entry "before" before (
            c_entry "correlation_id" (optional_text e.correlation_id) (
              c_entry "entity_id" (optional_text e.entity_id) (
                c_entry "entity_type" (optional_text e.entity_type) (
                  c_entry "occurred_at" (c_str (lib.datetime_iso e.occurred_at))
                    (c_entry "prev_hash" (c_str prev) c_end)))))))))

not_ok : (x : Error) (c : Canonical) → ◌≢◌ {A = Result Canonical} (err x) (ok c)
not_ok x c e = cc

canonicalize-record_fields :
    (lib : Platform) (e : Entry) (prev : String) (c : Canonical)
    → canonicalize lib (record_fields e prev) ≡ ok c
    → (after before : Canonical) × (c ≡ record_object lib e after before prev)
unfolding canonicalize insert_entry
canonicalize-record_fields lib e prev c made =
    let o₁ = canonicalize-optional lib e.correlation_id in
    let o₂ = canonicalize-optional lib e.entity_type in
    let o₃ = canonicalize-optional lib e.entity_id in
    elim (Result-cases (canonicalize lib e.before)) [
      | inl (x, raised) ↦ absurd (not_ok x c (rw (o₁, o₂, o₃, raised) at made))
      | inr (before, kept) ↦ elim (Result-cases (canonicalize lib e.after)) [
        | inl (x, raised) ↦ absurd (not_ok x c (rw (o₁, o₂, o₃, kept, raised) at made))
        | inr (after, kept') ↦
            (after, before, sym (ok-injective (rw (o₁, o₂, o₃, kept, kept') at made)))
      ]
    ]

record_payload-object :
    (lib : Platform) (e : Entry) (prev text : String)
    → record_payload lib e prev ≡ ok text
    → (c : Canonical) × (canonicalize lib (record_fields e prev) ≡ ok c) × (lib.json_dumps c ≡ text)
unfolding record_payload canonical_json
record_payload-object lib e prev text made =
    let (c, found, dumped) =
      >>=-eq-ok (canonicalize lib (record_fields e prev)) (λ c. ok (lib.json_dumps c)) made in
    (c, found, ok-injective dumped)

module _ (lib : Platform) (r r' : Row) where
  -- Rows whose texts agree link to the same row, or their objects collide.
  same_link :
      (text : String)
      → record_payload lib r.content (or_genesis r.prev_hash) ≡ ok text
      → record_payload lib r'.content (or_genesis r'.prev_hash) ≡ ok text
      → (or_genesis r.prev_hash ≡ or_genesis r'.prev_hash) ⊎ RowCollision lib r r'
  same_link text made made' =
      let prev = or_genesis r.prev_hash in
      let prev' = or_genesis r'.prev_hash in
      let (c, found, dumped) = record_payload-object lib r.content prev text made in
      let (c', found', dumped') = record_payload-object lib r'.content prev' text made' in
      let (after, before, same) = canonicalize-record_fields lib r.content prev c found in
      let (after', before', same') = canonicalize-record_fields lib r'.content prev' c' found' in
      elim (Bool-cases (str_eq prev prev')) [
        | inl equal ↦ inl ((eq_iff prev prev').0 equal)
        | inr other ↦ inr (
            of_json c c' found found' (λ e. ground (arith, eq_iff prev prev'))
              (λ objects. ground (arith, eq_iff prev prev')) (dumped ∙ sym dumped'))
      ]

  -- One row: the same hash was stored for both, so the texts agree and they link to the same row.
  sealed_row :
      (text text' : String)
      → record_payload lib r.content (or_genesis r.prev_hash) ≡ ok text
      → record_payload lib r'.content (or_genesis r'.prev_hash) ≡ ok text'
      → compute_hash lib text ≡ compute_hash lib text'
      → ((or_genesis r.prev_hash ≡ or_genesis r'.prev_hash) × (text ≡ text'))
        ⊎ RowCollision lib r r'
  sealed_row text text' made made' same = elim (Bool-cases (str_eq text text')) [
    | inr other ↦
        inr (of_sha256 text text' made made' (λ q. ground (arith, eq_iff text text')) same)
    | inl equal ↦
        let q : text ≡ text' = (eq_iff text text').0 equal in
        elim (same_link text made (made' ∙ ap ok (sym q))) [
          | inl link ↦ inl (link, q)
          | inr collision ↦ inr collision
        ]
  ]

not_empty : (h : String) → str_eq h "" ≡ false → or_genesis (some h) ≡ h
not_empty h big = rw big

sealed :
    (lib : Platform)
    → IsDigest lib
    → (h h' : String) (rows rows' : List Row) → str_eq h "" ≡ false
    → str_eq h' "" ≡ false
    → IsChain lib h rows
    → IsChain lib h' rows'
    → length rows ≡ length rows'
    → tip h rows ≡ tip h' rows'
    → ((h ≡ h') × (texts lib rows ≡ texts lib rows')) ⊎ HashCollision lib rows rows'
sealed lib digest _ _ _ _ big big' (empty h) (empty h') same_length ends = inl (ends, refl)
sealed lib digest _ _ _ _ big big' (empty h) (linked r' rs' h' text' link' made' hashed' rest')
      same_length ends =
    absurd (omega (arith, same_length))
sealed lib digest _ _ _ _ big big' (linked r rs h text link made hashed rest) (empty h') same_length
      ends =
    absurd (omega (arith, same_length))
sealed lib digest _ _ _ _ big big' (linked r rs h text link made hashed rest)
      (linked r' rs' h' text' link' made' hashed' rest') same_length ends =
    elim (sealed lib digest r.record_hash r'.record_hash rs rs' (rw hashed (digest text))
      (rw hashed' (digest text')) rest rest' (omega (arith, same_length)) ends) [
        | inr collision ↦ inr (inr collision)
        | inl (hashes, later) ↦
            elim (sealed_row lib r r' text text' (rw link made) (rw link' made')
              (sym hashed ∙ hashes ∙ hashed')) [
                | inr collision ↦ inr (inl collision)
                | inl (links, same) ↦ inl (
                  sym (not_empty h big) ∙ (rw (link, link') at links) ∙ not_empty h' big',
                  rw (link, link', made, made', same, later),
                )
              ]
      ]

-- Where the digests are not empty: two ledgers that verify, with as many records and the same latest
-- hash, hold records of the same texts in the same order, or at some position their two rows are
-- themselves a collision: the texts of the two rows differ and have one digest, or the two rows link to
-- different hashes, with canonical objects that differ and have one JSON text.
pub verify_chain-seals :
    (lib : Platform) (rows rows' : List Row) (v v' : ChainVerification)
    → IsDigest lib
    → verify_chain lib rows ≡ ok v
    → v.valid ≡ true
    → verify_chain lib rows' ≡ ok v'
    → v'.valid ≡ true
    → length rows ≡ length rows'
    → latest_hash rows ≡ latest_hash rows'
    → (texts lib rows ≡ texts lib rows') ⊎ HashCollision lib rows rows'
unfolding verify_chain
verify_chain-seals lib rows rows' v v' digest verifies yes_given verifies' yes_given' same_length
      same_hash =
    let c = verify_from-IsChain lib genesis_hash rows 0 v verifies yes_given in
    let c' = verify_from-IsChain lib genesis_hash rows' 0 v' verifies' yes_given' in
    elim (sealed lib digest genesis_hash genesis_hash rows rows' refl refl c c' same_length
      (sym (latest_hash-tip lib digest rows c) ∙ same_hash ∙ latest_hash-tip lib digest rows' c')) [
        | inl (_, same) ↦ inl same
        | inr collision ↦ inr collision
      ]
