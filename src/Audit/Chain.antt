-- ===== src/Audit/Chain.antt =====
-- Appending keeps the chain whole.
use the_underwriter.Audit.Ledger.{
  verify_from, ChainVerification, links_to, Row, verified, record_payload, or_genesis, compute_hash,
  last_hash, latest_hash, append, genesis_hash, verify_chain, Entry,
}
use the_underwriter.Base.{
  ℕ, Option, String, List, true, none, ◌≡◌, [], false, ok, some, ◌⊎◌, ◌+◌, ◌∷◌, inl, length, arith,
  eq_iff, inr, refl, Result-cases, Bool-cases, str_eq, subst, sym, suc, ◌++◌, length-append,
  >>=-eq-ok,
}
use the_underwriter.Domain.Hashing.{Platform}

-- A chain of rows from a hash: each row links to the one before it and hashes to its stored value.
pub data IsChain (lib : Platform) : String → List Row → Type 0 where
  empty : (h : String) → IsChain lib h []
  linked :
      (r : Row) (rs : List Row) (prev payload : String)
      → r.prev_hash ≡ some prev
      → record_payload lib r.content (or_genesis (some prev)) ≡ ok payload
      → r.record_hash ≡ compute_hash lib payload
      → IsChain lib r.record_hash rs
      → IsChain lib prev (r ∷ rs)

abbrev pub valid_run : ℕ → ChainVerification
valid_run n = record {
  valid = true;
  records_checked = n;
  first_break_seq = none;
  detail = verified;
}

links-cases :
    (o : Option String) (e : String)
    → (links_to o e ≡ false) ⊎ ((o ≡ some e) × (links_to o e ≡ true))
links-cases none e = inl refl
links-cases (some s) e = ground (arith, eq_iff s e)

-- The verification finds a chain valid, and then counts its rows.
pub IsChain-verify_from :
    (lib : Platform) (h : String) (rows : List Row) (n : ℕ)
    → IsChain lib h rows
    → verify_from lib h n rows ≡ ok (valid_run (n + length rows))
unfolding verify_from
IsChain-verify_from lib _ _ n (empty h) = ground arith
IsChain-verify_from lib _ _ n (linked r rs h payload link made hashed rest) = ground (
  arith,
  link,
  made,
  hashed,
  eq_iff h h,
  eq_iff r.record_hash r.record_hash,
  IsChain-verify_from lib r.record_hash rs (suc n) rest,
)

pub verify_from-IsChain :
    (lib : Platform) (h : String) (rows : List Row) (n : ℕ) (v : ChainVerification)
    → verify_from lib h n rows ≡ ok v
    → v.valid ≡ true
    → IsChain lib h rows
unfolding verify_from
verify_from-IsChain lib h [] n v e yes_given = empty h
verify_from-IsChain lib h (r ∷ rs) n v e yes_given = elim (links-cases r.prev_hash h) [
  | inl broken_link ↦ absurd (ground arith)
  | inr (same, linked_here) ↦
      elim (Result-cases (record_payload lib r.content (or_genesis r.prev_hash))) [
        | inl (x, raised) ↦ absurd (ground arith)
        | inr (payload, made) ↦
            elim (Bool-cases (str_eq (compute_hash lib payload) r.record_hash)) [
              | inl hashes ↦
                  linked r rs h payload same
                    (subst (λ o. record_payload lib r.content (or_genesis o) ≡ ok payload) same
                      made)
                    (sym ((eq_iff (compute_hash lib payload) r.record_hash).0 hashes))
                    (verify_from-IsChain lib r.record_hash rs (suc n) v (ground arith) yes_given)
              | inr edited_here ↦ absurd (ground arith)
            ]
      ]
]

-- The hash that a chain from `h` ends with.
abbrev pub tip : String → List Row → String
tip h [] = h
tip h (r ∷ rs) = tip r.record_hash rs

IsChain-snoc :
    (lib : Platform) (h : String) (rows : List Row) (r : Row)
    → IsChain lib h rows
    → IsChain lib (tip h rows) (r ∷ [])
    → IsChain lib h (rows ++ r ∷ [])
IsChain-snoc lib _ _ r (empty h) last = last
IsChain-snoc lib _ _ r (linked q rs h payload link made hashed rest) last =
    linked q (rs ++ r ∷ []) h payload link made hashed
      (IsChain-snoc lib q.record_hash rs r rest last)

-- What the hash function documents: a digest is not the empty text.
abbrev pub IsDigest : Platform → Type 0
IsDigest lib = (s : String) → str_eq (lib.sha256_hex s) "" ≡ false

last_hash-tip :
    (lib : Platform)
    → IsDigest lib
    → (h : String) (rows : List Row) → str_eq h "" ≡ false
    → IsChain lib h rows
    → or_genesis (last_hash (some h) rows) ≡ tip h rows
last_hash-tip lib digest _ _ big (empty h) = rw big
last_hash-tip lib digest _ _ big (linked q rs h payload link made hashed rest) =
    last_hash-tip lib digest q.record_hash rs (rw hashed (digest payload)) rest

pub latest_hash-tip :
    (lib : Platform)
    → IsDigest lib
    → (rows : List Row) → IsChain lib genesis_hash rows
    → latest_hash rows ≡ tip genesis_hash rows
unfolding latest_hash
latest_hash-tip lib digest [] c = refl
latest_hash-tip lib digest (r ∷ rs) c = last_hash-tip lib digest genesis_hash (r ∷ rs) refl c

length-snoc : (rows : List Row) (r : Row) → 0 + length (rows ++ r ∷ []) ≡ suc (length rows)
length-snoc rows r = omega (arith, length-append rows (r ∷ []))

-- The row that `append` adds.
abbrev new_row : Platform → ℕ → Entry → String → String → Row
new_row lib seq e prev payload = record {
  seq = seq;
  content = e;
  prev_hash = some prev;
  record_hash = compute_hash lib payload;
}

append-ok :
    (lib : Platform) (seq : ℕ) (e : Entry) (rows rows' : List Row) (r : Row)
    → append lib seq e rows ≡ ok (r, rows')
    → (payload : String) × (record_payload lib e (latest_hash rows) ≡ ok payload)
      × (r ≡ new_row lib seq e (latest_hash rows) payload)
      × (rows' ≡ rows ++ r ∷ [])
unfolding append
append-ok lib seq e rows rows' r added =
    let (payload, made, returned) =
      >>=-eq-ok (record_payload lib e (latest_hash rows))
        (λ payload.
          let row = new_row lib seq e (latest_hash rows) payload in ok (row, rows ++ row ∷ []))
        added in
    (payload, made, cc, cc)

or_genesis-idempotent : (o : Option String) → or_genesis (some (or_genesis o)) ≡ or_genesis o
or_genesis-idempotent none = refl
or_genesis-idempotent (some s) = ground arith

or_genesis-latest : (rows : List Row) → or_genesis (some (latest_hash rows)) ≡ latest_hash rows
unfolding latest_hash
or_genesis-latest rows = or_genesis-idempotent (last_hash none rows)

-- What is appended to a whole chain gives a whole chain.
pub append-IsChain :
    (lib : Platform) (seq : ℕ) (e : Entry) (rows rows' : List Row) (r : Row)
    → IsDigest lib
    → IsChain lib genesis_hash rows
    → append lib seq e rows ≡ ok (r, rows')
    → (rows' ≡ rows ++ r ∷ []) × IsChain lib genesis_hash rows'
append-IsChain lib seq e rows rows' r digest c added =
    let (payload, made, row_eq, rows_eq) = append-ok lib seq e rows rows' r added in
    let row = new_row lib seq e (latest_hash rows) payload in
    let last : IsChain lib (latest_hash rows) (row ∷ []) =
      linked row [] (latest_hash rows) payload refl (rw (or_genesis-latest rows) made) refl
        (empty row.record_hash) in
    (
      rows_eq,
      rw (rows_eq, row_eq)
          (IsChain-snoc lib genesis_hash rows row c
            (rw (← latest_hash-tip lib digest rows c) last)),
    )

-- Where the digests are not empty, a record that is appended to a ledger that verifies gives a ledger
-- that verifies, with one record more: what was there stands as it did.
pub append-verify_chain :
    (lib : Platform) (seq : ℕ) (e : Entry) (rows rows' : List Row) (r : Row) (v : ChainVerification)
    → IsDigest lib
    → verify_chain lib rows ≡ ok v
    → v.valid ≡ true
    → append lib seq e rows ≡ ok (r, rows')
    → (rows' ≡ rows ++ r ∷ []) × (verify_chain lib rows' ≡ ok (valid_run (suc (length rows))))
unfolding verify_chain
append-verify_chain lib seq e rows rows' r v digest verifies yes_given added =
    let c = verify_from-IsChain lib genesis_hash rows 0 v verifies yes_given in
    let (rows_eq, c') = append-IsChain lib seq e rows rows' r digest c added in
    let whole = IsChain-verify_from lib genesis_hash rows' 0 c' in
    (rows_eq, rw (← length-snoc rows r, ← rows_eq) whole)
