-- ===== src/Domain/Hashing.antt =====
-- backend/underwriter/domain/hashing.py: the reduction of a value to JSON primitives, and the
-- hash of its text. What the interpreter's libraries compute (json, hashlib, hmac, isoformat, the
-- text of a Decimal) are the fields of `Platform`.
use Prim.Native.String.{compare}
use Prim.Native.Nat.{Ordering}
use the_underwriter.Base.{
  ℕ, String, Bool, true, false, if◌then◌else◌, Result, ok, err, ◌>>=◌, type_error,
}
use the_underwriter.Base.Int.{ℤ}
use the_underwriter.Domain.Decimal.{Decimal}

mutual
  -- The Python values that reach `canonicalize`. A `StrEnum` is its text. `other` is any class that
  -- the function does not know.
  pub data PyValue : Type 0 where
    null : PyValue
    str : String → PyValue
    boolean : Bool → PyValue
    int : ℤ → PyValue
    decimal : Decimal → PyValue
    float : PyValue
    datetime : ℕ → PyValue
    date : ℕ → PyValue
    mapping : Entries → PyValue
    sequence : Items → PyValue
    other : PyValue

  pub data Entries : Type 0 where
    no_entry : Entries
    entry : String → PyValue → Entries → Entries

  pub data Items : Type 0 where
    no_item : Items
    item : PyValue → Items → Items

mutual
  -- `Canonical`
  pub data Canonical : Type 0 where
    c_null : Canonical
    c_str : String → Canonical
    c_bool : Bool → Canonical
    c_int : ℤ → Canonical
    c_list : CanonicalItems → Canonical
    c_dict : CanonicalEntries → Canonical

  pub data CanonicalItems : Type 0 where
    c_nil : CanonicalItems
    c_cons : Canonical → CanonicalItems → CanonicalItems

  pub data CanonicalEntries : Type 0 where
    c_end : CanonicalEntries
    c_entry : String → Canonical → CanonicalEntries → CanonicalEntries

pub record Platform : Type 0 where
  pub json_dumps : Canonical → String
  pub sha256_hex : String → String
  pub hmac_hex : String → String → String
  pub decimal_str : Decimal → String
  pub datetime_iso : ℕ → String
  pub date_iso : ℕ → String

abbrev pub text_lt : String → String → Bool
text_lt s t = elim (compare s t) [ Ordering.lt ↦ true | _ ↦ false ]

-- The stable insertion of `sorted`, by key: an earlier entry stays before a later one of its key.
unfoldable pub insert_entry : String → Canonical → CanonicalEntries → CanonicalEntries
insert_entry k v c_end = c_entry k v c_end
insert_entry k v (c_entry j w rest) =
    if text_lt j k then c_entry j w (insert_entry k v rest) else c_entry k v (c_entry j w rest)

unfoldable mutual
  unfolding insert_entry

  pub canonicalize : Platform → PyValue → Result Canonical
  canonicalize p null = ok c_null
  canonicalize p (str s) = ok (c_str s)
  canonicalize p (boolean b) = ok (c_bool b)
  canonicalize p (int n) = ok (c_int n)
  canonicalize p (decimal d) = ok (c_str (p.decimal_str d))
  canonicalize p float = err type_error
  canonicalize p (datetime t) = ok (c_str (p.datetime_iso t))
  canonicalize p (date d) = ok (c_str (p.date_iso d))
  canonicalize p (mapping es) = do es' ← canonical_entries p es; ok (c_dict es')
  canonicalize p (sequence xs) = do xs' ← canonical_items p xs; ok (c_list xs')
  canonicalize p other = err type_error

  pub canonical_entries : Platform → Entries → Result CanonicalEntries
  canonical_entries p no_entry = ok c_end
  canonical_entries p (entry k v es) = do
    v' ← canonicalize p v
    es' ← canonical_entries p es
    ok (insert_entry k v' es')

  pub canonical_items : Platform → Items → Result CanonicalItems
  canonical_items p no_item = ok c_nil
  canonical_items p (item v vs) = do
    v' ← canonicalize p v
    vs' ← canonical_items p vs
    ok (c_cons v' vs')

-- `canonical_json`
unfoldable pub canonical_json : Platform → PyValue → Result String
unfolding canonicalize
canonical_json p v = do c ← canonicalize p v; ok (p.json_dumps c)

unfoldable pub sha256_of : Platform → PyValue → Result String
unfolding canonical_json
sha256_of p v = do text ← canonical_json p v; ok (p.sha256_hex text)
