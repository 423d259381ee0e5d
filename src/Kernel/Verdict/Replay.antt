-- ===== src/Kernel/Verdict/Replay.antt =====
-- A nonce opens the gate once, whatever is presented and in whatever order.
use the_underwriter.Kernel.Verdict.Authorize.{authorize-cases}
use the_underwriter.Domain.Hashing.{Platform}
use the_underwriter.Base.{
  refl, Result, String, Bool, ℕ, ok, true, List, err, ◌∷◌, contains, ◌≤◌, false, ◌≡◌, arith, some,
  inl, inr, eq_iff, if◌then◌else◌, [], ◌&&◌, str_eq, suc,
}
use the_underwriter.Kernel.Verdict.{KernelVerdict, NonceRegistry, authorize}

-- One presentation of a verdict at the gate.
pub record Attempt : Type 0 where
  pub verdict : KernelVerdict
  pub hash : String
  pub now : ℕ

abbrev is_ok {ℓ} : {A : Type ℓ} → Result A → Bool
is_ok (ok a) = true
is_ok (err e) = false

-- The orders that a sequence of presentations authorises under the nonce `k`.
pub orders_under : Platform → String → String → NonceRegistry → List Attempt → ℕ
orders_under lib secret k used [] = 0
orders_under lib secret k used (a ∷ rest) =
    let (r, used') = authorize lib (some a.verdict) a.hash secret a.now used in
    let later = orders_under lib secret k used' rest in
    if is_ok r && str_eq a.verdict.nonce k then suc later else later

module _ (lib : Platform) (secret k : String) where
  -- A nonce that is in the registry authorises nothing more.
  spent :
      (used : NonceRegistry) (attempts : List Attempt)
      → contains k used ≡ true
      → orders_under lib secret k used attempts ≡ 0
  unfolding orders_under
  spent used [] h = refl
  spent used (a ∷ rest) h = elim (authorize-cases lib a.verdict a.hash secret a.now used) [
    | inl (e, raised) ↦ rw raised (spent used rest h)
    | inr (accepts, passed) ↦ rw passed (
        ground
          (arith, accepts.fresh, eq_iff a.verdict.nonce k, spent (a.verdict.nonce ∷ used) rest))
  ]

  -- Whatever verdicts are presented, in whatever order and at whatever times, those that carry one
  -- nonce open the gate for one order at most.
  pub no_replay :
      (used : NonceRegistry) (attempts : List Attempt) → orders_under lib secret k used attempts ≤ 1
  unfolding orders_under
  no_replay used [] = omega arith
  no_replay used (a ∷ rest) = elim (authorize-cases lib a.verdict a.hash secret a.now used) [
    | inl (e, raised) ↦ rw raised (no_replay used rest)
    | inr (accepts, passed) ↦ rw passed (
        ground (
          arith,
          eq_iff a.verdict.nonce k,
          eq_iff k a.verdict.nonce,
          spent (a.verdict.nonce ∷ used) rest,
          no_replay (a.verdict.nonce ∷ used) rest,
        ))
  ]
