-- ===== src/Outcome.antt =====
-- How a Go call can end: it returns, or it panics (a nil dereference, a call of `panic`). A pair
-- `(value, error)` that it returns is a `Result`.
use bftraft4go.Prelude.{◌≡◌, refl, subst, ◌⊎◌, inl, inr}

pub data Outcome {ℓ} (A : Type ℓ) : Type ℓ where
  done : A → Outcome A
  panicked : Outcome A

infixl 5 ◌>>=◌
abbrev pub ◌>>=◌ {ℓ κ} : {A : Type ℓ} {B : Type κ} → Outcome A → (A → Outcome B) → Outcome B
done a >>= f = f a
panicked >>= f = panicked

-- Inversion of a sequence of calls that returns.
pub >>=-eq-done {ℓ κ} :
    {A : Type ℓ} {B : Type κ} (m : Outcome A) (f : A → Outcome B) {b : B}
    → (m >>= f) ≡ done b
    → (a : A) × (m ≡ done a) × (f a ≡ done b)
>>=-eq-done (done a) f h = (a, refl, h)
>>=-eq-done panicked f h = cc

-- What holds of a value that is returned holds of the value that was returned.
pub along_done {ℓ κ} : {A : Type ℓ} (P : A → Type κ) (a b : A) → done a ≡ done b → P a → P b
along_done P a b e p = let same : a ≡ b = cc (e) in subst P same p

-- The errors that the program makes; `store_error` and `codec_error` are those of its libraries.
pub data GoError : Type 0 where
  hash_mismatch log_existed store_error codec_error : GoError
  no_host_or_group term_behind not_enough_votes leader_mismatch : GoError
  no_leader_key prev_term_mismatch : GoError
  cannot_find_group : GoError
  no_leader no_group_hosts no_response remote_error timeout unexpected : GoError

pub data Result {ℓ} (A : Type ℓ) : Type ℓ where
  ok : A → Result A
  err : GoError → Result A

pub Result-cases {ℓ} :
    {A : Type ℓ} (r : Result A) → ((e : GoError) × (r ≡ err e)) ⊎ ((a : A) × (r ≡ ok a))
Result-cases (ok a) = inr (a, refl)
Result-cases (err e) = inl (e, refl)
