-- ===== src/Error.antt =====
-- gtv-core/src/error.rs: the error type of the core crates, and the `?` chain of their results.
use Prim.Native.String.{String}
use gtvdb.Base.{ℕ, Bool, true, false, ◌≡◌, refl, ◌⊎◌, inl, inr, arith}

-- `Arrow` carries an error of the arrow crate, which no operation of the model raises.
pub data GtvError : Type 0 where
  arrow : GtvError
  invalid_argument : String → GtvError
  schema : String → GtvError
  node_out_of_range : ℕ → GtvError

pub data Result {ℓ} (A : Type ℓ) : Type ℓ where
  ok : A → Result A
  err : GtvError → Result A

-- `?`: the first error ends the chain.
infixl 5 ◌>>=◌
abbrev pub ◌>>=◌ {ℓ κ} : {T : Type ℓ} {U : Type κ} → Result T → (T → Result U) → Result U
err failure >>= next = err failure
ok value >>= next = next value

abbrev pub is_ok {ℓ} : {A : Type ℓ} → Result A → Bool
is_ok (ok a) = true
is_ok (err e) = false

pub Result-cases {ℓ} :
    {A : Type ℓ} (r : Result A) → ((a : A) × (r ≡ ok a)) ⊎ ((e : GtvError) × (r ≡ err e))
Result-cases (ok a) = inl (a, refl)
Result-cases (err e) = inr (e, refl)

pub is_ok-value {ℓ} : {A : Type ℓ} (r : Result A) → is_ok r ≡ true → (a : A) × (r ≡ ok a)
is_ok-value (ok a) h = (a, refl)
is_ok-value (err e) h = absurd (ground arith)

pub >>=-eq-ok {ℓ κ} :
    {T : Type ℓ} {U : Type κ} (first : Result T) (next : T → Result U) {u : U}
    → (first >>= next) ≡ ok u
    → (value : T) × (first ≡ ok value) × (next value ≡ ok u)
>>=-eq-ok (err failure) next h = cc
>>=-eq-ok (ok value) next h = (value, refl, h)
