-- ===== src/Prelude/Results.antt =====
-- Rust's `Result`, whose `?` is the bind of a `do` block.
use mathlib.Core.Path.{◌≡◌, refl}
use mathlib.Core.Bool.{Bool, true, false}
use mathlib.Core.Option.{Option, none, some}

pub data Result {ℓv} (Failure : Type 0) (Value : Type ℓv) : Type ℓv where
  err : Failure → Result Failure Value
  ok : Value → Result Failure Value

-- An error leaves at once; a value goes on into the rest.
infixl 5 ◌>>=◌ ◌>>◌
abbrev pub ◌>>=◌ {ℓv ℓw} :
    {Failure : Type 0} {Value : Type ℓv} {Next : Type ℓw}
    → Result Failure Value
    → (Value → Result Failure Next)
    → Result Failure Next
err failure >>= rest = err failure
ok value >>= rest = rest value

-- The value is the empty one.
abbrev pub ◌>>◌ {ℓw} :
    {Failure : Type 0} {Next : Type ℓw}
    → Result Failure (Unit {0})
    → Result Failure Next
    → Result Failure Next
first >> second = first >>= λ nothing. second

-- `if test { return Err(failure) }`.
abbrev pub fail_if : {Failure : Type 0} → Bool → Failure → Result Failure (Unit {0})
fail_if test failure = elim test [ true ↦ err failure | false ↦ ok tt ]

abbrev pub ok_or {ℓv} :
    {Failure : Type 0} {Value : Type ℓv} → Failure → Option Value → Result Failure Value
ok_or failure found = elim found [ none ↦ err failure | some value ↦ ok value ]

-- Where the whole succeeds, so did the first part.
pub >>=-eq-ok {ℓv ℓw} :
    {Failure : Type 0} {Value : Type ℓv} {Next : Type ℓw} (first : Result Failure Value)
    (rest : Value → Result Failure Next) {result : Next}
    → (first >>= rest) ≡ ok result
    → (value : Value) × (first ≡ ok value) × (rest value ≡ ok result)
>>=-eq-ok (err failure) rest h = absurd (cc)
>>=-eq-ok (ok value) rest h = (value, refl, h)
