-- ===== src/Prelude/Results.antt =====
-- `Result` and the operator `?`, as a `do` block.
use mathlib.Core.Option.{Option, none, some}
use mathlib.Core.Bool.{Bool, true, false}
use mathlib.Core.Path.{◌≡◌, refl}

pub data Result {ℓf ℓv} (F : Type ℓf) (V : Type ℓv) : Type (ℓf ⊔ ℓv) where
  err : F → Result F V
  ok : V → Result F V

-- `if test { return Err(failure); }`
abbrev pub fail_if {ℓf} : {F : Type ℓf} → Bool → F → Result F (Unit {0})
fail_if false failure = ok tt
fail_if true failure = err failure

-- `option.ok_or(failure)`
abbrev pub ok_or {ℓf ℓv} : {F : Type ℓf} {V : Type ℓv} → Option V → F → Result F V
ok_or none failure = err failure
ok_or (some value) failure = ok value

-- `result.map_err(convert)`
abbrev pub map_err {ℓf ℓg ℓv} :
    {F : Type ℓf} {G : Type ℓg} {V : Type ℓv} → (F → G) → Result F V → Result G V
map_err convert (err failure) = err (convert failure)
map_err convert (ok value) = ok value

abbrev pub is_ok {ℓf ℓv} : {F : Type ℓf} {V : Type ℓv} → Result F V → Bool
is_ok (err _) = false
is_ok (ok _) = true

infixl 5 ◌>>=◌ ◌>>◌
abbrev pub ◌>>=◌ {ℓf ℓv ℓw} :
    {F : Type ℓf} {V : Type ℓv} {W : Type ℓw} → Result F V → (V → Result F W) → Result F W
err failure >>= rest = err failure
ok value >>= rest = rest value

abbrev pub ◌>>◌ {ℓf ℓw} :
    {F : Type ℓf} {W : Type ℓw} → Result F (Unit {0}) → Result F W → Result F W
check >> rest = check >>= (λ _. rest)

-- A chain that succeeds has succeeded in its first part, with the value that the rest was given.
pub >>=-eq-ok {ℓf ℓv ℓw} :
    {F : Type ℓf} {V : Type ℓv} {W : Type ℓw} (start : Result F V) (rest : V → Result F W) {w : W}
    → (start >>= rest) ≡ ok w
    → (value : V) × (start ≡ ok value) × (rest value ≡ ok w)
>>=-eq-ok (err failure) rest h = cc
>>=-eq-ok (ok value) rest h = (value, refl, h)
