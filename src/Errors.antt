-- ===== src/Errors.antt =====
-- The application's errors (backend/app/errors.py), and results that may be one.
use comfyui_image_frontend.Prelude.{
  Option, none, some, ℕ, String, List, [], Bool, true, false, ◌≡◌, refl, ◌⊎◌, inl, inr,
  if◌then◌else◌,
}

-- `fields` maps a form field to its message; `details` is never set on the paths modelled here.
pub record AppError : Type 0 where
  pub code : String
  pub message : String
  pub status_code : ℕ
  pub fields : List (String × String)

-- What a function returns, or the error that it raises.
pub data Result {ℓ} (A : Type ℓ) : Type ℓ where
  raised : AppError → Result A
  ok : A → Result A

-- A check that raises on a bad request: `if bad: raise AppError(...)`.
abbrev pub raise_if : Bool → AppError → Result (Unit {0})
raise_if bad error = if bad then raised error else ok tt

abbrev pub app_error : String → String → ℕ → AppError
app_error c m s = record { code = c; message = m; status_code = s; fields = [] }

-- The `do` blocks of results: the first error is the result.
infixl 5 ◌>>=◌
abbrev pub ◌>>=◌ {ℓ κ} : {A : Type ℓ} {B : Type κ} → Result A → (A → Result B) → Result B
r >>= next = elim r [ raised error ↦ raised error | ok a ↦ next a ]

infixl 5 ◌>>◌
abbrev pub ◌>>◌ {κ} : {B : Type κ} → Result (Unit {0}) → Result B → Result B
check >> next = elim check [ raised error ↦ raised error | ok _ ↦ next ]

pub Result-cases {ℓ} :
    {A : Type ℓ} (r : Result A) → ((e : AppError) × (r ≡ raised e)) ⊎ ((a : A) × (r ≡ ok a))
Result-cases (raised e) = inl (e, refl)
Result-cases (ok a) = inr (a, refl)

pub bind-ok {ℓ κ} :
    {A : Type ℓ} {B : Type κ} (r : Result A) (next : A → Result B) {b : B}
    → r >>= next ≡ ok b
    → (a : A) × (r ≡ ok a) × (next a ≡ ok b)
bind-ok (raised e) next h = cc
bind-ok (ok a) next h = (a, refl, h)

pub ok_inj {ℓ} : {A : Type ℓ} {a b : A} → ok a ≡ ok b → a ≡ b
ok_inj h = cc

pub raise_if-ok {ℓ} :
    {A : Type ℓ} (bad : Bool) (e : AppError) (rest : Result A) {b : A}
    → (raise_if bad e >> rest) ≡ ok b
    → (bad ≡ false) × (rest ≡ ok b)
raise_if-ok true e rest h = cc
raise_if-ok false e rest h = (refl, h)

-- What a function returns, or the message of the exception that it raises.
pub data Checked {ℓ} (A : Type ℓ) : Type ℓ where
  fault : String → Checked A
  fine : A → Checked A

-- `if bad: raise ValueError(message)`, and then the rest
abbrev pub fault_if {ℓ} : {A : Type ℓ} → Bool → String → Checked A → Checked A
fault_if bad message rest = if bad then fault message else rest

abbrev pub and_then {ℓ κ} : {A : Type ℓ} {B : Type κ} → Checked A → (A → Checked B) → Checked B
and_then r next = elim r [ fault message ↦ fault message | fine a ↦ next a ]

pub and_then-fine {ℓ κ} :
    {A : Type ℓ} {B : Type κ} (r : Checked A) (next : A → Checked B) {b : B}
    → and_then r next ≡ fine b
    → (a : A) × (r ≡ fine a) × (next a ≡ fine b)
and_then-fine (fault message) next h = cc
and_then-fine (fine a) next h = (a, refl, h)

pub fault_if-fine {ℓ} :
    {A : Type ℓ} (bad : Bool) (message : String) (rest : Checked A) {b : A}
    → fault_if bad message rest ≡ fine b
    → (bad ≡ false) × (rest ≡ fine b)
fault_if-fine true message rest h = cc
fault_if-fine false message rest h = (refl, h)

pub fine_inj {ℓ} : {A : Type ℓ} {a b : A} → fine a ≡ fine b → a ≡ b
fine_inj h = cc

-- A value that has to be there
abbrev pub or_fault {ℓ κ} :
    {A : Type ℓ} {B : Type κ} → Option A → String → (A → Checked B) → Checked B
or_fault o message next = elim o [ none ↦ fault message | some a ↦ next a ]

pub or_fault-fine {ℓ κ} :
    {A : Type ℓ} {B : Type κ} (o : Option A) (message : String) (next : A → Checked B) {b : B}
    → or_fault o message next ≡ fine b
    → (a : A) × (o ≡ some a) × (next a ≡ fine b)
or_fault-fine none message next h = cc
or_fault-fine (some a) message next h = (a, refl, h)
