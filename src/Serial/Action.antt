-- ===== src/Serial/Action.antt =====
-- The actions of the host process on its standard streams (src/host/ipc/serial-channel.cpp): a
-- `std::runtime_error` or a write out of bounds ends the action, and the streams come back too.
use wasivst.Prelude.{ℕ, ◌≡◌, refl, ap, ◌⊎◌, inl, inr, List}

-- What a `SerialChannel` reads from and writes to.
pub record Channel : Type 0 where
  pub input : List ℕ
  pub output : List ℕ

-- `eof` is the exception that `read_bytes` throws, `out_of_bounds` an access beside a buffer; the
-- others are thrown while the host process starts.
pub data Fault : Type 0 where
  eof out_of_bounds expected_load lib_open_failed no_entry_point null_effect : Fault

pub data Result {ℓ} (A : Type ℓ) : Type ℓ where
  ok : A → Result A
  err : Fault → Result A

abbrev pub Io {ℓ} : Type ℓ → Type ℓ
Io A = Channel → Result A × Channel

module _ {ℓ} {A : Type ℓ} where
  abbrev pub pure : A → Io A
  pure a c = (ok a, c)

  abbrev pub raise : Fault → Io A
  raise e c = (err e, c)

module _ {ℓ κ} {A : Type ℓ} {B : Type κ} where
  abbrev pub continue : Result A → (A → Io B) → Io B
  continue (ok a) f c = f a c
  continue (err e) f c = (err e, c)

  infixl 5 ◌>>=◌
  abbrev pub ◌>>=◌ : Io A → (A → Io B) → Io B
  ◌>>=◌ m f c = let (r, c') = m c in continue r f c'

infixl 5 ◌>>◌
abbrev pub ◌>>◌ {ℓ} : {B : Type ℓ} → Io (Unit {0}) → Io B → Io B
m >> k = m >>= λ _. k

-- An action that succeeds is followed by what comes after it.
pub bind_ok {ℓ κ} :
    {A : Type ℓ} {B : Type κ} (m : Io A) (f : A → Io B) {c c' : Channel} {a : A}
    → m c ≡ (ok a, c')
    → (m >>= f) c ≡ f a c'
bind_ok m f e = rw e

-- A fault ends the sequence.
pub bind_err {ℓ κ} :
    {A : Type ℓ} {B : Type κ} (m : Io A) (f : A → Io B) {c c' : Channel} {e : Fault}
    → m c ≡ (err e, c')
    → (m >>= f) c ≡ (err e, c')
bind_err m f e = rw e

Result-cases {ℓ} :
    {A : Type ℓ} (r : Result A) → ((a : A) × (r ≡ ok a)) ⊎ ((e : Fault) × (r ≡ err e))
Result-cases (ok a) = inl (a, refl)
Result-cases (err e) = inr (e, refl)

-- What an action that returned or raised gives, with the streams that it left.
pub Io-cases {ℓ} :
    {A : Type ℓ} (m : Io A) (c : Channel)
    → ((a : A) × (m c ≡ (ok a, (m c).1))) ⊎ ((e : Fault) × (m c ≡ (err e, (m c).1)))
Io-cases m c = elim (Result-cases (m c).0) [
  | inl (a, p) ↦ inl (a, ap (λ r. (r, (m c).1)) p)
  | inr (e, p) ↦ inr (e, ap (λ r. (r, (m c).1)) p)
]
