-- ===== src/Store/Result.antt =====
-- The (value, error) pairs of internal/store. `panic` stands for a Go run-time panic.
use josefina.Prelude.{ℕ, ◌≡◌, refl, subst, ◌⊎◌, inl, inr, Bool, true, false, if◌then◌else◌}

-- The error values that internal/store and internal/dbs return; `eof` and `closed` are those of
-- os.File.ReadAt, and `callback` those of functions that a caller hands in.
pub data Error : Type 0 where
  invalid_id_length data_too_large corrupted_record id_is_required : Error
  invalid_snapshot snapshot_corrupted invalid_snapshot_magic : Error
  eof closed marshal_failed unmarshal_failed : Error
  model_is_nil model_not_found not_data field_required field_not_found arg_required : Error
  store_not_found record_exists record_not_found primary_keys_not_found : Error
  foreign_key_not_found violate_foreign_key index_not_defined transaction_not_found : Error
  node_not_started db_not_found authentication_failed rpc_failed : Error
  callback : ℕ → Error

pub data Result {ℓ} (V : Type ℓ) : Type ℓ where
  panic : Result V
  err : Error → Result V
  ok : V → Result V

infixl 5 ◌>>=◌
abbrev pub ◌>>=◌ {ℓ κ} : {V : Type ℓ} {W : Type κ} → Result V → (V → Result W) → Result W
panic >>= next = panic
err failure >>= next = err failure
ok v >>= next = next v

pub ok-injective {ℓ} : {A : Type ℓ} {a b : A} → ok a ≡ ok b → a ≡ b
ok-injective h = cc

-- The second result is the first one, where the first is a success.
pub record Follows {ℓ} {A : Type ℓ} (m n : Result A) : Type ℓ where
  pub at : (a : A) → m ≡ ok a → n ≡ ok a

pub Follows-refl {ℓ} : {A : Type ℓ} (m : Result A) → Follows m m
Follows-refl m = record { at = λ a h. h }

continue-ok {ℓ κ} :
    {A : Type ℓ} {B : Type κ} (m n : Result A) (f g : A → Result B) (b : B)
    → Follows m n
    → ((a : A) → Follows (f a) (g a))
    → (m >>= f) ≡ ok b
    → (n >>= g) ≡ ok b
continue-ok (ok a) n f g b p q h = rw (p.at a refl) ((q a).at b h)
continue-ok (err e) n f g b p q h = cc
continue-ok panic n f g b p q h = cc

pub Follows-bind {ℓ κ} :
    {A : Type ℓ} {B : Type κ} (m n : Result A) (f g : A → Result B)
    → Follows m n
    → ((a : A) → Follows (f a) (g a))
    → Follows (m >>= f) (n >>= g)
Follows-bind m n f g p q = record { at = λ b. continue-ok m n f g b p q }

pub Follows-if {ℓ} :
    {A : Type ℓ} (b : Bool) (m n m' n' : Result A)
    → Follows m n
    → Follows m' n'
    → Follows (if b then m else m') (if b then n else n')
Follows-if true m n m' n' p q = p
Follows-if false m n m' n' p q = q

pub Result-cases {ℓ} :
    {A : Type ℓ} (m : Result A)
    → ((a : A) × (m ≡ ok a)) ⊎ (((e : Error) × (m ≡ err e)) ⊎ (m ≡ panic))
Result-cases (ok a) = inl (a, refl)
Result-cases (err e) = inr (inl (e, refl))
Result-cases panic = inr (inr refl)

-- A postcondition on success, with the equations of the steps at hand.
pub record Ensures {ℓ} {A : Type ℓ} (P : A → Type 0) (m : Result A) : Type ℓ where
  pub at : (a : A) → m ≡ ok a → P a

pub Ensures-ok {ℓ} : {A : Type ℓ} {P : A → Type 0} (a : A) → P a → Ensures P (ok a)
Ensures-ok {P} a p = record { at = λ b h. subst P (ok-injective h) p }

pub Ensures-err {ℓ} : {A : Type ℓ} {P : A → Type 0} (e : Error) → Ensures P (err e)
Ensures-err e = record { at = λ b h. cc }

pub Ensures-bind {ℓ κ} :
    {A : Type ℓ} {B : Type κ} {P : B → Type 0} (m : Result A) (f : A → Result B)
    → ((a : A) → m ≡ ok a → Ensures P (f a))
    → Ensures P (m >>= f)
Ensures-bind (ok a) f q = q a refl
Ensures-bind (err e) f q = Ensures-err e
Ensures-bind panic f q = record { at = λ b h. cc }

pub Ensures-if {ℓ} :
    {A : Type ℓ} {P : A → Type 0} (b : Bool) (m n : Result A)
    → (b ≡ true → Ensures P m)
    → (b ≡ false → Ensures P n)
    → Ensures P (if b then m else n)
Ensures-if true m n p q = p refl
Ensures-if false m n p q = q refl

-- A success under a guard that fails otherwise
pub guard_ok {ℓ} :
    {A : Type ℓ} {a : A} (b : Bool) (m : Result A) (e : Error)
    → (if b then m else err e) ≡ ok a
    → (b ≡ true) × (m ≡ ok a)
guard_ok true m e h = (refl, h)
guard_ok false m e h = absurd (cc)

pub guard_not_ok {ℓ} :
    {A : Type ℓ} {a : A} (b : Bool) (m : Result A) (e : Error)
    → (if b then err e else m) ≡ ok a
    → (b ≡ false) × (m ≡ ok a)
guard_not_ok true m e h = absurd (cc)
guard_not_ok false m e h = (refl, h)
