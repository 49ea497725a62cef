-- ===== src/Dbs/Step.antt =====
-- Methods of internal/dbs and pkg/jdb that change a state `S` and may fail: what was changed before
-- an error stays.
use josefina.Prelude.{◌≡◌, refl, ap}
use josefina.Store.Result.{Result, ok, err, panic}

abbrev pub Step {ℓ} : Type 0 → Type ℓ → Type ℓ
Step S A = S → Result A × S

abbrev pub pure {ℓ} : {S : Type 0} {A : Type ℓ} → A → Step S A
pure a s = (ok a, s)

abbrev pub lift {ℓ} : {S : Type 0} {A : Type ℓ} → Result A → Step S A
lift r s = (r, s)

abbrev pub modify : {S : Type 0} → (S → S) → Step S (Unit {0})
modify f s = (ok tt, f s)

-- `f` goes on from a success.
abbrev pub continue {ℓ κ} :
    {S : Type 0} {A : Type ℓ} {B : Type κ} → Result A → (A → Step S B) → Step S B
continue (ok a) f s = f a s
continue (err e) f s = (err e, s)
continue panic f s = (panic, s)

infixl 5 ◌>>=◌ ◌>>◌
abbrev pub ◌>>=◌ {ℓ κ} :
    {S : Type 0} {A : Type ℓ} {B : Type κ} → Step S A → (A → Step S B) → Step S B
◌>>=◌ m f s = continue (m s).0 f (m s).1

abbrev pub ◌>>◌ {ℓ κ} : {S : Type 0} {A : Type ℓ} {B : Type κ} → Step S A → Step S B → Step S B
m >> n = m >>= λ _. n

-- What two steps in a row keep, where each keeps it.
abbrev pub Keeps {ℓ} : {S : Type 0} {A : Type ℓ} → (S → Type 0) → Step S A → Type 0
Keeps {S = S} P f = (s : S) → P s → P (f s).1

pub continue-Keeps {ℓ κ} :
    {S : Type 0} {A : Type ℓ} {B : Type κ} (P : S → Type 0) (r : Result A) (f : A → Step S B)
    (s : S)
    → P s
    → ((a : A) → Keeps P (f a))
    → P (continue r f s).1
continue-Keeps P (ok a) f s h k = k a s h
continue-Keeps P (err e) f s h k = h
continue-Keeps P panic f s h k = h

pub bind-Keeps {ℓ κ} :
    {S : Type 0} {A : Type ℓ} {B : Type κ} (P : S → Type 0) (x : Step S A) (f : A → Step S B)
    → Keeps P x
    → ((a : A) → Keeps P (f a))
    → Keeps P (x >>= f)
bind-Keeps P x f h k s e = continue-Keeps P (x s).0 f (x s).1 (h s e) k

-- A success of two steps in a row is one of each.
pub continue-ok {ℓ κ} :
    {S : Type 0} {A : Type ℓ} {B : Type κ} (r : Result A) (f : A → Step S B) (s : S) (b : B)
    → (continue r f s).0 ≡ ok b
    → (a : A) × (r ≡ ok a) × ((f a s).0 ≡ ok b)
continue-ok (ok a) f s b h = (a, refl, h)
continue-ok (err e) f s b h = absurd (cc)
continue-ok panic f s b h = absurd (cc)

pub continue-at {ℓ κ} :
    {S : Type 0} {A : Type ℓ} {B : Type κ} (r : Result A) (f : A → Step S B) (s : S) (a : A)
    → r ≡ ok a
    → continue r f s ≡ f a s
continue-at r f s a h = ap (λ r. continue r f s) h
