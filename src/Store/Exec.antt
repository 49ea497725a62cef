-- ===== src/Store/Exec.antt =====
-- Methods of *FileStore that change the store and may fail: what was changed before an error stays.
use josefina.Prelude.{◌≡◌, ap}
use josefina.Store.Result.{Result, ok, err, panic}
use josefina.Store.FileStore.{FileStore}

abbrev pub Exec {ℓ} : Type ℓ → Type ℓ
Exec A = FileStore → Result A × FileStore

abbrev pub pure {ℓ} : {A : Type ℓ} → A → Exec A
pure a s = (ok a, s)

abbrev pub lift {ℓ} : {A : Type ℓ} → Result A → Exec A
lift r s = (r, s)

-- `f` goes on from a success.
abbrev pub continue {ℓ κ} : {A : Type ℓ} {B : Type κ} → Result A → (A → Exec B) → Exec B
continue (ok a) f s = f a s
continue (err e) f s = (err e, s)
continue panic f s = (panic, s)

infixl 5 ◌>>=◌ ◌>>◌
abbrev pub ◌>>=◌ {ℓ κ} : {A : Type ℓ} {B : Type κ} → Exec A → (A → Exec B) → Exec B
◌>>=◌ m f s = continue (m s).0 f (m s).1

abbrev pub ◌>>◌ {ℓ κ} : {A : Type ℓ} {B : Type κ} → Exec A → Exec B → Exec B
m >> n = m >>= λ _. n

abbrev pub modify : (FileStore → FileStore) → Exec (Unit {0})
modify f s = (ok tt, f s)

-- A step that succeeds hands its value and its state on.
pub >>=-of_ok {ℓ κ} :
    {A : Type ℓ} {B : Type κ} (m : Exec A) (f : A → Exec B) (s t : FileStore) (a : A)
    → m s ≡ (ok a, t)
    → (m >>= f) s ≡ f a t
>>=-of_ok m f s t a h = ap (λ p. continue p.0 f p.1) h
