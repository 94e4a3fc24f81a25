-- ===== src/Run.antt =====
-- Error codes (libs/archive-rw/zip.h, zip_err_str.c), and functions that allocate and can fail.
use allvm_tools.Base.{ℕ, zero, suc, refl, ◌≡◌}

-- `ZIP_ER_*`, in the order of zip.h.
pub data Code : Type 0 where
  er_ok er_multidisk er_rename er_close er_seek er_read er_write er_crc er_zipclosed : Code
  er_noent er_exists er_open er_tmpopen er_zlib er_memory er_changed er_compnotsupp : Code
  er_eof er_inval er_nozip er_internal er_incons er_remove er_deleted er_encrnotsupp : Code
  er_rdonly er_nopasswd er_wrongpasswd er_opnotsupp er_inuse er_tell er_compressed_data : Code

pub data Result {ℓ} (A : Type ℓ) : Type ℓ where
  ok : A → Result A
  err : Code → Result A

-- A call of a function that allocates is given the number of calls of `malloc` that still succeed.
-- Each function here gives up at the first that fails, so this covers every pattern of failures.
abbrev pub Run {ℓ} : Type ℓ → Type ℓ
Run A = ℕ → Result (A × ℕ)

infixl 5 ◌>>=◌ ◌>>◌
abbrev pub ◌>>=◌ {ℓ κ} : {A : Type ℓ} {B : Type κ} → Run A → (A → Run B) → Run B
◌>>=◌ m f mem = elim (m mem) [ ok (a, mem') ↦ f a mem' | err e ↦ err e ]

abbrev pub ◌>>◌ {ℓ} : {B : Type ℓ} → Run (Unit {0}) → Run B → Run B
m >> k = m >>= λ _. k

abbrev pub return {ℓ} : {A : Type ℓ} → A → Run A
return a mem = ok (a, mem)

abbrev pub throw {ℓ} : {A : Type ℓ} → Code → Run A
throw e mem = err e

-- A failure of `malloc` ends in ZIP_ER_MEMORY in every caller that is modelled so.
abbrev pub malloc : Run (Unit {0})
malloc zero = err er_memory
malloc (suc mem) = ok (tt, mem)

-- A step that succeeds.
pub >>=-ok {ℓ κ} :
    {A : Type ℓ} {B : Type κ} (m : Run A) (f : A → Run B) {mem mem' : ℕ} {a : A}
    → m mem ≡ ok (a, mem')
    → (m >>= f) mem ≡ f a mem'
>>=-ok m f e = rw (e, ◌>>=◌)

-- A chain that succeeds.
pub >>=-inv {ℓ κ} :
    {A : Type ℓ} {B : Type κ} (m : Run A) (f : A → Run B) {mem mem'' : ℕ} {b : B}
    → (m >>= f) mem ≡ ok (b, mem'')
    → (a : A) × (mem' : ℕ) × (m mem ≡ ok (a, mem')) × (f a mem' ≡ ok (b, mem''))
>>=-inv {A} {B} m f {mem} {mem''} {b} = go (m mem)
  where
    go :
        (r : Result (A × ℕ))
        → elim r as (λ _. Result (B × ℕ)) [ ok (a, mem') ↦ f a mem' | err e ↦ err e ]
          ≡ ok (b, mem'')
        → (a : A) × (mem' : ℕ) × (r ≡ ok (a, mem')) × (f a mem' ≡ ok (b, mem''))
    go (ok (a, mem')) h = (a, mem', refl, h)
    go (err e) h = cc
