-- ===== src/Storage/Exec.antt =====
-- Methods of the storage engine: they change the engine and the directory, and may return an error.
-- What was changed before an error stays changed.
use titan_distributed_kv.Common.{ℕ, Bytes, Bool, Option, String, if◌then◌else◌}
use titan_distributed_kv.Common.Maps.{Map}
use titan_distributed_kv.Storage.Disk.{Disk, Handle, Error, wrap, Result, ok, err}

-- RecordLocation
pub record RecordLocation : Type 0 where
  pub file_id : ℕ
  pub offset : ℕ
  pub size : ℕ

abbrev pub KeyDir : Type 0
KeyDir = Map Bytes RecordLocation

-- Bitcask, without its mutex: a method holds it from the first line to the last, so a method is one
-- step. The directory itself is the `Disk`.
pub record Bitcask : Type 0 where
  pub key_dir : KeyDir
  pub current_file_id : ℕ
  pub current_file : Option Handle
  pub current_offset : ℕ
  pub max_file_size : ℕ

pub record Store : Type 0 where
  pub bitcask : Bitcask
  pub disk : Disk

abbrev pub M {ℓ} : Type ℓ → Type ℓ
M A = Store → Result A × Store

abbrev pub continue {ℓ κ} :
    {A : Type ℓ} {B : Type κ} → Result A × Store → (A → M B) → Result B × Store
continue (ok a, s) f = f a s
continue (err e, s) f = (err e, s)

infixl 5 ◌>>=◌ ◌>>◌
abbrev pub ◌>>=◌ {ℓ κ} : {A : Type ℓ} {B : Type κ} → M A → (A → M B) → M B
◌>>=◌ m f s = continue (m s) f

abbrev pub ◌>>◌ {ℓ} : {B : Type ℓ} → M (Unit {0}) → M B → M B
m >> k = m >>= λ _. k

abbrev pub pure {ℓ} : {A : Type ℓ} → A → M A
pure a s = (ok a, s)

abbrev pub fail {ℓ} : {A : Type ℓ} → Error → M A
fail e s = (err e, s)

abbrev pub gets {ℓ} : {A : Type ℓ} → (Bitcask → A) → M A
gets f s = (ok (f s.bitcask), s)

abbrev pub modify : (Bitcask → Bitcask) → M (Unit {0})
modify f s = (ok tt, record s { bitcask = f s.bitcask })

abbrev pub on_disk {ℓ} : {A : Type ℓ} → (Disk → Result A × Disk) → M A
on_disk f s = let (r, d) = f s.disk in (r, record s { disk = d })

abbrev wrap_result {ℓ} : {A : Type ℓ} → String → Result A → Result A
wrap_result text (ok a) = ok a
wrap_result text (err e) = err (wrap text e)

-- `if err := m; err != nil { return fmt.Errorf("text: %w", err) }`
abbrev pub wrapping {ℓ} : {A : Type ℓ} → String → M A → M A
wrapping text m s = let (r, s') = m s in (wrap_result text r, s')

abbrev pub when : Bool → M (Unit {0}) → M (Unit {0})
when b m = if b then m else pure tt

-- `m` with its error dropped
abbrev pub ignoring {ℓ} : {A : Type ℓ} → M A → M (Unit {0})
ignoring m s = (ok tt, (m s).1)
