-- ===== src/Common/Errors.antt =====
-- Go errors, and what a function returns that may fail with one.
use Prim.Native.String.{String}
use mathlib.Core.List.{[], ◌++◌}
use titan_distributed_kv.Common.Equality.{Bytes, codes}

-- A Go `error`: `errors.New(text)`, or `fmt.Errorf("text: %w", err)`, or a name within a text,
-- as in `fmt.Errorf("text %s", name)`. Two are no Go errors: `stuck` is
-- a loop that ran out of the fuel of the model, `panic` a run-time panic.
pub data Error : Type 0 where
  new : String → Error
  wrap : String → Error → Error
  named : String → Bytes → String → Error
  wrap_named : String → Bytes → Error → Error
  stuck : Error
  panic : Error

pub data Result {ℓ} (A : Type ℓ) : Type ℓ where
  ok : A → Result A
  err : Error → Result A

-- `err.Error()`, in bytes
unfoldable pub text : Error → Bytes
text (new message) = codes message
text (named before name after) = codes before ++ (name ++ codes after)
text (wrap message e) = codes message ++ codes ": " ++ text e
text (wrap_named before name e) = codes before ++ (name ++ (codes ": " ++ text e))
text stuck = []
text panic = []
