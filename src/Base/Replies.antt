-- ===== src/Base/Replies.antt =====
-- What an awaited call comes back with: a value, or an error whose message is a text.
use Prim.Native.String.{String}

pub data Reply {ℓ} (A : Type ℓ) : Type ℓ where
  ok : A → Reply A
  failed : String → Reply A

-- A `catch` that goes on with a value of its own.
abbrev pub or_else {ℓ} : {A : Type ℓ} → Reply A → A → A
or_else (ok a) d = a
or_else (failed m) d = d
