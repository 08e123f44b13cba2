-- ===== src/Http.antt =====
-- The script functions on HTTP requests, of jni/http.c. The HTTP library (jni/extern/http.h) is
-- third-party code and a parameter. A script holds a request by a userdata, a block of memory with
-- one pointer; a script may hold one block several times, so the blocks are a store of their own
-- and a userdata is the number of its block. `none` is undefined behaviour.
pub mod Handlers
pub mod Release
pub mod ExtractNx
use kn_shim.Base.{ℕ, zero, suc, Option, none, some, List, [], ◌∷◌, ◌≡◌, refl}
use kn_shim.Dict.Blob.{Bytes}
use kn_shim.Lua.{Lua}

pub data Status : Type 0 where
  pending : Status
  completed : Status
  failed : Status

-- The calls of the library, on the state of the network and of all requests.
pub record HttpLib : Type 1 where
  pub Net : Type 0
  pub Request : Type 0
  pub http_get : Net → Bytes → Net × Option Request
  -- A body that is NULL has the size 0.
  pub http_post : Net → Bytes → Option Bytes → Net × Option Request
  pub http_process : Net → Request → Net × Status
  pub status : Net → Request → Status
  pub response_data : Net → Request → Bytes
  pub response_size : Net → Request → ℕ
  -- C strings, NULL where there is none.
  pub content_type : Net → Request → Option Bytes
  pub reason_phrase : Net → Request → Option Bytes
  pub status_code : Net → Request → ℕ
  -- NULL is not allowed, nor a request that was released.
  pub http_release : Net → Option Request → Option Net

-- The block that a userdata is, `none` for other values; and a new userdata on the stack.
pub record Userdata (lua : Lua) : Type 0 where
  pub touserdata : lua.State → ℕ → Option ℕ
  pub newuserdata : lua.State → ℕ → lua.State

-- KN_HTTP_PENDING, KN_HTTP_DONE and KN_HTTP_ERROR.
unfoldable pub status_number : Status → ℕ
status_number pending = 1
status_number completed = 2
status_number failed = 3

-- The pointer in a block; no block is outside the store.
abbrev pub pointer {ℓ} : {A : Type ℓ} → List (Option A) → ℕ → Option A
pointer [] i = none
pointer (p ∷ ps) zero = p
pointer (p ∷ ps) (suc i) = pointer ps i

abbrev pub put_pointer {ℓ} : {A : Type ℓ} → List (Option A) → ℕ → Option A → List (Option A)
put_pointer [] i x = []
put_pointer (p ∷ ps) zero x = x ∷ ps
put_pointer (p ∷ ps) (suc i) x = p ∷ put_pointer ps i x

module _ {ℓ} {A : Type ℓ} where
  pub pointer-put_pointer :
      (ps : List (Option A)) (i : ℕ) → pointer (put_pointer ps i none) i ≡ none
  pointer-put_pointer [] i = refl
  pointer-put_pointer (p ∷ ps) zero = refl
  pointer-put_pointer (p ∷ ps) (suc i) = pointer-put_pointer ps i
