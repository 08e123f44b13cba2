-- ===== src/Cipher.antt =====
-- The hook of `ResMan::load` of jni/obfuscate.c, which takes obfuscated assets from the cipher. The
-- cipher itself is not in the repository: `load_obfuscated` is `LoadObfuscatedAsset`, with the
-- asset's bytes. Paths are C strings without their NUL.
pub mod Choice
use kn_shim.Base.{
  Bool, true, false, not, ◌&&◌, ◌||◌, Option, none, some, [], ◌∷◌, ◌++◌, ◌==◌, if◌then◌else◌,
}
use kn_shim.Dict.Blob.{Bytes}
use kn_shim.Overlay.{Resources, mp3_suffix}

-- `!strncmp(str, prefix, strlen(prefix))`.
unfoldable pub cstr_starts_with : Bytes → Bytes → Bool
cstr_starts_with str [] = true
cstr_starts_with [] (p ∷ ps) = false
cstr_starts_with (c ∷ cs) (p ∷ ps) = (c == p) && cstr_starts_with cs ps

abbrev pub levels : Bytes
levels = b'l' ∷ b'e' ∷ b'v' ∷ b'e' ∷ b'l' ∷ b's' ∷ b'/' ∷ []

abbrev pub rooms : Bytes
rooms = b'r' ∷ b'o' ∷ b'o' ∷ b'm' ∷ b's' ∷ b'/' ∷ []

abbrev pub segments : Bytes
segments = b's' ∷ b'e' ∷ b'g' ∷ b'm' ∷ b'e' ∷ b'n' ∷ b't' ∷ b's' ∷ []

abbrev pub user_scheme : Bytes
user_scheme = b'u' ∷ b's' ∷ b'e' ∷ b'r' ∷ b':' ∷ b'/' ∷ b'/' ∷ []

abbrev pub http_scheme : Bytes
http_scheme = b'h' ∷ b't' ∷ b't' ∷ b'p' ∷ b':' ∷ b'/' ∷ b'/' ∷ []

-- The condition for the game to load the asset; whether CIPHER_ENCRYPT_ALL is defined.
unfoldable pub left_to_game : Bool → Bytes → Bool
unfolding cstr_starts_with
left_to_game true cc_path =
    cstr_starts_with cc_path user_scheme || cstr_starts_with cc_path http_scheme
left_to_game false cc_path =
    not (cstr_starts_with cc_path levels)
    && (not (cstr_starts_with cc_path rooms) && not (cstr_starts_with cc_path segments))

module _ (res : Resources) (load_obfuscated : Bytes → Option Bytes) where
  open res use {Output, resman_load, write_buffer}

  -- What was found, or the game's load.
  unfoldable pub write_asset : Option Bytes → Bytes → Output → Output × Bool
  write_asset none path output = resman_load path output
  write_asset (some asset) path output = (write_buffer output asset, true)

  -- The second try has ".mp3" behind the path.
  unfoldable pub find_asset : Bytes → Option Bytes
  find_asset cc_path = elim (load_obfuscated cc_path) [
    | some asset ↦ some asset
    | none ↦ load_obfuscated (cc_path ++ mp3_suffix)
  ]

  unfoldable pub resman_load_hook : Bool → Bytes → Output → Output × Bool
  unfolding left_to_game write_asset find_asset
  resman_load_hook encrypt_all cc_path output =
      if left_to_game encrypt_all cc_path
      then resman_load cc_path output
      else write_asset (find_asset cc_path) cc_path output
