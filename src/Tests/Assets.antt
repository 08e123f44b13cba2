-- ===== src/Tests/Assets.antt =====
-- The cipher's hook, with one obfuscated asset.
use kn_shim.Base.{◌≡◌, ◌⊎◌, true, false, Option, none, some, [], ◌∷◌, ◌++◌, if◌then◌else◌}
use kn_shim.Cipher.{resman_load_hook}
use kn_shim.Cipher.Choice.{first_present, ForGame, ForCipher, resman_load_hook-first_present}
use kn_shim.Dict.Blob.{Bytes, bytes_eq}
use kn_shim.Overlay.{mp3_suffix}
use kn_shim.Tests.Machine.{test_resources}

abbrev room : Bytes
room = b'r' ∷ b'o' ∷ b'o' ∷ b'm' ∷ b's' ∷ b'/' ∷ b'a' ∷ []

abbrev test_cipher : Bytes → Option Bytes
test_cipher path = if bytes_eq path (room ++ mp3_suffix) then some (7 ∷ []) else none

resman_load_hook-first_present_example :
    (ForGame false room × (resman_load_hook test_resources test_cipher false room [] ≡ ([], false)))
    ⊎ (ForCipher false room
        × (resman_load_hook test_resources test_cipher false room []
            ≡ elim (first_present test_cipher (room ∷ (room ++ mp3_suffix) ∷ [])) [
              | some text ↦ (text, true)
              | none ↦ ([], false)
            ]))
resman_load_hook-first_present_example =
    resman_load_hook-first_present test_resources test_cipher false room []
