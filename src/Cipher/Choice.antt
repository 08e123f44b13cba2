-- ===== src/Cipher/Choice.antt =====
-- Which assets come from the cipher, in the hook of jni/obfuscate.c.
use kn_shim.Base.{
  ◌≡◌, ◌≢◌, refl, ◌⊎◌, inl, inr, Bool, true, false, Bool-cases, Option, none, some, Option-cases,
  List, [], ◌∷◌, ◌++◌, ◌==◌, arith,
}
use kn_shim.Dict.Blob.{Bytes}
use kn_shim.Overlay.{Resources, mp3_suffix}
use kn_shim.Cipher.{
  cstr_starts_with, levels, rooms, segments, user_scheme, http_scheme, left_to_game, write_asset,
  find_asset, resman_load_hook,
}

-- The first of the names that is there.
unfoldable pub first_present : (Bytes → Option Bytes) → List Bytes → Option Bytes
first_present find [] = none
first_present find (name ∷ names) = elim (find name) [
  | none ↦ first_present find names
  | some text ↦ some text
]

-- A path with one of the prefixes.
unfoldable pub Prefixed : Bytes → Bytes → Type 0
Prefixed prefix path = (rest : Bytes) × (path ≡ prefix ++ rest)

unfoldable pub Unprefixed : Bytes → Bytes → Type 0
Unprefixed prefix path = (rest : Bytes) → path ≢ prefix ++ rest

-- The test for a prefix is right.
starts-cases :
    (path prefix : Bytes)
    → ((cstr_starts_with path prefix ≡ true) × Prefixed prefix path)
      ⊎ ((cstr_starts_with path prefix ≡ false) × Unprefixed prefix path)
unfolding Prefixed Unprefixed cstr_starts_with
starts-cases path [] = inl (refl, (path, refl))
starts-cases [] (p ∷ ps) = inr (refl, λ rest h. cc)
starts-cases (c ∷ cs) (p ∷ ps) = elim (Bool-cases (c == p)) [
  | inr e ↦ inr (rw e refl, λ rest h. let same : c ≡ p = cc in absurd (ground arith))
  | inl e ↦
      let same : c ≡ p = ground arith in
      elim (starts-cases cs ps) [
        | inl (agrees, (rest, h)) ↦ inl (rw (e, agrees) refl, (rest, rw (same, h) refl))
        | inr (e', differs) ↦ inr (rw (e, e') refl, λ rest h. differs rest (cc))
      ]
]

-- What the game loads itself, and what is asked of the cipher.
unfoldable pub ForGame : Bool → Bytes → Type 0
ForGame true path = Prefixed user_scheme path ⊎ Prefixed http_scheme path
ForGame false path = Unprefixed levels path × Unprefixed rooms path × Unprefixed segments path

unfoldable pub ForCipher : Bool → Bytes → Type 0
ForCipher true path = Unprefixed user_scheme path × Unprefixed http_scheme path
ForCipher false path = Prefixed levels path ⊎ Prefixed rooms path ⊎ Prefixed segments path

left_to_game-cases :
    (encrypt_all : Bool) (path : Bytes)
    → ((left_to_game encrypt_all path ≡ true) × ForGame encrypt_all path)
      ⊎ ((left_to_game encrypt_all path ≡ false) × ForCipher encrypt_all path)
unfolding left_to_game ForGame ForCipher
left_to_game-cases true path = elim (starts-cases path user_scheme) [
  | inl (e, h) ↦ inl (rw e refl, inl h)
  | inr (e, h) ↦ elim (starts-cases path http_scheme) [
    | inl (e', h') ↦ inl (rw (e, e') refl, inr h')
    | inr (e', h') ↦ inr (rw (e, e') refl, (h, h'))
  ]
]
left_to_game-cases false path = elim (starts-cases path levels) [
  | inl (e, h) ↦ inr (rw e refl, inl h)
  | inr (e, h) ↦ elim (starts-cases path rooms) [
    | inl (e', h') ↦ inr (rw (e, e') refl, inr (inl h'))
    | inr (e', h') ↦ elim (starts-cases path segments) [
      | inl (e'', h'') ↦ inr (rw (e, e', e'') refl, inr (inr h''))
      | inr (e'', h'') ↦ inl (rw (e, e', e'') refl, (h, h', h''))
    ]
  ]
]

module _ (res : Resources) (load_obfuscated : Bytes → Option Bytes) where
  open res use {Output, resman_load, write_buffer}

  -- The hook of `ResMan::load` leaves a path to the game where that has neither of the prefixes
  -- "levels/", "rooms/" and "segments" or, with CIPHER_ENCRYPT_ALL, where it starts with "user://"
  -- or "http://". For any other it writes the first that the cipher has of the path and the path
  -- with ".mp3", and asks the game where it has neither.
  pub resman_load_hook-first_present :
      (encrypt_all : Bool) (path : Bytes) (output : Output)
      → (ForGame encrypt_all path
          × (resman_load_hook res load_obfuscated encrypt_all path output
              ≡ resman_load path output))
        ⊎ (ForCipher encrypt_all path
            × (resman_load_hook res load_obfuscated encrypt_all path output
                ≡ elim (first_present load_obfuscated (path ∷ (path ++ mp3_suffix) ∷ [])) [
                  | some text ↦ (write_buffer output text, true)
                  | none ↦ resman_load path output
                ]))
  unfolding resman_load_hook find_asset write_asset first_present
  resman_load_hook-first_present encrypt_all path output =
      elim (left_to_game-cases encrypt_all path) [
        | inl (e, h) ↦ inl (h, rw e refl)
        | inr (e, h) ↦ inr (
          h,
          elim (Option-cases (load_obfuscated path)) [
            | inr (text, f) ↦ rw (e, find_asset, f) refl
            | inl f ↦ elim (Option-cases (load_obfuscated (path ++ mp3_suffix))) [
              | inr (text, g) ↦ rw (e, find_asset, f, g) refl
              | inl g ↦ rw (e, find_asset, f, g) refl
            ]
          ],
        )
      ]
