-- ===== src/Tests/Access.antt =====
-- The script functions on memory, in the memory of a small program.
use kn_shim.Base.{ℕ, ◌+◌, ◌/◌, ◌%◌, ◌≡◌, refl, true, [], ◌∷◌, ◌++◌, arith, bit_xor}
use kn_shim.Dict.Blob.{Bytes}
use kn_shim.Leaf.{done}
use kn_shim.Leaf.Symbols.{strcmp}
use kn_shim.Lua.{c_string}
use kn_shim.Memory.Region.{bytes_of, number_of, patch, load_number}
use kn_shim.PeekPoke.{kind_of, Floats, get_address, or_null, peek, poke}
use kn_shim.PeekPoke.RoundTrip.{
  signed, Number, kind, width, argument, answer, peek-poke_number, peek-poke_string,
}
use kn_shim.PeekPoke.Branch.{
  aarch64, invert, condition_bit, Conditional, Instruction, replaced, invert_twice,
}
use kn_shim.Tests.Loader.{test_elf, table, foo}
use kn_shim.Tests.Machine.{test_lua, Stack, integer, string, integer_at}

abbrev test_floats : Floats test_lua
test_floats = record { pushnumber = λ s n. s ++ integer n ∷ []; tonumber = integer_at }

-- The number 0x1fffe as a `short` at the address of the symbol foo.
abbrev writing : Stack
writing = string foo ∷ integer 3 ∷ integer 0x1fffe ∷ []

abbrev reading : Stack
reading = string foo ∷ integer 3 ∷ []

abbrev written : Bytes
unfolding patch bytes_of
written = patch test_elf 32 (bytes_of 2 0xfffe)

peek-poke_number_example :
    (poke test_lua test_floats writing test_elf table
      ≡ done (1, writing ++ integer 32 ∷ [], written))
    × (peek test_lua test_floats reading written table
        ≡ done (1, reading ++ integer 0xfffffffffffffffe ∷ [], written))
unfolding get_address kind_of answer argument width kind patch bytes_of number_of c_string strcmp
    or_null load_number signed
peek-poke_number_example =
    peek-poke_number test_lua test_floats Number.short test_elf table 32
      (record { enough = omega arith; addressed = refl; typed = refl })
      (record { enough = omega arith; addressed = refl; typed = refl }) (omega arith) (omega arith)

abbrev hi : Bytes
hi = b'h' ∷ b'i' ∷ []

abbrev copying : Stack
copying = string foo ∷ integer 6 ∷ string hi ∷ []

abbrev copied : Bytes
unfolding patch
copied = patch test_elf 32 (hi ++ 0 ∷ [])

peek-poke_string_example :
    (poke test_lua test_floats copying test_elf table
      ≡ done (1, copying ++ integer 32 ∷ [], copied))
    × (peek test_lua test_floats (string foo ∷ integer 6 ∷ []) copied table
        ≡ done (1, string foo ∷ integer 6 ∷ string hi ∷ [], copied))
unfolding get_address kind_of patch bytes_of number_of c_string strcmp or_null load_number
peek-poke_string_example =
    peek-poke_string test_lua test_floats test_elf table 32 hi
      (record { enough = omega arith; addressed = refl; typed = refl }) refl
      (record { enough = omega arith; addressed = refl; typed = refl }) (omega arith)

-- `b.ne` forward by eight bytes.
abbrev b_ne : ℕ
b_ne = 0x54000041

abbrev code : Bytes
unfolding bytes_of
code = bytes_of 4 b_ne ++ bytes_of 4 0xd65f03c0

code-b_ne : Instruction code 0 b_ne
unfolding load_number bytes_of number_of
code-b_ne = record { there = refl; room = omega arith; word = omega arith }

invert_twice_example :
    (invert aarch64 code 0 ≡ done (replaced code 0 (bit_xor b_ne 1), true))
    × (bit_xor b_ne 1 / 1 % 2 + b_ne / 1 % 2 ≡ 1)
    × (invert aarch64 (replaced code 0 (bit_xor b_ne 1)) 0 ≡ done (replaced code 0 b_ne, true))
unfolding condition_bit Conditional
invert_twice_example = invert_twice aarch64 code-b_ne refl
