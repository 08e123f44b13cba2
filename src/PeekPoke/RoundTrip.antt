-- ===== src/PeekPoke/RoundTrip.antt =====
-- A poke and then a peek, of jni/peekpoke.c.
use kn_shim.Base.{
  ℕ, ◌+◌, ◌-◌, ◌%◌, if◌then◌else◌, ◌^◌, ◌≤◌, ◌<◌, ◌≡◌, refl, ap, inl, inr, Bool, true, false, not,
  Bool-cases, some, [], ◌∷◌, ◌++◌, length, length-append, take, ltb, leb, ◌==◌, arith,
}
use kn_shim.Dict.Blob.{Bytes}
use kn_shim.Leaf.{done}
use kn_shim.Leaf.Symbols.{SymbolTable, string_at}
use kn_shim.Lua.{Lua, c_string}
use kn_shim.Memory.Region.{
  bytes_of, patch, splice, store_number_lem, slice-patch_self, load_number-patch,
}
use kn_shim.PeekPoke.{
  Kind, kind_of, bool_to_number, Floats, get_address, peek_at, peek_typed, peek, poke_at,
  poke_typed, poke,
}

-- The types of fixed size.
pub data Number : Type 0 where
  addr bool short int float : Number

unfoldable pub kind : Number → Kind
kind Number.addr = Kind.addr
kind Number.bool = Kind.bool
kind Number.short = Kind.short
kind Number.int = Kind.int
kind Number.float = Kind.float

unfoldable pub width : Number → ℕ
width Number.addr = 8
width Number.bool = 1
width Number.short = 2
width Number.int = 4
width Number.float = 4

-- The lowest `bits` bits of a number as a signed one, in 64 bits.
unfoldable pub signed : ℕ → ℕ → ℕ
signed bits n =
    let low = n % 2 ^ bits in if ltb low (2 ^ (bits - 1)) then low else low + (2 ^ 64 - 2 ^ bits)

-- A C string is read back up to its NUL.
string_at-c_string :
    (t memory : Bytes)
    → take (length (c_string t ++ 0 ∷ [])) memory ≡ c_string t ++ 0 ∷ []
    → string_at memory ≡ some (c_string t)
unfolding c_string string_at
string_at-c_string [] [] h = absurd (cc)
string_at-c_string [] (m ∷ ms) h = let e : m ≡ 0 = cc in rw e refl
string_at-c_string (b ∷ bs) [] h = elim (Bool-cases (b == 0)) [
  | inl e ↦ let h' : [] ≡ 0 ∷ [] = rw e at h in absurd (cc h')
  | inr e ↦ let h' : [] ≡ b ∷ c_string bs ++ 0 ∷ [] = rw e at h in absurd (cc h')
]
string_at-c_string (b ∷ bs) (m ∷ ms) h = elim (Bool-cases (b == 0)) [
  | inl e ↦ let h' : m ∷ [] ≡ 0 ∷ [] = rw e at h in let same : m ≡ 0 = cc in rw (same, e) refl
  | inr e ↦
      let h' : m ∷ take (length (c_string bs ++ 0 ∷ [])) ms ≡ b ∷ c_string bs ++ 0 ∷ [] =
        rw e at h in
      let same : m ≡ b = cc in
      let rest : take (length (c_string bs ++ 0 ∷ [])) ms ≡ c_string bs ++ 0 ∷ [] = cc in
      rw (same, e, string_at-c_string bs ms rest) (ap (λ x. some (x ∷ c_string bs)) same)
]

-- A byte that was written for a Boolean is the Boolean.
truth : (b : Bool) → not (bool_to_number b == 0) ≡ b
unfolding bool_to_number
truth true = refl
truth false = refl

module _ (lua : Lua) (floats : Floats lua) where
  open lua use {
    State, gettop, tolstring, tointeger, toboolean, pushboolean, pushinteger, pushlstring,
  }
  open floats use {pushnumber, tonumber}

  -- A call of `knPeek` or `knPoke`: the type and the address that it asks for, and the state once
  -- the address is found.
  pub record Call (script : State) (memory : Bytes) (leaf : SymbolTable) (k : Kind)
      (script' : State) (a : ℕ) : Type 0 where
    pub enough : 2 ≤ gettop script
    pub addressed : get_address lua floats script 1 memory leaf ≡ done (script', a)
    pub typed : kind_of (tointeger script' 2 % 2 ^ 32) ≡ some k

  -- The number that the third argument is, in the type; and how a script gets a number.
  unfoldable pub argument : Number → State → ℕ
  argument Number.addr script = tointeger script 3
  argument Number.bool script = bool_to_number (toboolean script 3)
  argument Number.short script = tointeger script 3 % 2 ^ 16
  argument Number.int script = tointeger script 3 % 2 ^ 32
  argument Number.float script = tonumber script 3

  unfoldable pub answer : Number → State → State → State
  answer Number.addr given script = pushinteger script (tointeger given 3)
  answer Number.bool given script = pushboolean script (toboolean given 3)
  answer Number.short given script = pushinteger script (signed 16 (tointeger given 3))
  answer Number.int given script = pushinteger script (signed 32 (tointeger given 3))
  answer Number.float given script = pushnumber script (tonumber given 3)

  poke_at-number :
      (n : Number) (script : State) (memory : Bytes) (a : ℕ)
      → a + width n ≤ length memory
      → poke_at lua floats (kind n) script memory a
        ≡ done (script, patch memory a (bytes_of (width n) (argument n script)))
  unfolding poke_at kind width argument
  poke_at-number Number.addr script memory a room =
      rw (store_number_lem memory a 8 (tointeger script 3) room) refl
  poke_at-number Number.bool script memory a room =
      rw (store_number_lem memory a 1 (bool_to_number (toboolean script 3)) room) refl
  poke_at-number Number.short script memory a room =
      rw (store_number_lem memory a 2 (tointeger script 3 % 2 ^ 16) room) refl
  poke_at-number Number.int script memory a room =
      rw (store_number_lem memory a 4 (tointeger script 3 % 2 ^ 32) room) refl
  poke_at-number Number.float script memory a room =
      rw (store_number_lem memory a 4 (tonumber script 3) room) refl

  peek_at-number :
      (n : Number) (given script : State) (memory : Bytes) (a : ℕ)
      → a + width n ≤ length memory
      → argument n given < 256 ^ width n
      → peek_at lua floats
          (kind n)
          script
          (patch memory a (bytes_of (width n) (argument n given)))
          a
        ≡ done (answer n given script)
  unfolding peek_at kind width argument answer signed
  peek_at-number Number.addr given script memory a room small =
      rw (load_number-patch memory a 8 _ room small) refl
  peek_at-number Number.bool given script memory a room small =
      rw (load_number-patch memory a 1 (bool_to_number (toboolean given 3)) room small)
        (ap (λ b. done (pushboolean script b)) (truth (toboolean given 3)))
  peek_at-number Number.short given script memory a room small =
      rw (load_number-patch memory a 2 _ room small) refl
  peek_at-number Number.int given script memory a room small =
      rw (load_number-patch memory a 4 _ room small) refl
  peek_at-number Number.float given script memory a room small =
      rw (load_number-patch memory a 4 _ room small) refl

  poke-Call :
      {script script' : State} {memory : Bytes} {leaf : SymbolTable} {k : Kind} {a : ℕ}
      (r : State × Bytes)
      → Call script memory leaf k script' a
      → poke_at lua floats k script' memory a ≡ done r
      → poke lua floats script memory leaf ≡ done (1, pushinteger r.0 a, r.1)
  unfolding poke poke_typed
  poke-Call {script} r c e =
      let enough : ltb (gettop script) 2 ≡ false = ground (arith, c.enough) in
      rw (enough, c.addressed, c.typed, e) refl

  peek-Call :
      {script script' : State} {memory : Bytes} {leaf : SymbolTable} {k : Kind} {a : ℕ} (r : State)
      → Call script memory leaf k script' a
      → peek_at lua floats k script' memory a ≡ done r
      → peek lua floats script memory leaf ≡ done (1, r, memory)
  unfolding peek peek_typed
  peek-Call {script} r c e =
      let enough : ltb (gettop script) 2 ≡ false = ground (arith, c.enough) in
      rw (enough, c.addressed, c.typed, e) refl

  -- `knPoke` of a type of fixed size, to an address that is in memory, leaves the address and
  -- writes the third argument; and `knPeek` of that type and address then leaves the number again,
  -- cut to the size of the type, and with its sign.
  pub peek-poke_number :
      (n : Number) {writing writing' reading reading' : State} (memory : Bytes) (leaf : SymbolTable)
      (a : ℕ)
      → Call writing memory leaf (kind n) writing' a
      → Call reading
          (patch memory a (bytes_of (width n) (argument n writing')))
          leaf
          (kind n)
          reading'
          a
      → a + width n ≤ length memory
      → argument n writing' < 256 ^ width n
      → (poke lua floats writing memory leaf
          ≡ done (
            1,
            pushinteger writing' a,
            patch memory a (bytes_of (width n) (argument n writing')),
          ))
        × (peek lua floats reading (patch memory a (bytes_of (width n) (argument n writing'))) leaf
            ≡ done (
              1,
              answer n writing' reading',
              patch memory a (bytes_of (width n) (argument n writing')),
            ))
  peek-poke_number n {writing' = w} {reading' = r} memory leaf a writes reads room small = (
    poke-Call _ writes (poke_at-number n w memory a room),
    peek-Call _ reads (peek_at-number n w r memory a room small),
  )

  -- The same of a text without its NUL: the bytes before its first NUL are written, with a NUL, and
  -- are read back.
  pub peek-poke_string :
      {writing writing' reading reading' : State} (memory : Bytes) (leaf : SymbolTable) (a : ℕ)
      (t : Bytes)
      → Call writing memory leaf Kind.string writing' a
      → (tolstring writing' 3).1 ≡ some t
      → Call reading (patch memory a (c_string t ++ 0 ∷ [])) leaf Kind.string reading' a
      → a + length (c_string t) + 1 ≤ length memory
      → (poke lua floats writing memory leaf
          ≡ done (1, pushinteger (tolstring writing' 3).0 a, patch memory a (c_string t ++ 0 ∷ [])))
        × (peek lua floats reading (patch memory a (c_string t ++ 0 ∷ [])) leaf
            ≡ done (1, pushlstring reading' (c_string t), patch memory a (c_string t ++ 0 ∷ [])))
  unfolding poke_at peek_at splice
  peek-poke_string {writing' = w} {reading' = r} memory leaf a t writes text reads room =
      let size : length (c_string t ++ 0 ∷ []) ≡ length (c_string t) + 1 =
        length-append (c_string t) (0 ∷ []) in
      let fits : leb (a + length (c_string t ++ 0 ∷ [])) (length memory) ≡ true =
        rw size (ground arith) in
      let there = slice-patch_self memory a (c_string t ++ 0 ∷ []) (omega arith) in
      (
        poke-Call _ writes (rw (text, fits) refl),
        peek-Call _ reads (rw (string_at-c_string t _ there) refl),
      )
