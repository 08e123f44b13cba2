-- ===== src/PeekPoke.antt =====
-- The script functions on memory, of jni/peekpoke.c, and what they use of jni/util.c, on a 64-bit
-- target. The process's memory is the list of its bytes from address 0 on: an access outside of it
-- is undefined behaviour, a `fault`. `gLeaf` is the table of the loaded program's symbols, in that
-- memory.
pub mod RoundTrip
pub mod Branch
pub mod Protect
use kn_shim.Base.{
  ℕ, ◌+◌, ◌-◌, ◌*◌, ◌/◌, ◌%◌, ◌^◌, Bool, true, false, not, Option, none, some, [], ◌∷◌, ◌++◌, drop,
  ltb, ◌==◌, if◌then◌else◌, bit_xor,
}
use kn_shim.Dict.Blob.{Bytes}
use kn_shim.Gamectl.{int_to_integer}
use kn_shim.Leaf.{Outcome, done, ◌>>=◌, ◌>>◌, access}
use kn_shim.Leaf.Symbols.{SymbolTable, string_at, symbol_addr}
use kn_shim.Lua.{Lua, c_string}
use kn_shim.Memory.Region.{slice, splice, load_number, store_number}

-- KN_TYPE_ADDR and so on.
pub data Kind : Type 0 where
  addr bool short int float string bytes : Kind

unfoldable pub kind_of : ℕ → Option Kind
kind_of type =
    if type == 1
    then some Kind.addr
    else if type == 2
    then some Kind.bool
    else if type == 3
    then some Kind.short
    else if type == 4
    then some Kind.int
    else if type == 5
    then some Kind.float
    else if type == 6
    then some Kind.string
    else if type == 7
    then some Kind.bytes
    else none

-- A `short` as a `lua_Integer` of 64 bits.
unfoldable pub short_to_integer : ℕ → ℕ
short_to_integer n = if ltb n (2 ^ 15) then n else n + (2 ^ 64 - 2 ^ 16)

unfoldable pub bool_to_number : Bool → ℕ
bool_to_number true = 1
bool_to_number false = 0

-- The lookup's answer as a pointer.
unfoldable pub or_null : Option ℕ → ℕ
or_null none = 0
or_null (some a) = a

-- `KNGetSymbolAddr`, of a Lua string or NULL.
unfoldable pub get_symbol_addr : Bytes → SymbolTable → Option Bytes → Outcome ℕ
unfolding symbol_addr c_string or_null
get_symbol_addr memory leaf name = do
  n ← access name
  found ← symbol_addr memory leaf (c_string n)
  done (or_null found)

-- `invert_branch` on AArch64; it is false where the C code returns 1.
unfoldable pub invert_branch : Bytes → ℕ → Outcome (Bytes × Bool)
unfolding load_number store_number
invert_branch memory address =
    let inverted : ℕ → Outcome (Bytes × Bool) = λ instr. (do
      memory' ← access (store_number memory address 4 (bit_xor instr 1))
      done (memory', true)) in
    do
      instr ← access (load_number memory address 4)
      if instr / 2 ^ 24 == 0x54 then inverted instr else done (memory, false)

-- `invert_branch` on ARMv7.
unfoldable pub invert_branch_arm : Bytes → ℕ → Outcome (Bytes × Bool)
unfolding load_number store_number
invert_branch_arm memory address =
    let inverted : ℕ → Outcome (Bytes × Bool) = λ instr. (do
      memory' ← access (store_number memory address 4 (bit_xor instr 0x10000000))
      done (memory', true)) in
    do
      instr ← access (load_number memory address 4)
      if instr / 2 ^ 29 == 7 then done (memory, false) else inverted instr

-- The calls of Lua on numbers with a fraction, as the patterns of a `float`.
pub record Floats (lua : Lua) : Type 0 where
  pub pushnumber : lua.State → ℕ → lua.State
  pub tonumber : lua.State → ℕ → ℕ

module _ (lua : Lua) (floats : Floats lua) where
  open lua use {
    State, gettop, tolstring, isstring, tointeger, toboolean, pushnil, pushboolean, pushinteger,
    pushlstring,
  }
  open floats use {pushnumber, tonumber}

  -- The number of values left, the script's state, and the memory.
  abbrev pub MemoryReply : Type 0
  MemoryReply = ℕ × State × Bytes

  -- `knGetAddress`.
  unfoldable pub get_address : State → ℕ → Bytes → SymbolTable → Outcome (State × ℕ)
  unfolding get_symbol_addr
  get_address script index memory leaf =
      let (script', name) = tolstring script index in
      let named : Outcome (State × ℕ) = (do
        a ← get_symbol_addr memory leaf name
        done (script', a)) in
      if isstring script index then named else done (script, tointeger script index)

  unfoldable pub knsymbol_addr : State → Bytes → SymbolTable → Outcome MemoryReply
  unfolding get_symbol_addr
  knsymbol_addr script memory leaf =
      let (script', name) = tolstring script 1 in
      let looked_up : Outcome MemoryReply = (do
        a ← get_symbol_addr memory leaf name
        done (1, pushinteger script' a, memory)) in
      if ltb (gettop script) 1 then done (1, pushnil script, memory) else looked_up

  -- The cases of `knPeek`.
  unfoldable pub peek_at : Kind → State → Bytes → ℕ → Outcome State
  unfolding load_number slice string_at short_to_integer int_to_integer
  peek_at addr script memory a = do n ← access (load_number memory a 8); done (pushinteger script n)
  peek_at bool script memory a = do
    n ← access (load_number memory a 1)
    done (pushboolean script (not (n == 0)))
  peek_at short script memory a = do
    n ← access (load_number memory a 2)
    done (pushinteger script (short_to_integer n))
  peek_at int script memory a = do
    n ← access (load_number memory a 4)
    done (pushinteger script (int_to_integer n))
  peek_at float script memory a = do n ← access (load_number memory a 4); done (pushnumber script n)
  peek_at string script memory a = do
    text ← access (string_at (drop a memory))
    done (pushlstring script text)
  peek_at bytes script memory a =
      let sized : Outcome State = (do
        text ← access (slice memory a (tointeger script 3))
        done (pushlstring script text)) in
      if ltb (gettop script) 3 then done (pushnil script) else sized

  -- The switch, with its default.
  unfoldable pub peek_typed : Option Kind → State → Bytes → ℕ → Outcome MemoryReply
  unfolding peek_at
  peek_typed none script memory a = done (1, pushnil script, memory)
  peek_typed (some kind) script memory a = do
    script' ← peek_at kind script memory a
    done (1, script', memory)

  unfoldable pub peek : State → Bytes → SymbolTable → Outcome MemoryReply
  unfolding get_address kind_of peek_typed
  peek script memory leaf =
      let given : Outcome MemoryReply = (do
        (script1, a) ← get_address script 1 memory leaf
        peek_typed (kind_of (tointeger script1 2 % 2 ^ 32)) script1 memory a) in
      if ltb (gettop script) 2 then done (1, pushnil script, memory) else given

  -- The cases of `knPoke`: the state, since strings are converted in place, and the memory.
  unfoldable pub poke_at : Kind → State → Bytes → ℕ → Outcome (State × Bytes)
  unfolding store_number splice bool_to_number c_string
  poke_at addr script memory a = do
    memory' ← access (store_number memory a 8 (tointeger script 3))
    done (script, memory')
  poke_at bool script memory a = do
    memory' ← access (store_number memory a 1 (bool_to_number (toboolean script 3)))
    done (script, memory')
  poke_at short script memory a = do
    memory' ← access (store_number memory a 2 (tointeger script 3 % 2 ^ 16))
    done (script, memory')
  poke_at int script memory a = do
    memory' ← access (store_number memory a 4 (tointeger script 3 % 2 ^ 32))
    done (script, memory')
  poke_at float script memory a = do
    memory' ← access (store_number memory a 4 (tonumber script 3))
    done (script, memory')
  poke_at string script memory a =
      let (script', text) = tolstring script 3 in
      (do
        t ← access text
        memory' ← access (splice memory a (c_string t ++ 0 ∷ []))
        done (script', memory'))
  poke_at bytes script memory a =
      let (script', text) = tolstring script 3 in
      (do t ← access text; memory' ← access (splice memory a t); done (script', memory'))

  unfoldable pub poke_typed : Option Kind → State → Bytes → ℕ → Outcome MemoryReply
  unfolding poke_at
  poke_typed none script memory a = done (1, pushnil script, memory)
  poke_typed (some kind) script memory a = do
    (script', memory') ← poke_at kind script memory a
    done (1, pushinteger script' a, memory')

  unfoldable pub poke : State → Bytes → SymbolTable → Outcome MemoryReply
  unfolding get_address kind_of poke_typed
  poke script memory leaf =
      let given : Outcome MemoryReply = (do
        (script1, a) ← get_address script 1 memory leaf
        poke_typed (kind_of (tointeger script1 2 % 2 ^ 32)) script1 memory a) in
      if ltb (gettop script) 2 then done (1, pushnil script, memory) else given

  -- `knInvertBranch`, for either architecture's `invert_branch`.
  unfoldable pub kninvert_branch :
      (Bytes → ℕ → Outcome (Bytes × Bool)) → State → Bytes → SymbolTable → Outcome MemoryReply
  unfolding get_address
  kninvert_branch invert script memory leaf =
      let given : Outcome MemoryReply = (do
        (script1, a) ← get_address script 1 memory leaf
        (memory', inverted) ← invert memory a
        done (1, (if inverted then pushinteger script1 a else pushnil script1), memory')) in
      if ltb (gettop script) 1 then done (1, pushnil script, memory) else given
