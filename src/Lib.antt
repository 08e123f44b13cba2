-- ===== src/Lib.antt =====
-- KnShim: the stores, the extractor and the script functions of the shim, modelled and verified.
--
-- KnShim is a native library that loads the game Smash Hit (`libsmashhit.so`), hooks some of its
-- functions, and gives its Lua scripts new functions, whose names start with `kn`.
--
-- Parts, with the code that each models:
--   * Dict and its children: jni/hashtable.h, the dictionary from byte strings to byte strings.
--     Blob has the blobs and their hash, Slots the probing of the slot array, Table the
--     operations, one function per C function. A table is a value: `slots` are the indices into
--     `pairs`, whose cells are `none` for NULL. Assoc has the association list that a table stands
--     for, Models says when it does, Insert, Vacate, Resize, Append, Lookup, Change and Remove are about
--     one operation each, and Refine and Laws about the whole.
--   * Registry: the in-memory store of jni/reg.c (`knRegSet` is `reg_set`, and so on).
--   * Database: the store of jni/reg.c in a file (`SaveDict` is `save_dict`, `LoadDict` is
--     `load_dict`; Database.Script has `knDbSet` as `db_set`, and so on). Format has the format of
--     the file. Script/Session has the abstract store, entries in memory and the contents of the
--     file, with the steps that a call may take.
--   * NxArchive: the archive extractor of jni/nxarchive.c. `NXExtractArchive` is
--     `extract_archive`; the cases of its loop are functions of their own. Format has an
--     encoder for the archives.
--   * Files: the functions on files of jni/files.c.
--   * Http: the functions on requests of jni/http.c; ExtractNx has `knHttpExtractNxArchive`.
--   * Overlay: the ZIP overlay of jni/overlay.c.
--   * Script: the registration of the script functions, of jni/script.c and the `knEnable` function of
--     each file; Functions lists the functions with their names. System has those of jni/system.c
--     and jni/log.c.
--   * Startup: `android_main` of jni/shim.c, and `KNInitLua` (`init_lua`).
--   * Gamectl: balls, streak, noclip and reloading, of jni/gamectl.c; Level has the functions that
--     call the game, NewGame the hook of `Player::zero` of jni/overlay.c.
--   * Leaf and its children: the ELF loader of jni/andrleaf.h on AArch64. Header, Segments, Dynamic,
--     Symbols and Relocs are the stages of `LeafLoadFromBuffer`, which is `load_from_buffer` of
--     Image, with `LeafFinish` (`finish`) and `LeafFree` (`leaf_free`); Image/FromFile is
--     `LeafLoadFromFile`. Finishes has what is needed to show that the stages end. Relocs32 is
--     `LeafDoRel` on ARM and i386.
--   * PeekPoke: the script functions on memory of jni/peekpoke.c, with `invert_branch`,
--     `KNGetSymbolAddr` and the protection of memory (Protect), of jni/util.c.
--   * Cipher: the hook of `ResMan::load` of jni/obfuscate.c.
--   * LeafHook: the allocator, the streams and the AArch64 rewriting of jni/leafhook.h; Hook is
--     `LHHookerAArch64Function`, and Arm has the AArch32 half. Hooker is the life of a hooker, with
--     `KNHookFunction` of jni/util.c (`hook_function`) and the places where hooks are installed.
--   * Memory: numbers in memory, little endian; Region has memory as the list of its bytes.
--   * Lua, Stdio: what the shim uses of Lua and of the C library, as records; Base: shared helpers.
--   * Tests: runs on concrete inputs, with a small machine in place of the libraries.
--
-- How they interact: a script function takes the script's state and the globals that it touches,
-- and returns the number of values that it leaves on the script's stack and all of these anew. The
-- registry and the database keep a dictionary; the database writes it to a file. Partial code
-- returns an option, whose `none` is undefined behaviour or a loop that does not end, so a theorem
-- that a call returns shows that there is none.
--
-- Parameters: Lua, the C library's files, the dynamic linker, http.h, miniz, the cipher and the
-- functions of the game are arguments of the models, most of them records; StdioLaws says what the C
-- library documents of its calls, and GlobalsLaws what Lua does of the table of globals. Where a
-- theorem needs that no `fclose` and no `fread` fails, IsReliable is one of its hypotheses.
--
-- Bounds and fuel: a probe of the dictionary has as many rounds as there are slots, and every
-- table has a free slot; the theorems on tables ask for a capacity of at most 2 ^ 31, since slots
-- are 32-bit numbers. The extractor has one round more than the buffer has bytes: each round
-- consumes four bytes at least. Its `size_t` has 64 bits and wraps around; buffers are below 2 ^ 63
-- bytes. The allocations of a dictionary may fail where a resize makes them; those of blobs and of
-- small strings are taken to succeed.
--
-- The loader reads at most as many dynamic entries as the file has bytes, plus one: each has sixteen
-- bytes of the file. Its outcomes are a result, an error, or undefined behaviour.
--
-- Not modelled: the stages of jni/andrleaf.h but for `LeafDoRel` on 32-bit targets; the messages in
-- the system's log. The cipher of jni/obfuscate.c is not in the repository. The old hooker in old/
-- is not built, and jni/debuglog.c not called. jni/lua and jni/extern are third-party code.
pub mod Base
pub mod Dict
pub mod Lua
pub mod Registry
pub mod Memory
pub mod Stdio
pub mod Database
pub mod NxArchive
pub mod Files
pub mod Http
pub mod Overlay
pub mod Script
pub mod Gamectl
pub mod LeafHook
pub mod Leaf
pub mod PeekPoke
pub mod Startup
pub mod Cipher
pub mod System
mod Tests
