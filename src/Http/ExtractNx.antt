-- ===== src/Http/ExtractNx.antt =====
-- `knHttpExtractNxArchive`, of jni/http.c, and the texts of the extractor's errors.
pub mod Unpacked
use kn_shim.Base.{ℕ, false, Option, none, some, [], ◌∷◌, ltb, if◌then◌else◌, ◌>>=◌}
use kn_shim.Dict.Blob.{Bytes}
use kn_shim.Lua.{Lua, c_string}
use kn_shim.Http.{HttpLib, Userdata}
use kn_shim.Http.Handlers.{HttpWorld, context}
use kn_shim.NxArchive.{
  NxError, strcpy_s_failed_for_location, strcpy_s_failed_for_slash, invalid_archive_format,
  cannot_read_file_name, cannot_append_file_name, cannot_read_file_buffer, cannot_read_dir_name,
  cannot_append_dir_name, invalid_command, extract_archive_from_buffer,
}
use kn_shim.Stdio.{Stdio}

unfoldable pub message : NxError → Bytes
message strcpy_s_failed_for_location =
    b's' ∷ b't' ∷ b'r' ∷ b'c' ∷ b'p' ∷ b'y' ∷ b'_' ∷ b's' ∷ b' ' ∷ b'f' ∷ b'a' ∷ b'i' ∷ b'l' ∷ b'e'
    ∷ b'd' ∷ b' ' ∷ b'f' ∷ b'o' ∷ b'r' ∷ b' ' ∷ b'l' ∷ b'o' ∷ b'c' ∷ b'a' ∷ b't' ∷ b'i' ∷ b'o'
    ∷ b'n' ∷ []
message strcpy_s_failed_for_slash =
    b's' ∷ b't' ∷ b'r' ∷ b'c' ∷ b'p' ∷ b'y' ∷ b'_' ∷ b's' ∷ b' ' ∷ b'f' ∷ b'a' ∷ b'i' ∷ b'l' ∷ b'e'
    ∷ b'd' ∷ b' ' ∷ b'f' ∷ b'o' ∷ b'r' ∷ b' ' ∷ b's' ∷ b'l' ∷ b'a' ∷ b's' ∷ b'h' ∷ []
message invalid_archive_format =
    b'i' ∷ b'n' ∷ b'v' ∷ b'a' ∷ b'l' ∷ b'i' ∷ b'd' ∷ b' ' ∷ b'a' ∷ b'r' ∷ b'c' ∷ b'h' ∷ b'i' ∷ b'v'
    ∷ b'e' ∷ b' ' ∷ b'f' ∷ b'o' ∷ b'r' ∷ b'm' ∷ b'a' ∷ b't' ∷ []
message cannot_read_file_name =
    b'c' ∷ b'a' ∷ b'n' ∷ 39 ∷ b't' ∷ b' ' ∷ b'r' ∷ b'e' ∷ b'a' ∷ b'd' ∷ b' ' ∷ b'f' ∷ b'i' ∷ b'l'
    ∷ b'e' ∷ b' ' ∷ b'n' ∷ b'a' ∷ b'm' ∷ b'e' ∷ b' ' ∷ b's' ∷ b't' ∷ b'r' ∷ b'i' ∷ b'n' ∷ b'g' ∷ []
message cannot_append_file_name =
    b'c' ∷ b'a' ∷ b'n' ∷ 39 ∷ b't' ∷ b' ' ∷ b's' ∷ b't' ∷ b'r' ∷ b'c' ∷ b'a' ∷ b't' ∷ b'_' ∷ b's'
    ∷ b' ' ∷ b'f' ∷ b'i' ∷ b'l' ∷ b'e' ∷ b' ' ∷ b'n' ∷ b'a' ∷ b'm' ∷ b'e' ∷ b' ' ∷ b's' ∷ b't'
    ∷ b'r' ∷ b'i' ∷ b'n' ∷ b'g' ∷ []
message cannot_read_file_buffer =
    b'c' ∷ b'a' ∷ b'n' ∷ 39 ∷ b't' ∷ b' ' ∷ b'r' ∷ b'e' ∷ b'a' ∷ b'd' ∷ b' ' ∷ b'f' ∷ b'i' ∷ b'l'
    ∷ b'e' ∷ b' ' ∷ b'b' ∷ b'u' ∷ b'f' ∷ b'f' ∷ b'e' ∷ b'r' ∷ []
message cannot_read_dir_name =
    b'c' ∷ b'a' ∷ b'n' ∷ 39 ∷ b't' ∷ b' ' ∷ b'r' ∷ b'e' ∷ b'a' ∷ b'd' ∷ b' ' ∷ b'd' ∷ b'i' ∷ b'r'
    ∷ b' ' ∷ b'n' ∷ b'a' ∷ b'm' ∷ b'e' ∷ b' ' ∷ b's' ∷ b't' ∷ b'r' ∷ b'i' ∷ b'n' ∷ b'g' ∷ []
message cannot_append_dir_name =
    b'c' ∷ b'a' ∷ b'n' ∷ 39 ∷ b't' ∷ b' ' ∷ b's' ∷ b't' ∷ b'r' ∷ b'c' ∷ b'a' ∷ b't' ∷ b'_' ∷ b's'
    ∷ b' ' ∷ b'd' ∷ b'i' ∷ b'r' ∷ b' ' ∷ b'n' ∷ b'a' ∷ b'm' ∷ b'e' ∷ b' ' ∷ b's' ∷ b't' ∷ b'r'
    ∷ b'i' ∷ b'n' ∷ b'g' ∷ []
message invalid_command =
    b'i' ∷ b'n' ∷ b'v' ∷ b'a' ∷ b'l' ∷ b'i' ∷ b'd' ∷ b' ' ∷ b'n' ∷ b'x' ∷ b'a' ∷ b'r' ∷ b'c' ∷ b'h'
    ∷ b'i' ∷ b'v' ∷ b'e' ∷ b' ' ∷ b'c' ∷ b'o' ∷ b'm' ∷ b'm' ∷ b'a' ∷ b'n' ∷ b'd' ∷ []

abbrev pub not_enough_params : Bytes
not_enough_params =
    b'n' ∷ b'o' ∷ b't' ∷ b' ' ∷ b'e' ∷ b'n' ∷ b'o' ∷ b'u' ∷ b'g' ∷ b'h' ∷ b' ' ∷ b'p' ∷ b'a' ∷ b'r'
    ∷ b'a' ∷ b'm' ∷ b's' ∷ []

abbrev pub context_is_null : Bytes
context_is_null =
    b'h' ∷ b't' ∷ b't' ∷ b'p' ∷ b' ' ∷ b'c' ∷ b'o' ∷ b'n' ∷ b't' ∷ b'e' ∷ b'x' ∷ b't' ∷ b' ' ∷ b'i'
    ∷ b's' ∷ b' ' ∷ b'n' ∷ b'u' ∷ b'l' ∷ b'l' ∷ []

abbrev pub dest_is_null : Bytes
dest_is_null =
    b'd' ∷ b'e' ∷ b's' ∷ b't' ∷ b' ' ∷ b'i' ∷ b's' ∷ b' ' ∷ b'n' ∷ b'u' ∷ b'l' ∷ b'l' ∷ []

module _ (lua : Lua) (data' : Userdata lua) (lib : HttpLib) (io : Stdio) where
  open lua use {gettop, tolstring, pushboolean, pushlstring}
  open lib use {Request, response_data, response_size}
  open io use {Disk}

  abbrev pub ExtractReply : Type 0
  ExtractReply = Option (ℕ × HttpWorld lua lib × Disk)

  abbrev pub say : HttpWorld lua lib → Disk → Bytes → ExtractReply
  say w disk text = some (1, record w { script = pushlstring w.script text }, disk)

  -- NULL is no error.
  unfoldable pub report : HttpWorld lua lib → Disk → Option NxError → ExtractReply
  unfolding message
  report w disk none = some (1, record w { script = pushboolean w.script false }, disk)
  report w disk (some error) = say w disk (message error)

  -- With a request, and the location if it is a string.
  unfoldable pub extract_response : HttpWorld lua lib → Disk → Request → Option Bytes → ExtractReply
  unfolding report
  extract_response w disk request none = say w disk dest_is_null
  extract_response w disk request (some dest) = do
    (err, disk') ←
        extract_archive_from_buffer io (c_string dest) (response_size w.net request)
          (response_data w.net request) disk
    report w disk' err

  unfoldable pub extract_context : HttpWorld lua lib → Disk → Option Request → ExtractReply
  unfolding extract_response
  extract_context w disk none = say w disk context_is_null
  extract_context w disk (some request) =
      let (script', dest) = tolstring w.script 2 in
      extract_response (record w { script = script' }) disk request dest

  unfoldable pub http_extract_nx_archive : HttpWorld lua lib → Disk → ExtractReply
  unfolding extract_context
  http_extract_nx_archive w disk =
      let given = extract_context w disk (context lua data' lib w) in
      if ltb (gettop w.script) 2 then say w disk not_enough_params else given
