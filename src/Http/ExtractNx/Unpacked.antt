-- ===== src/Http/ExtractNx/Unpacked.antt =====
-- `knHttpExtractNxArchive` of jni/http.c on an archive in the format.
use kn_shim.Base.{◌<◌, ◌^◌, ◌≡◌, List, length}
use kn_shim.Http.{HttpLib, Userdata}
use kn_shim.Lua.{Lua}
use kn_shim.NxArchive.Format.{Entry, encode_archive}
use kn_shim.Stdio.{Stdio}

module _ (lua : Lua) (data' : Userdata lua) (lib : HttpLib) (io : Stdio) where
  -- The response of a request is an archive of some entries, and its size is the archive's.
  pub record Downloaded (net : lib.Net) (request : lib.Request) (es : List Entry) : Type 0 where
    pub body : lib.response_data net request ≡ encode_archive es
    pub size : lib.response_size net request ≡ length (encode_archive es)
    pub small : length (encode_archive es) < 2 ^ 63
