-- ===== src/Tests/Machine.antt =====
-- A small machine to run the functions on: a Lua stack, a disk whose calls succeed, an HTTP
-- library with one request that is always done, and a ZIP reader with one file.
use kn_shim.Base.{
  ℕ, zero, suc, ◌-◌, ◌≡◌, ◌≢◌, refl, Bool, true, false, Bool-cases, inl, inr, Option, none, some,
  List, [], ◌∷◌, ◌++◌, length, take, drop, if◌then◌else◌, get_or,
}
use kn_shim.Dict.Blob.{Bytes, bytes_eq, bytes_eq_sound, bytes_eq_refl}
use kn_shim.Lua.{Lua}
use kn_shim.Stdio.{Stdio, StdioLaws, IsReliable}
use kn_shim.Http.{HttpLib, Userdata, completed}
use kn_shim.Overlay.{ZipReader, Resources}

pub data Value : Type 0 where
  nil : Value
  boolean : Bool → Value
  integer : ℕ → Value
  string : Bytes → Value
  userdata : ℕ → Value
  table : Value

-- The stack, index 1 first.
abbrev pub Stack : Type 0
Stack = List Value

abbrev pub value_at : Stack → ℕ → Value
value_at s i = get_or s (i - 1) nil

abbrev pub string_at : Stack → ℕ → Option Bytes
string_at s i = elim (value_at s i) [ string t ↦ some t | _ ↦ none ]

abbrev pub integer_at : Stack → ℕ → ℕ
integer_at s i = elim (value_at s i) [ integer n ↦ n | _ ↦ 0 ]

abbrev pub boolean_at : Stack → ℕ → Bool
boolean_at s i = elim (value_at s i) [ boolean b ↦ b | _ ↦ false ]

abbrev pub userdata_at : Stack → ℕ → Option ℕ
userdata_at s i = elim (value_at s i) [ userdata n ↦ some n | _ ↦ none ]

abbrev pub is_string : Option Bytes → Bool
is_string none = false
is_string (some s) = true

abbrev pub test_lua : Lua
test_lua = record {
  State = Stack;
  gettop = λ s. length s;
  tolstring = λ s i. (s, string_at s i);
  isstring = λ s i. is_string (string_at s i);
  tointeger = integer_at;
  toboolean = boolean_at;
  pushnil = λ s. s ++ nil ∷ [];
  pushboolean = λ s b. s ++ boolean b ∷ [];
  pushinteger = λ s n. s ++ integer n ∷ [];
  pushlstring = λ s t. s ++ string t ∷ [];
  createtable = λ s. s ++ table ∷ [];
  settable = λ s i. take (length s - 2) s;
}

abbrev pub test_userdata : Userdata test_lua
test_userdata = record { touserdata = userdata_at; newuserdata = λ s n. s ++ userdata n ∷ [] }

-- A file is its path and its contents; a disk says what each path holds.
abbrev pub Files : Type 0
Files = Bytes → Option Bytes

abbrev pub store_file : Files → Bytes → Option Bytes → Files
store_file d path text p = if bytes_eq p path then text else d p

abbrev pub append_items : Bytes × Bytes → Bytes → ℕ → ℕ → (Bytes × Bytes) × ℕ
append_items f buffer zero count = (f, 0)
append_items f buffer (suc size) count = ((f.0, f.1 ++ buffer), count)

abbrev pub test_io : Stdio
test_io = record {
  Disk = Files;
  Sink = Bytes × Bytes;
  Source = Bytes;
  fopen_wb = λ d path. some (path, []);
  fwrite = append_items;
  fclose = λ d f. store_file d f.0 (some f.1);
  fopen_rb = λ d path. d path;
  fread = λ f n. (drop n f, take n f);
  fsize = λ f. length f;
  rename = λ d old new. (store_file d new (d old), true);
  remove = λ d path. (store_file d path none, true);
  mkdir = λ d path. (d, true);
}

pub store_file-same :
    (d : Files) (path : Bytes) (text : Option Bytes) → store_file d path text path ≡ text
store_file-same d path text = rw (bytes_eq_refl path) refl

pub store_file-other :
    (d : Files) (path other : Bytes) (text : Option Bytes)
    → other ≢ path
    → store_file d path text other ≡ d other
store_file-other d path other text differs = elim (Bool-cases (bytes_eq other path)) [
  | inl e ↦ absurd (differs (bytes_eq_sound other path e))
  | inr e ↦ rw e refl
]

pub append_items-target :
    (f : Bytes × Bytes) (buffer : Bytes) (size count : ℕ)
    → (append_items f buffer size count).0.0 ≡ f.0
append_items-target f buffer zero count = refl
append_items-target f buffer (suc size) count = refl

pub append_items-one :
    (f : Bytes × Bytes) (buffer : Bytes)
    → (append_items f buffer (length buffer) 1).1 ≢ 0
    → (append_items f buffer (length buffer) 1).0.1 ≡ f.1 ++ buffer
append_items-one f [] h = absurd (h refl)
append_items-one f (b ∷ bs) h = refl

pub same_sink :
    {path : Bytes} {f : Bytes × Bytes} → some (path, []) ≡ some f → (f.0 ≡ path) × (f.1 ≡ [])
same_sink h = (cc h, cc h)

abbrev pub test_laws : StdioLaws test_io
test_laws = record {
  contents = λ d path. d path;
  target = λ f. f.0;
  written = λ f. f.1;
  left = λ f. f;
  opened = λ d path h. same_sink h;
  writes_to = append_items-target;
  wrote_one = append_items-one;
  wrote_nothing = λ f buffer count. refl;
  wrote_all = λ f buffer h. refl;
  closed_other = λ d f path differs. store_file-other d f.0 path (some f.1) differs;
  opened_rb = λ d path h. h;
  sized = λ d path h. refl;
  renamed = λ d old new h. store_file-same d new (d old);
  not_renamed = λ d old new path h. cc;
}

pub test-IsReliable : IsReliable test_io test_laws
test-IsReliable = record {
  closed = λ d f. store_file-same d f.0 (some f.1);
  read = λ f n h. refl;
  read_left = λ f n h. refl;
}

abbrev pub test_http : HttpLib
test_http = record {
  Net = ℕ;
  Request = ℕ;
  http_get = λ n url. (suc n, some n);
  http_post = λ n url body. (suc n, some n);
  http_process = λ n r. (n, completed);
  status = λ n r. completed;
  response_data = λ n r. r ∷ [];
  response_size = λ n r. 1;
  content_type = λ n r. none;
  reason_phrase = λ n r. none;
  status_code = λ n r. 200;
  http_release = λ n r. elim r [ none ↦ none | some _ ↦ some n ];
}

-- The ZIP file at the path "z" has the file "a.mp3".
abbrev pub test_zip : ZipReader
test_zip = record {
  System = ℕ;
  Zip = ℕ;
  init_file = λ s path. if bytes_eq path (b'z' ∷ []) then (suc s, some s) else (s, none);
  extract_file_to_heap = λ s z path.
      if bytes_eq path (b'a' ∷ b'.' ∷ b'm' ∷ b'p' ∷ b'3' ∷ []) then some (7 ∷ []) else none;
  reader_end = λ s z. s - 1;
}

abbrev pub test_resources : Resources
test_resources = record {
  Output = Bytes;
  resman_load = λ path out. (out, false);
  write_buffer = λ out text. out ++ text;
}
