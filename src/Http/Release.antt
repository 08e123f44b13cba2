-- ===== src/Http/Release.antt =====
-- The functions of jni/http.c on a userdata that was released.
use kn_shim.Base.{
  if◌then◌else◌, ℕ, ◌≤◌, ◌≡◌, refl, ap, ◌∙◌, inl, inr, false, none, some, Option-cases, ltb, arith,
}
use kn_shim.Lua.{Lua}
use kn_shim.Http.{HttpLib, Userdata, pointer, put_pointer, pointer-put_pointer}
use kn_shim.Http.Handlers.{
  HttpWorld, context, push, http_update, http_data, http_data_size, http_content_type, http_error,
  http_error_code, http_release_context,
}
use kn_shim.Http.ExtractNx.{
  say, extract_context, not_enough_params, context_is_null, http_extract_nx_archive,
}
use kn_shim.Stdio.{Stdio}

module _ (lua : Lua) (data' : Userdata lua) (lib : HttpLib) (io : Stdio) where
  open lua use {State, gettop, pushnil, pushinteger}
  open data' use {touserdata}

  -- Each of the accessors leaves nil, or the size 0, and touches neither the network nor a block.
  -- The extractor leaves a text that says why it does nothing, and does not touch the disk.
  pub record IsReleased (w : HttpWorld lua lib) : Type 0 where
    pub update : http_update lua data' lib w ≡ push lua data' lib w pushnil
    pub body : http_data lua data' lib w ≡ push lua data' lib w pushnil
    pub size : http_data_size lua data' lib w ≡ push lua data' lib w (λ s. pushinteger s 0)
    pub content_type : http_content_type lua data' lib w ≡ push lua data' lib w pushnil
    pub error : http_error lua data' lib w ≡ push lua data' lib w pushnil
    pub error_code : http_error_code lua data' lib w ≡ push lua data' lib w pushnil
    pub extract :
        (disk : io.Disk)
        → http_extract_nx_archive lua data' lib io w disk ≡ (
            if ltb (gettop w.script) 2
            then say lua data' lib io w disk not_enough_params
            else say lua data' lib io w disk context_is_null)

  blocks_after :
      (w w' : HttpWorld lua lib) (count ctx : ℕ)
      → 1 ≤ gettop w.script
      → touserdata w.script 1 ≡ some ctx
      → http_release_context lua data' lib w ≡ some (count, w')
      → w'.blocks ≡ put_pointer w.blocks ctx none
  unfolding http_release_context
  blocks_after w w' count ctx one block run =
      let test : ltb (gettop w.script) 1 ≡ false = ground arith in
      elim (Option-cases (lib.http_release w.net (pointer w.blocks ctx))) [
        | inl e ↦ cc (rw (test, block, e) at run)
        | inr (net', e) ↦ cc (rw (test, block, e) at run)
      ]

  -- After `knHttpRelease` of a userdata has returned, all other functions called with the same
  -- userdata, by whichever of its copies, find no request.
  pub http_release_context-IsReleased :
      (w w' : HttpWorld lua lib) (count ctx : ℕ) (later : State)
      → 1 ≤ gettop w.script
      → touserdata w.script 1 ≡ some ctx
      → http_release_context lua data' lib w ≡ some (count, w')
      → 1 ≤ gettop later
      → touserdata later 1 ≡ some ctx
      → IsReleased (record w' { script = later })
  unfolding http_update http_data http_data_size http_content_type http_error http_error_code
      http_extract_nx_archive extract_context
  http_release_context-IsReleased w w' count ctx later one block run one' block' =
      let test : ltb (gettop later) 1 ≡ false = ground arith in
      let gone : pointer w'.blocks ctx ≡ none =
        ap (λ b. pointer b ctx) (blocks_after w w' count ctx one block run)
        ∙ pointer-put_pointer w.blocks ctx in
      record {
        update = rw (test, block', gone) refl;
        body = rw (test, block', gone) refl;
        size = rw (test, block', gone) refl;
        content_type = rw (test, block', gone) refl;
        error = rw (test, block', gone) refl;
        error_code = rw (test, block', gone) refl;
        extract = λ disk. rw (http_extract_nx_archive, extract_context, context, block', gone) refl;
      }
