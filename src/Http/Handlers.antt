-- ===== src/Http/Handlers.antt =====
-- The handlers of jni/http.c.
use kn_shim.Base.{
  ℕ, not, Option, none, some, List, [], ◌∷◌, ◌++◌, length, ltb, ◌==◌, if◌then◌else◌, ◌>>=◌,
}
use kn_shim.Dict.Blob.{Bytes}
use kn_shim.Lua.{Lua, c_string}
use kn_shim.Http.{
  HttpLib, Userdata, pending, completed, failed, status_number, pointer, put_pointer,
}

-- The script, the network, and the pointers of the blocks.
pub record HttpWorld (lua : Lua) (lib : HttpLib) : Type 0 where
  pub script : lua.State
  pub net : lib.Net
  pub blocks : List (Option lib.Request)

module _ (lua : Lua) (data' : Userdata lua) (lib : HttpLib) where
  open lua use {State, gettop, tolstring, pushnil, pushboolean, pushinteger, pushlstring}
  open data' use {touserdata, newuserdata}
  open lib use {Request, http_get, http_post, http_process, http_release}

  abbrev pub push : HttpWorld lua lib → (State → State) → ℕ × HttpWorld lua lib
  push w f = (1, record w { script = f w.script })

  -- The body is read with `lua_tolstring` where there is a second argument.
  pub start_request : HttpWorld lua lib → Bytes → HttpWorld lua lib × Option Request
  start_request w url =
      if gettop w.script == 1
      then (let (net', request) = http_get w.net (c_string url) in
          (record w { net = net' }, request))
      else (let (script', body) = tolstring w.script 2 in
          let (net', request) = http_post w.net (c_string url) body in
          (record w { script = script'; net = net' }, request))

  unfoldable pub http_request : HttpWorld lua lib → ℕ × HttpWorld lua lib
  unfolding start_request
  http_request w =
      if ltb (gettop w.script) 1
      then push w pushnil
      else (let (script1, url) = tolstring w.script 1 in
          elim url [
            | none ↦ push (record w { script = script1 }) pushnil
            | some u ↦
                let (w', request) = start_request (record w { script = script1 }) u in
                elim request [
                  | none ↦ push w' pushnil
                  | some r ↦ (
                    1,
                    record {
                      script = newuserdata w'.script (length w'.blocks);
                      net = w'.net;
                      blocks = w'.blocks ++ some r ∷ [];
                    },
                  )
                ]
          ])

  -- The guards of the handlers: the block of the first argument and the request in it.
  abbrev pub context : HttpWorld lua lib → Option Request
  context w = elim (touserdata w.script 1) [ none ↦ none | some ctx ↦ pointer w.blocks ctx ]

  unfoldable pub http_update : HttpWorld lua lib → ℕ × HttpWorld lua lib
  unfolding status_number
  http_update w = if ltb (gettop w.script) 1 then push w pushnil else elim (context w) [
    | none ↦ push w pushnil
    | some r ↦
        let (net', status) = http_process w.net r in
        push (record w { net = net' }) (λ s. pushinteger s (status_number status))
  ]

  unfoldable pub http_data : HttpWorld lua lib → ℕ × HttpWorld lua lib
  http_data w = if ltb (gettop w.script) 1 then push w pushnil else elim (context w) [
    | none ↦ push w pushnil
    | some r ↦ elim (lib.status w.net r) [
      | completed ↦ push w (λ s. pushlstring s (lib.response_data w.net r))
      | pending ↦ push w pushnil
      | failed ↦ push w pushnil
    ]
  ]

  -- 0 where there is no request.
  unfoldable pub http_data_size : HttpWorld lua lib → ℕ × HttpWorld lua lib
  http_data_size w = if ltb (gettop w.script) 1 then push w pushnil else elim (context w) [
    | none ↦ push w (λ s. pushinteger s 0)
    | some r ↦ push w (λ s. pushinteger s (lib.response_size w.net r))
  ]

  unfoldable pub http_content_type : HttpWorld lua lib → ℕ × HttpWorld lua lib
  http_content_type w = if ltb (gettop w.script) 1 then push w pushnil else elim (context w) [
    | none ↦ push w pushnil
    | some r ↦ elim (lib.content_type w.net r) [
      | none ↦ push w pushnil
      | some text ↦
          if not (length (c_string text) == 0)
          then push w (λ s. pushlstring s (c_string text))
          else push w pushnil
    ]
  ]

  unfoldable pub http_error : HttpWorld lua lib → ℕ × HttpWorld lua lib
  http_error w = if ltb (gettop w.script) 1 then push w pushnil else elim (context w) [
    | none ↦ push w pushnil
    | some r ↦ elim (lib.reason_phrase w.net r) [
      | none ↦ push w pushnil
      | some text ↦ push w (λ s. pushlstring s (c_string text))
    ]
  ]

  unfoldable pub http_error_code : HttpWorld lua lib → ℕ × HttpWorld lua lib
  http_error_code w = if ltb (gettop w.script) 1 then push w pushnil else elim (context w) [
    | none ↦ push w pushnil
    | some r ↦ push w (λ s. pushinteger s (lib.status_code w.net r))
  ]

  -- The pointer is passed on even where it is NULL.
  unfoldable pub http_release_context : HttpWorld lua lib → Option (ℕ × HttpWorld lua lib)
  http_release_context w =
      if ltb (gettop w.script) 1 then some (0, w) else elim (touserdata w.script 1) [
        | none ↦ some (0, w)
        | some ctx ↦ do
          net' ← http_release w.net (pointer w.blocks ctx)
          some (0, record { script = w.script; net = net'; blocks = put_pointer w.blocks ctx none })
      ]
