-- ===== src/Startup/Main.antt =====
-- The order of the start-up.
use kn_shim.Base.{
  ℕ, ◌≡◌, ◌≢◌, refl, sym, ap, append-nil, append_assoc, ◌∙◌, Bool, true, false, Option, none, some,
  List, [], ◌∷◌, ◌++◌, map, length, ◌==◌, Bool-cases, inl, inr, ==_iff,
}
use kn_shim.Dict.Blob.{Bytes}
use kn_shim.Leaf.{Outcome, done, error, fault, stuck, ◌>>=◌, Linker}
use kn_shim.Leaf.Symbols.{symbol_addr}
use kn_shim.Leaf.Image.{Leaf, load_from_buffer}
use kn_shim.PeekPoke.{or_null}
use kn_shim.Startup.{
  Module, Build, module_init_funcs, Event, closed_asset, initialised, called_main, main_returned,
  main_name, init_modules, call_main, after_load, android_main,
}

-- The parts of a result.
>>=-done {ℓ κ} :
    {A : Type ℓ} {B : Type κ} (m : Outcome A) (f : A → Outcome B) {b : B}
    → (m >>= f) ≡ done b
    → (a : A) × (m ≡ done a) × (f a ≡ done b)
>>=-done (done a) f h = (a, refl, h)
>>=-done (error e) f h = absurd (cc)
>>=-done fault f h = absurd (cc)
>>=-done stuck f h = absurd (cc)

or_null-found : (found : Option ℕ) → or_null found ≢ 0 → found ≡ some (or_null found)
unfolding or_null
or_null-found none h = absurd (h refl)
or_null-found (some a) h = refl

-- The modules of a build, in the order of their initialisation: by BUILD_CIPHER and HYPERSPACE.
abbrev pub modules_of : Bool → Bool → List Module
modules_of false false = Module.lua ∷ Module.database ∷ []
modules_of true false = Module.lua ∷ Module.database ∷ Module.cipher ∷ []
modules_of false true = Module.lua ∷ Module.database ∷ Module.overlay ∷ []
modules_of true true = Module.lua ∷ Module.database ∷ Module.cipher ∷ Module.overlay ∷ []

module_init_funcs_lem :
    (build : Build) → module_init_funcs build ≡ modules_of build.build_cipher build.hyperspace
unfolding module_init_funcs
module_init_funcs_lem build = elim (Bool-cases build.build_cipher) [
  | inl c ↦ elim (Bool-cases build.hyperspace) [ inl h ↦ rw (c, h) refl | inr h ↦ rw (c, h) refl ]
  | inr c ↦ elim (Bool-cases build.hyperspace) [ inl h ↦ rw (c, h) refl | inr h ↦ rw (c, h) refl ]
]

module _ (linker : Linker) (init : Module → Leaf linker → Outcome (Leaf linker)) where
  -- The functions of the modules take the game from one state to another, each once and in order.
  pub data Inits : List Module → Leaf linker → Leaf linker → Type 0 where
    no_module : {leaf : Leaf linker} → Inits [] leaf leaf
    inits_one :
        {m : Module} {ms : List Module} {before mid after : Leaf linker}
        → init m before ≡ done mid
        → Inits ms mid after
        → Inits (m ∷ ms) before after

  init_modules-Inits :
      (ms : List Module) (events : List Event) (leaf : Leaf linker) {events' : List Event}
      {leaf' : Leaf linker}
      → init_modules linker init ms events leaf ≡ done (events', leaf')
      → Inits ms leaf leaf' × (events' ≡ events ++ map initialised ms)
  unfolding init_modules
  init_modules-Inits [] events leaf {events'} {leaf'} h =
      let same : leaf ≡ leaf' = cc in
      let listed : events' ≡ events = cc in
      (rw (sym same) no_module, listed ∙ sym (append-nil events))
  init_modules-Inits (m ∷ ms) events leaf h =
      let (mid, one, rest) = >>=-done (init m leaf) _ h in
      let (later, listed) = init_modules-Inits ms (events ++ initialised m ∷ []) mid rest in
      (inits_one one later, listed ∙ append_assoc events (initialised m ∷ []) (map initialised ms))

  -- What has happened when the game's main function was called.
  pub record Ran (build : Build) (asset : Option Bytes) (events : List Event) : Type 0 where
    pub contents : Bytes
    pub leaf : Leaf linker
    pub calls : List ℕ
    pub main : ℕ
    pub leaf' : Leaf linker
    pub found_asset : asset ≡ some contents
    pub loaded : load_from_buffer linker contents (length contents) ≡ done (leaf, calls)
    pub inits : Inits (modules_of build.build_cipher build.hyperspace) leaf leaf'
    pub symbol : symbol_addr leaf'.blob leaf'.table main_name ≡ done (some main)
    pub not_null : main ≢ 0
    pub order :
        events
        ≡ closed_asset ∷ map initialised (modules_of build.build_cipher build.hyperspace)
          ++ called_main main ∷ []

  -- What the call of the main function tells.
  record Called (before events : List Event) (leaf : Leaf linker) : Type 0 where
    main : ℕ
    symbol : symbol_addr leaf.blob leaf.table main_name ≡ done (some main)
    not_null : main ≢ 0
    order : events ≡ before ++ called_main main ∷ []

  call_main-Called :
      (before : List Event) (leaf : Leaf linker) {events : List Event}
      → call_main linker init before leaf ≡ done (events, main_returned)
      → Called before events leaf
  unfolding call_main
  call_main-Called before leaf {events} h =
      let (found, symbol, rest) = >>=-done (symbol_addr leaf.blob leaf.table main_name) _ h in
      elim (Bool-cases (or_null found == 0)) [
        | inl is ↦ absurd (cc (rw is at rest))
        | inr differs ↦
            let not_null : or_null found ≢ 0 =
              λ e. cc (sym differs ∙ (==_iff (or_null found) 0).1 e) in
            let ran : done (before ++ called_main (or_null found) ∷ [], main_returned)
                ≡ done (events, main_returned) =
              rw differs at rest in
            record {
              main = or_null found;
              symbol = symbol ∙ ap done (or_null-found found not_null);
              not_null = not_null;
              order = cc ran;
            }
      ]

  after_load-Ran :
      (build : Build) (contents : Bytes) (r : Outcome (Leaf linker × List ℕ)) {events : List Event}
      → load_from_buffer linker contents (length contents) ≡ r
      → after_load linker init build r ≡ done (events, main_returned)
      → Ran build (some contents) events
  unfolding after_load
  after_load-Ran build contents (error e) loaded h = absurd (cc)
  after_load-Ran build contents fault loaded h = absurd (cc)
  after_load-Ran build contents stuck loaded h = absurd (cc)
  after_load-Ran build contents (done (leaf, calls)) loaded h =
      let ((before, leaf'), inits, rest) =
        >>=-done (init_modules linker init (module_init_funcs build) (closed_asset ∷ []) leaf) _
          h in
      let called = call_main-Called before leaf' rest in
      let (chain, listed) =
        init_modules-Inits (module_init_funcs build) (closed_asset ∷ []) leaf inits in
      let modules = module_init_funcs_lem build in
      record {
        contents = contents;
        leaf = leaf;
        calls = calls;
        main = called.main;
        leaf' = leaf';
        found_asset = refl;
        loaded = loaded;
        inits = rw modules at chain;
        symbol = called.symbol;
        not_null = called.not_null;
        order =
            called.order
            ∙ ap (λ e. e ++ called_main called.main ∷ [])
                (listed ∙ ap (λ ms. (closed_asset ∷ []) ++ map initialised ms) modules);
      }

  -- The game's main function is called only after the file was found and loaded and the modules of
  -- the build were initialised, each once and in the order of the table; it is the address, not
  -- NULL, that the game then has under "android_main", and its call is the last thing that happens.
  pub android_main-Ran :
      (build : Build) (leaf_ok : Bool) (asset : Option Bytes) {events : List Event}
      → android_main linker init build leaf_ok asset ≡ done (events, main_returned)
      → Ran build asset events
  unfolding android_main
  android_main-Ran build false asset h = absurd (cc)
  android_main-Ran build true none h = absurd (cc)
  android_main-Ran build true (some contents) h =
      after_load-Ran build contents (load_from_buffer linker contents (length contents)) refl h
