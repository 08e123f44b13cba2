-- ===== src/Gamectl/Reload.antt =====
-- The simulated press of a key, of jni/gamectl.c.
use kn_shim.Base.{
  ℕ, ◌≡◌, refl, ap, ◌==◌, Bool, true, false, List, [], ◌∷◌, map, if◌then◌else◌, Bool-cases, inl,
  inr,
}
use kn_shim.Lua.{Lua}
use kn_shim.Gamectl.{GameState, reload, was_key_pressed_hook}

module _ (was_key_pressed : ℕ → Bool) where
  -- The answers to the game's questions about keys, one after the other.
  unfoldable pub answers : GameState → List ℕ → List Bool
  unfolding was_key_pressed_hook
  answers game [] = []
  answers game (ch ∷ chs) =
      let (pressed, game') = was_key_pressed_hook was_key_pressed game ch in
      pressed ∷ answers game' chs

  -- The original answers, but true at the first 'r'.
  unfoldable pub with_one_r : List ℕ → List Bool
  with_one_r [] = []
  with_one_r (ch ∷ chs) =
      let rest = with_one_r chs in
      if ch == b'r' then true ∷ map was_key_pressed chs else was_key_pressed ch ∷ rest

  answers-idle :
      (game : GameState) (chs : List ℕ)
      → game.wants_reload ≡ false
      → answers game chs ≡ map was_key_pressed chs
  unfolding answers was_key_pressed_hook
  answers-idle game [] e = refl
  answers-idle game (ch ∷ chs) e = rw e (
      ap (λ t. was_key_pressed ch ∷ t)
        (answers-idle (record game { wants_reload = false }) chs refl))

  answers-wanted :
      (game : GameState) (chs : List ℕ)
      → game.wants_reload ≡ true
      → answers game chs ≡ with_one_r chs
  unfolding answers with_one_r was_key_pressed_hook
  answers-wanted game [] e = refl
  answers-wanted game (ch ∷ chs) e = elim (Bool-cases (ch == b'r')) [
    | inl is ↦
        rw (e, is)
          (ap (λ t. true ∷ t) (answers-idle (record game { wants_reload = false }) chs refl))
    | inr differs ↦
        rw (e, differs)
          (ap (λ t. was_key_pressed ch ∷ t)
            (answers-wanted (record game { wants_reload = true }) chs refl))
  ]

  -- After `knReload`, called once or twice, the game's questions about keys get their original
  -- answers, but the first question about 'r' gets the answer true.
  pub answers-reload :
      (lua : Lua) (script : lua.State) (game : GameState) (chs : List ℕ)
      → (answers (reload lua script game).2 chs ≡ with_one_r chs)
        × (answers (reload lua script (reload lua script game).2).2 chs ≡ with_one_r chs)
  unfolding reload
  answers-reload lua script game chs = (answers-wanted _ chs refl, answers-wanted _ chs refl)
