-- ===== src/Gamectl/Sayings.antt =====
-- `knShitpost` of jni/gamectl.c.
use Prim.Native.String.{String}
use Prim.Native.Char.{code}
use kn_shim.Base.{ℕ, ◌%◌, List, [], ◌∷◌, some, get_or, length}
use kn_shim.Dict.Blob.{Bytes}
use kn_shim.Lua.{Lua}
use kn_shim.System.{pushstring}

-- The bytes of an ASCII text.
abbrev codes : String → Bytes
codes String.[] = []
codes (String.◌∷◌ c s) = code c ∷ codes s

abbrev pub sayings : List String
sayings =
    "Smash Hit Cdde Mode" ∷ "Speedrun this Game!"
    ∷ "<aitiktokvoice>99% of people cannot beat the first level in this ultra-challenging game. It's called Smash Hit and is free on Google PlayStore. Download now!</aitiktokvoice>"
    ∷ "coffee stain more like shit stain" ∷ "Miles 'Tails' Prower is god"
    ∷ "SHN sucks, and that's a fact" ∷ "KnShim (C) 2024 - 2025 Knot126"
    ∷ "I really like the idea of the string 'Fur Affinity' being in KnShim, so here it is" ∷ []

-- What `rand` answers is an argument.
unfoldable pub shitpost : (lua : Lua) → ℕ → lua.State → ℕ × lua.State
unfolding pushstring
shitpost lua rand script =
    (1, pushstring lua script (some (codes (get_or sayings (rand % length sayings) ""))))
