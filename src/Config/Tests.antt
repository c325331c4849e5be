-- ===== src/Config/Tests.antt =====
-- Origins as the tests of the repository give them, and the theorem applied to some.
use mathlib.Core.List.{Memᴰ}
use gym_saas_be.Prelude.{◌≡◌, refl, ◌⊎◌, none, some, [], ◌∷◌, Text, codes, text_eq}
use gym_saas_be.Config.{resolve_cors_origins, frontend_origin}
use gym_saas_be.Config.Allowlist.{IsAllowlist, Listed, resolve_cors_origins_lem}

abbrev origins : Text
origins = codes "http://localhost:5174, ,http://localhost:5174"

runs : Unit {0}
unfolding resolve_cors_origins text_eq
runs = tt

repeated_once : resolve_cors_origins (some origins) none ≡ codes "http://localhost:5174" ∷ []
unfolding runs
repeated_once = refl

nothing_set : resolve_cors_origins none none ≡ codes "http://localhost:5173" ∷ []
unfolding runs
nothing_set = refl

only_frontend :
    resolve_cors_origins (some (codes " ,")) (some (codes " http://gym.test "))
    ≡ codes "http://gym.test" ∷ []
unfolding runs
only_frontend = refl

resolve_cors_origins_lem_example :
    let l = resolve_cors_origins (some origins) none in
    IsAllowlist l
    × ((o : Text)
        → (Listed (some origins) o → Memᴰ o l)
          × (Memᴰ o l
              → Listed (some origins) o
                ⊎ (((x : Text) → ¬ Listed (some origins) x) × (o ≡ frontend_origin none))))
resolve_cors_origins_lem_example = resolve_cors_origins_lem (some origins) none
