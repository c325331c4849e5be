-- ===== src/Config/Allowlist.antt =====
-- config/cors.config.ts: the allowlist of origins.
use mathlib.Core.List.{Memᴰ}
use gym_saas_be.Prelude.{
  ◌≡◌, refl, ◌<◌, ◌↔◌, ◌⊎◌, Option, none, some, List, [], ◌∷◌, Text, arith, All, length, trim,
  trim-trim, inl, inr, sym, subst,
}
use gym_saas_be.Config.{
  default_frontend_url, split, filled_or, frontend_origin, origins_or, configured,
  resolve_cors_origins,
}
use gym_saas_be.Config.Origins.{
  mem-cases, IsClean, Distinct, trimmed-IsClean, unique-All, unique-Distinct, unique_iff, IsPiece,
  trimmed_iff,
}

-- The variable lists the origin.
abbrev pub Listed : Option Text → Text → Type 0
unfolding split
Listed none o = ⊥
Listed (some origins) o = IsPiece (split b',' origins) o

configured_iff : (c : Option Text) (o : Text) → Memᴰ o (configured c) ↔ Listed c o
unfolding configured
configured_iff none o = ((λ m. elim m [ ]), λ f. absurd f)
configured_iff (some origins) o = trimmed_iff o (split b',' origins)

configured-IsClean : (c : Option Text) → All IsClean (configured c)
unfolding configured
configured-IsClean none = tt
configured-IsClean (some origins) = trimmed-IsClean (split b',' origins)

filled_or-IsClean : (s other : Text) → trim s ≡ s → IsClean other → IsClean (filled_or s other)
filled_or-IsClean [] other e h = h
filled_or-IsClean (c ∷ s) other e h = ((λ z. cc), e)

frontend_origin-IsClean : (f : Option Text) → IsClean (frontend_origin f)
unfolding frontend_origin trim
frontend_origin-IsClean none = ((λ z. cc), refl)
frontend_origin-IsClean (some url) =
    filled_or-IsClean (trim url) default_frontend_url (trim-trim url) ((λ z. cc), refl)

-- The list is not empty, without repetitions, and of clean origins.
pub record IsAllowlist (l : List Text) : Type 0 where
  pub filled : 0 < length l
  pub clean : All IsClean l
  pub distinct : Distinct l

origins_or_lem :
    (c f : Option Text) (l : List Text)
    → configured c ≡ l
    → IsAllowlist (origins_or l f)
      × ((o : Text)
          → (Listed c o → Memᴰ o (origins_or l f))
            × (Memᴰ o (origins_or l f)
                → Listed c o ⊎ (((x : Text) → ¬ Listed c x) × (o ≡ frontend_origin f))))
unfolding origins_or
origins_or_lem c f [] e = (
  record { filled = omega arith; clean = (frontend_origin-IsClean f, tt); distinct = (tt, tt) },
  λ o.
      let nothing : (x : Text) → ¬ Listed c x =
        λ x h. elim (subst (Memᴰ x) e ((configured_iff c x).1 h)) [ ] in
      (
        (λ h. absurd (nothing o h)),
        λ m. elim (mem-cases o (frontend_origin f) [] m) [
          | inl same ↦ inr (nothing, same)
          | inr m' ↦ elim m' [ ]
        ],
      ),
)
origins_or_lem c f (s ∷ rest) e = (
  record {
    filled = omega arith;
    clean = unique-All IsClean (s ∷ rest) (subst (All IsClean) e (configured-IsClean c));
    distinct = unique-Distinct (s ∷ rest);
  },
  λ o. (
    (λ h. (unique_iff o (s ∷ rest)).1 (subst (Memᴰ o) e ((configured_iff c o).1 h))),
    λ m. inl ((configured_iff c o).0 (subst (Memᴰ o) (sym e) ((unique_iff o (s ∷ rest)).0 m))),
  ),
)

-- The origins that are allowed are never none, all different, and without white space around them;
-- they are the pieces of the list of origins that are not blank, or, if there is no such piece, the
-- frontend's address alone.
pub resolve_cors_origins_lem :
    (cors_origins frontend_url : Option Text)
    → let l = resolve_cors_origins cors_origins frontend_url in
      IsAllowlist l
      × ((o : Text)
          → (Listed cors_origins o → Memᴰ o l)
            × (Memᴰ o l
                → Listed cors_origins o
                  ⊎ (((x : Text) → ¬ Listed cors_origins x) × (o ≡ frontend_origin frontend_url))))
unfolding resolve_cors_origins
resolve_cors_origins_lem c f = origins_or_lem c f (configured c) refl
