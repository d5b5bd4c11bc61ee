-- ===== src/Workspace/PathRules/Compiled.antt =====
-- crates/artel-fs/src/rules.rs: the precompiled rules against the slow path.
use artel.Common.{
  ℕ, zero, suc, ◌≡◌, refl, ◌∙◌, some, List, [], ◌∷◌, map, ◌⊎◌, inl, inr, if◌then◌else◌, subst,
  Bool-cases, Option-cases,
}
use artel.Protocol.Bytes.{Bytes}
use artel.Workspace.PathRules.{
  Mode, PathRule, PathRules, Component, PathRulesError, Globset, CompiledPathRules,
  path_to_match_string, glob_matches_one, new_or_invalid, validate_glob, first_match, mode_for,
  compile_rules, compile, first_mode, compiled_mode_for,
}

Sum-cases : {A B : Type 0} (s : A ⊎ B) → ((a : A) × (s ≡ inl a)) ⊎ ((b : B) × (s ≡ inr b))
Sum-cases (inl a) = inl (a, refl)
Sum-cases (inr b) = inr (b, refl)

first_mode-later :
    (default : Mode) (hits : List ℕ) (m : Mode) (ms : List Mode)
    → first_mode default (map suc hits) (m ∷ ms) ≡ first_mode default hits ms
unfolding first_mode
first_mode-later default [] m ms = refl
first_mode-later default (hit ∷ hits) m ms = refl

module _ {Glob GlobSet : Type 0} (crate : Globset Glob GlobSet) where
  -- The numbers of the globs that match, in rising order.
  abbrev pub matching : Bytes → List Glob → List ℕ
  matching hay [] = []
  matching hay (g ∷ gs) =
      let rest = map suc (matching hay gs) in if crate.is_match g hay then zero ∷ rest else rest

  -- The documented behaviour of a set that was built.
  pub record GlobsetLaws : Type 0 where
    pub matches-build :
        (gs : List Glob) (set : GlobSet) (hay : Bytes)
        → crate.build gs ≡ inr set
        → crate.matches set hay ≡ matching hay gs

  -- What is compiled gives the mode of the slow path.
  abbrev Serves : Mode → Bytes → List PathRule → PathRulesError ⊎ (List Glob × List Mode) → Type 0
  Serves default hay rules (inl e) = Unit {0}
  Serves default hay rules (inr (globs, modes)) =
      first_mode default (matching hay globs) modes ≡ some (first_match crate default rules hay)

  first_mode-step :
      (default : Mode) (hay : Bytes) (rule : PathRule) (rules : List PathRule) (g : Glob)
      (globs : List Glob) (modes : List Mode)
      → crate.new_glob (crate.nfc rule.glob) ≡ inr g
      → first_mode default (matching hay globs) modes ≡ some (first_match crate default rules hay)
      → first_mode default (matching hay (g ∷ globs)) (rule.mode ∷ modes)
        ≡ some (first_match crate default (rule ∷ rules) hay)
  unfolding first_match glob_matches_one
  first_mode-step default hay rule rules g globs modes made ih =
      elim (Bool-cases (crate.is_match g hay)) [
        | inl hit ↦ rw (first_match, glob_matches_one, made, hit) (unfold first_mode in refl)
        | inr miss ↦
            rw (first_match, glob_matches_one, made, miss)
              (first_mode-later default (matching hay globs) rule.mode modes ∙ ih)
      ]

  compile_rules-Serves :
      (default : Mode) (hay : Bytes) (rules : List PathRule)
      → Serves default hay rules (compile_rules crate rules)
  unfolding compile_rules new_or_invalid
  compile_rules-Serves default hay [] = unfold first_mode first_match in refl
  compile_rules-Serves default hay (rule ∷ rules) =
      elim (Sum-cases (validate_glob crate rule.glob)) [
        | inl (e, bad) ↦ rw (Serves, compile_rules, bad) tt
        | inr (_, good) ↦ elim (Sum-cases (crate.new_glob (crate.nfc rule.glob))) [
          | inl (reason, bad) ↦ rw (Serves, compile_rules, new_or_invalid, good, bad) tt
          | inr (g, made) ↦ elim (Sum-cases (compile_rules crate rules)) [
            | inl (e, bad) ↦ rw (Serves, compile_rules, new_or_invalid, good, made, bad) tt
            | inr ((globs, modes), rest) ↦
                rw (Serves, compile_rules, new_or_invalid, good, made, rest)
                  (first_mode-step default hay rule rules g globs modes made (
                    subst (Serves default hay rules) rest (compile_rules-Serves default hay rules)))
          ]
        ]
      ]

  module _ (laws : GlobsetLaws) where
    -- What `compile` makes of the rules gives every path the mode that the slow path gives it.
    abbrev Agrees : PathRules → List Component → PathRulesError ⊎ CompiledPathRules GlobSet → Type 0
    Agrees r rel (inl e) = Unit {0}
    Agrees r rel (inr c) = compiled_mode_for crate c rel ≡ some (mode_for crate r rel)

    built-Agrees :
        (r : PathRules) (rel : List Component) (globs : List Glob) (modes : List Mode)
        (set : GlobSet)
        → crate.build globs ≡ inr set
        → compile_rules crate r.rules ≡ inr (globs, modes)
        → Agrees r rel (inr (record { default = r.default; set = set; modes = modes }))
    unfolding compiled_mode_for mode_for
    built-Agrees r rel globs modes set built made =
        elim (Option-cases (path_to_match_string crate rel)) [
          | inl outside ↦ rw (Agrees, compiled_mode_for, mode_for, outside) refl
          | inr (hay, path) ↦
              rw (Agrees, compiled_mode_for, mode_for, path, laws.matches-build globs set hay built)
                (subst (Serves r.default hay r.rules) made
                  (compile_rules-Serves r.default hay r.rules))
        ]

    compile-Agrees : (r : PathRules) (rel : List Component) → Agrees r rel (compile crate r)
    unfolding compile
    compile-Agrees r rel = elim (Sum-cases (compile_rules crate r.rules)) [
      | inl (e, bad) ↦ rw (Agrees, compile, bad) tt
      | inr ((globs, modes), made) ↦ elim (Sum-cases (crate.build globs)) [
        | inl (reason, bad) ↦ rw (Agrees, compile, made, bad) tt
        | inr (set, built) ↦
            rw (Agrees, compile, made, built) (built-Agrees r rel globs modes set built made)
      ]
    ]

    -- Rules that compile give every path, also one that leaves the workspace, the mode that the slow
    -- path gives it: that of the first rule whose glob matches, or the default. They never panic.
    pub compiled_mode_for-compile :
        (r : PathRules) (rel : List Component) (c : CompiledPathRules GlobSet)
        → compile crate r ≡ inr c
        → compiled_mode_for crate c rel ≡ some (mode_for crate r rel)
    compiled_mode_for-compile r rel c h = subst (Agrees r rel) h (compile-Agrees r rel)
