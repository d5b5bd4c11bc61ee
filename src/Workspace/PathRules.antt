-- ===== src/Workspace/PathRules.antt =====
-- crates/artel-fs/src/rules.rs (`PathRules`): which paths of a workspace peers can write. A text is a
-- list of code points, and an error is on the left of a sum. The crates globset and unicode_normalization are parameters, as is what the
-- bytes of a path component spell.
pub mod Compiled
use artel.Common.{
  ℕ, suc, Bool, true, false, Option, none, some, List, [], ◌∷◌, ◌++◌, ◌||◌, if◌then◌else◌, ◌==◌,
  any, get_elem?, ◌⊎◌, inl, inr,
}
use artel.Protocol.Bytes.{Bytes, bytes_eq}

pub data Mode : Type 0 where
  read_write read_only : Mode

pub record PathRule : Type 0 where
  pub glob : Bytes
  pub mode : Mode

pub record PathRules : Type 0 where
  pub default : Mode
  pub rules : List PathRule

-- `std::path::Component`
pub data Component : Type 0 where
  normal : Bytes → Component
  cur_dir parent_dir root_dir prefix : Component

pub data PathRulesError : Type 0 where
  empty_glob : PathRulesError
  absolute_glob parent_traversal_glob : Bytes → PathRulesError
  invalid_glob : Bytes → Bytes → PathRulesError

-- What the code calls of the other crates: `nfc`, `OsStr::to_str`, `Glob::new`, `is_match` of a
-- compiled glob, `GlobSetBuilder::build`, and the numbers of the globs of a set that match.
pub record Globset (Glob GlobSet : Type 0) : Type 0 where
  pub nfc : Bytes → Bytes
  pub to_str : Bytes → Option Bytes
  pub new_glob : Bytes → Bytes ⊎ Glob
  pub is_match : Glob → Bytes → Bool
  pub build : List Glob → Bytes ⊎ GlobSet
  pub matches : GlobSet → Bytes → List ℕ

pub record CompiledPathRules (GlobSet : Type 0) : Type 0 where
  pub default : Mode
  pub set : GlobSet
  pub modes : List Mode

-- `split('/')`
abbrev cons_first : ℕ → List Bytes → List Bytes
cons_first c [] = (c ∷ []) ∷ []
cons_first c (seg ∷ segs) = (c ∷ seg) ∷ segs

unfoldable pub split : Bytes → List Bytes
split [] = [] ∷ []
split (c ∷ cs) = let rest = split cs in if c == 47 then [] ∷ rest else cons_first c rest

-- `g.starts_with('/') || g.starts_with('\\')`
unfoldable pub is_absolute : Bytes → Bool
is_absolute [] = false
is_absolute (c ∷ cs) = c == 47 || c == 92

-- `parts.join("/")`
unfoldable pub join : List Bytes → Bytes
join [] = []
join (part ∷ []) = part
join (part ∷ next ∷ parts) = part ++ 47 ∷ join (next ∷ parts)

-- `matches.first()`, and `self.modes[idx]`, which panics (`none`) out of range.
unfoldable pub first_mode : Mode → List ℕ → List Mode → Option Mode
first_mode default [] modes = some default
first_mode default (idx ∷ rest) modes = get_elem? modes idx

module _ {Glob GlobSet : Type 0} (crate : Globset Glob GlobSet) where
  unfoldable pub match_parts : List Component → Option (List Bytes)
  match_parts [] = some []
  match_parts (normal part ∷ cs) = elim (crate.to_str part) [
    | none ↦ none
    | some s ↦ elim (match_parts cs) [ none ↦ none | some parts ↦ some (crate.nfc s ∷ parts) ]
  ]
  match_parts (cur_dir ∷ cs) = match_parts cs
  match_parts (_ ∷ cs) = none

  unfoldable pub path_to_match_string : List Component → Option Bytes
  path_to_match_string rel = elim (match_parts rel) [ none ↦ none | some parts ↦ some (join parts) ]

  unfoldable pub glob_matches_one : Bytes → Bytes → Bool
  glob_matches_one glob hay = elim (crate.new_glob (crate.nfc glob)) [
    | inl reason ↦ false
    | inr g ↦ crate.is_match g hay
  ]

  unfoldable pub new_or_invalid : Bytes → PathRulesError ⊎ Glob
  new_or_invalid g = elim (crate.new_glob (crate.nfc g)) [
    | inl reason ↦ inl (invalid_glob g reason)
    | inr glob ↦ inr glob
  ]

  unfoldable pub validate_glob : Bytes → PathRulesError ⊎ Unit {0}
  validate_glob [] = inl empty_glob
  validate_glob (c ∷ cs) =
      if is_absolute (c ∷ cs)
      then inl (absolute_glob (c ∷ cs))
      else if any (bytes_eq (46 ∷ 46 ∷ [])) (split (c ∷ cs))
      then inl (parent_traversal_glob (c ∷ cs))
      else elim (new_or_invalid (c ∷ cs)) [ inl e ↦ inl e | inr glob ↦ inr tt ]

  -- The loop of the slow path.
  unfoldable pub first_match : Mode → List PathRule → Bytes → Mode
  first_match default [] hay = default
  first_match default (rule ∷ rules) hay =
      if glob_matches_one rule.glob hay then rule.mode else first_match default rules hay

  unfoldable pub mode_for : PathRules → List Component → Mode
  mode_for r rel = elim (path_to_match_string rel) [
    | none ↦ r.default
    | some hay ↦ first_match r.default r.rules hay
  ]

  -- The loop of `compile`: the globs that the builder gets, and the modes.
  unfoldable pub compile_rules : List PathRule → PathRulesError ⊎ (List Glob × List Mode)
  compile_rules [] = inr ([], [])
  compile_rules (rule ∷ rules) = elim (validate_glob rule.glob) [
    | inl e ↦ inl e
    | inr _ ↦ elim (new_or_invalid rule.glob) [
      | inl e ↦ inl e
      | inr glob ↦ elim (compile_rules rules) [
        | inl e ↦ inl e
        | inr (globs, modes) ↦ inr (glob ∷ globs, rule.mode ∷ modes)
      ]
    ]
  ]

  unfoldable pub compile : PathRules → PathRulesError ⊎ CompiledPathRules GlobSet
  compile r = elim (compile_rules r.rules) [
    | inl e ↦ inl e
    | inr (globs, modes) ↦ elim (crate.build globs) [
      | inl reason ↦ inl (invalid_glob [] reason)
      | inr set ↦ inr (record { default = r.default; set = set; modes = modes })
    ]
  ]

  unfoldable pub compiled_mode_for : CompiledPathRules GlobSet → List Component → Option Mode
  compiled_mode_for c rel = elim (path_to_match_string rel) [
    | none ↦ some c.default
    | some hay ↦ first_mode c.default (crate.matches c.set hay) c.modes
  ]
