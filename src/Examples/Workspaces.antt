-- ===== src/Examples/Workspaces.antt =====
-- Runs over a workspace's map of peers and its echo guard.
use artel.Common.{
  ℕ, zero, suc, ◌≡◌, refl, sym, ap, ◌∙◌, arith, true, false, none, some, List, [], ◌∷◌, map, inl,
  inr, if◌then◌else◌, any,
}
use artel.Common.Map
use artel.Common.Set
use artel.Protocol.Capability.{capability_eq}
use artel.Protocol.Bytes.{Bytes, codes, bytes_eq}
use artel.Session.{project_caps}
use artel.Workspace.PeerMap.{
  PeerMap, starting, with_state, is_revoked, register, project, apply_capability, has_rw, rw_author,
  revoked_author, unresolvable, classify_author,
}
use artel.Workspace.PeerMap.Projection.{see_all, see_all-project_caps}
use artel.Workspace.PeerMap.Blocked.{
  PeerCall, registered, capability_seen, finished, began, peer_calls, IsRefused, revoke-IsRefused,
}
use artel.Workspace.EchoGuard.{duplicate, is_hash}
use artel.Workspace.EchoGuard.Echoes.{
  Call, remote_write, remote_delete, released, after, answers, answers-after,
}
use artel.Workspace.PathRules.{
  Mode, read_only, PathRules, Component, normal, cur_dir, Globset, CompiledPathRules, split,
  is_absolute, join, match_parts, path_to_match_string, glob_matches_one, new_or_invalid,
  validate_glob, first_match, mode_for, compile_rules, compile, compiled_mode_for,
}
use artel.Workspace.PathRules.Compiled.{matching, GlobsetLaws, compiled_mode_for-compile}
use artel.Examples.{toy_postcard, toy_decode, hosted}

-- A peer wrote the file, and deleted it after the write had been released.
abbrev deleted_file : List Call
deleted_file = remote_delete 1 ∷ released 1 ∷ remote_write 1 9 ∷ []

answers-after_example : answers 1 9 (after deleted_file) ≡ (false, true, duplicate)
unfolding is_hash
answers-after_example = answers-after 1 9 deleted_file

see_all-project_caps_example :
    (Map.get 9 (see_all toy_postcard 5 hosted.log (starting 5)).caps
      ≡ Map.get 9 (project_caps toy_postcard 5 hosted.log))
    × (is_revoked (see_all toy_postcard 5 hosted.log (starting 5)) 9 ≡ true
        → Map.get 9 (project_caps toy_postcard 5 hosted.log) ≡ none)
see_all-project_caps_example =
    see_all-project_caps toy_postcard 5 9 hosted.log (λ e. omega arith) (omega arith, tt)

abbrev known_peer : PeerMap
known_peer = (register 30 9 (starting 5)).1

-- The peer grants itself the write tier, and a second peer comes.
abbrev attempts : List PeerCall
attempts = capability_seen 9 (2 ∷ 9 ∷ []) ∷ registered 31 12 ∷ finished ∷ began ∷ []

revoke-IsRefused_example :
    IsRefused 30 9
      (peer_calls toy_postcard attempts (apply_capability toy_postcard 5 (3 ∷ 9 ∷ []) known_peer))
unfolding register starting with_state toy_decode Map.get Map.insert
revoke-IsRefused_example =
    revoke-IsRefused toy_postcard 5 30 9 (3 ∷ 9 ∷ []) attempts known_peer refl refl refl
      (λ e. absurd (omega arith), (λ e. absurd (omega arith), (tt, (tt, tt))))

-- Who wrote an entry of the document, before and after the revocation.
abbrev granted_peer : PeerMap
granted_peer = apply_capability toy_postcard 5 (2 ∷ 9 ∷ []) known_peer

classify_author-granted : classify_author granted_peer 30 ≡ rw_author
unfolding classify_author apply_capability project register starting with_state toy_decode has_rw
    capability_eq Map.get Map.insert Set.contains Set.remove
classify_author-granted = refl

classify_author-revoked :
    classify_author (apply_capability toy_postcard 5 (3 ∷ 9 ∷ []) granted_peer) 30 ≡ revoked_author
unfolding classify_author apply_capability project register starting with_state toy_decode has_rw
    capability_eq Map.get Map.insert Map.remove Set.contains Set.remove Set.insert
classify_author-revoked = refl

classify_author-unknown : classify_author granted_peer 31 ≡ unresolvable
unfolding classify_author apply_capability project register starting with_state toy_decode has_rw
    capability_eq Map.get Map.insert Set.contains Set.remove
classify_author-unknown = refl

-- Globs without wildcards, and sets of them.
abbrev toy_hits : Bytes → List Bytes → List ℕ
toy_hits hay [] = []
toy_hits hay (g ∷ gs) =
    let rest = map suc (toy_hits hay gs) in if bytes_eq g hay then zero ∷ rest else rest

abbrev toy_globset : Globset Bytes (List Bytes)
toy_globset = record {
  nfc = λ s. s;
  to_str = some;
  new_glob = inr;
  is_match = bytes_eq;
  build = inr;
  matches = λ gs hay. toy_hits hay gs;
}

toy_hits-matching : (hay : Bytes) (gs : List Bytes) → toy_hits hay gs ≡ matching toy_globset hay gs
toy_hits-matching hay [] = refl
toy_hits-matching hay (g ∷ gs) = rw (toy_hits-matching hay gs) refl

toy_globset-GlobsetLaws : GlobsetLaws toy_globset
toy_globset-GlobsetLaws = record {
  matches-build = λ gs set hay h.
      let same : gs ≡ set = ap (λ s. elim s [ inl _ ↦ gs | inr x ↦ x ]) h in
      ap (toy_hits hay) (sym same) ∙ toy_hits-matching hay gs;
}

abbrev doc_rules : PathRules
doc_rules = record {
  default = Mode.read_write;
  rules = record { glob = codes "a/b"; mode = read_only } ∷ [];
}

abbrev doc_compiled : CompiledPathRules (List Bytes)
doc_compiled = record { default = Mode.read_write; set = codes "a/b" ∷ []; modes = read_only ∷ [] }

abbrev doc_path : List Component
doc_path = normal (codes "a") ∷ cur_dir ∷ normal (codes "b") ∷ []

compiled_mode_for-compile_example :
    compiled_mode_for toy_globset doc_compiled doc_path
    ≡ some (mode_for toy_globset doc_rules doc_path)
unfolding compile compile_rules validate_glob new_or_invalid split is_absolute any bytes_eq
compiled_mode_for-compile_example =
    compiled_mode_for-compile toy_globset toy_globset-GlobsetLaws doc_rules doc_path doc_compiled
      refl

mode_for-doc : mode_for toy_globset doc_rules doc_path ≡ read_only
unfolding mode_for first_match glob_matches_one path_to_match_string match_parts join bytes_eq
mode_for-doc = refl
