-- ===== src/Tests/Keys.antt =====
-- keys.py: a rotation of one key.
use python_oauth2_server.Prelude.{refl, true, none, some, [], arith, ◌*◌, ◌≡◌, ◌∷◌}
use python_oauth2_server.Clock.{second}
use python_oauth2_server.Keys.{SigningKey, is_active, find, current_for_alg, rotate, prune_expired}
use python_oauth2_server.Keys.Laws.{rotate_current, prune_invisible}

abbrev old_key : SigningKey
old_key = record {
  kid = "k1";
  algorithm = "RS256";
  key_material = "m1";
  is_current = true;
  created_at = 0;
  expires_at = some (10 * second);
}

abbrev new_key : SigningKey
new_key = record {
  kid = "k2";
  algorithm = "RS256";
  key_material = "m2";
  is_current = true;
  created_at = 0;
  expires_at = none;
}

rotate_current_example :
    current_for_alg (rotate (old_key ∷ []) second new_key 60) (2 * second) "RS256" ≡ some new_key
unfolding is_active
rotate_current_example = rotate_current (old_key ∷ []) second (2 * second) 60 new_key refl refl

prune_invisible_example :
    (find (prune_expired (old_key ∷ new_key ∷ []) (11 * second)).0 (12 * second) "k2"
      ≡ find (old_key ∷ new_key ∷ []) (12 * second) "k2")
    × (current_for_alg
          (prune_expired (old_key ∷ new_key ∷ []) (11 * second)).0
          (12 * second)
          "RS256"
        ≡ current_for_alg (old_key ∷ new_key ∷ []) (12 * second) "RS256")
prune_invisible_example =
    prune_invisible (old_key ∷ new_key ∷ []) (11 * second) (12 * second) "k2" "RS256" (omega arith)
