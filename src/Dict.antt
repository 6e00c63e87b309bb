-- ===== src/Dict.antt =====
-- Python's `dict` with text keys: distinct keys, behind its laws.
mod Entries
use Entries.{
  Pairs, lookup, insert, without, drop_if, Distinct, lookup-insert, lookup-without, lookup-drop_if,
  insert-Distinct, without-Distinct, drop_if-Distinct, length-insert, length-drop_if-le,
  length-without-le,
}
use python_oauth2_server.Prelude.{
  filter_option, length, ℕ, String, refl, Bool, not, Option, none, some, [], if◌then◌else◌, ◌==◌,
  ◌+◌, ◌≤◌, ◌≡◌,
}

pub record Dict {ℓ} (V : Type ℓ) : Type ℓ where
  entries : Pairs V
  distinct : Distinct entries

module _ {ℓ} {V : Type ℓ} where
  unfoldable pub empty : Dict V
  empty = record { entries = []; distinct = tt }

  -- d.get(k)
  unfoldable pub get : Dict V → String → Option V
  unfolding lookup
  get d key = lookup key d.entries

  -- d[k] = v
  unfoldable pub put : Dict V → String → V → Dict V
  unfolding insert
  put d key value = record {
    entries = insert key value d.entries;
    distinct = insert-Distinct key value d.entries d.distinct;
  }

  -- d.pop(k, None), del d[k]
  unfoldable pub remove : Dict V → String → Dict V
  unfolding without
  remove d key = record {
    entries = without key d.entries;
    distinct = without-Distinct key d.entries d.distinct;
  }

  -- The sweep that the in-process stores share: collect the keys whose value passes the test,
  -- and delete each.
  unfoldable pub sweep : (V → Bool) → Dict V → Dict V
  unfolding drop_if
  sweep p d = record {
    entries = drop_if p d.entries;
    distinct = drop_if-Distinct p d.entries d.distinct;
  }

  -- len(d)
  unfoldable pub size : Dict V → ℕ
  size d = length d.entries

  pub get-sweep :
      (p : V → Bool) (d : Dict V) (key : String)
      → get (sweep p d) key ≡ filter_option (λ value. not (p value)) (get d key)
  unfolding get sweep
  get-sweep p d key = lookup-drop_if p key d.entries d.distinct

  pub get-put :
      (d : Dict V) (key asked : String) (value : V)
      → get (put d key value) asked ≡ (if key == asked then some value else get d asked)
  unfolding get put
  get-put d key asked value = lookup-insert key asked value d.entries

  pub get-remove :
      (d : Dict V) (key asked : String)
      → get (remove d key) asked ≡ (if key == asked then none else get d asked)
  unfolding get remove
  get-remove d key asked = lookup-without key asked d.entries

  pub size-put :
      (d : Dict V) (key : String) (value : V)
      → size (put d key value) ≡ size d + (elim (get d key) [ none ↦ 1 | some _ ↦ 0 ])
  unfolding get put size
  size-put d key value = length-insert key value d.entries

  pub size-sweep-le : (p : V → Bool) (d : Dict V) → size (sweep p d) ≤ size d
  unfolding sweep size
  size-sweep-le p d = length-drop_if-le p d.entries

  pub size-remove-le : (d : Dict V) (key : String) → size (remove d key) ≤ size d
  unfolding remove size
  size-remove-le d key = length-without-le key d.entries

pub get-empty {ℓ} : {V : Type ℓ} → (asked : String) → get {V = V} empty asked ≡ none
unfolding get empty
get-empty asked = refl

pub ruleset dict_laws = (get-empty, get-put, get-remove, get-sweep)
