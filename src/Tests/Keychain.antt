-- ===== src/Tests/Keychain.antt =====
-- A keychain over a table of records, and runs of the keychain's theorems on it.
use haskell_agent.Base.{
  ℕ, ◌≡◌, ◌≢◌, refl, Bool, true, false, ◌&&◌, Option, none, some, List, [], ◌∷◌, ◌==◌, arith,
  if◌then◌else◌, length, replicate, drop, ◌++◌, arith, Bool-cases, inl, inr,
}
use haskell_agent.Base.Owned.{settle}
use haskell_agent.Keychain.{
  Status, ok, item_not_found, duplicate_item, Item, bytes, Security, keychain_read, keychain_write,
}
use haskell_agent.Keychain.Storage.{Table, keychain_read-write}
use haskell_agent.Keychain.Resources.{same, keychain_write-settles}
use haskell_agent.Keychain.Release.{keychain_release, keychain_release-wiped}

abbrev Records : Type 0
Records = List ℕ → Option (List ℕ)

abbrev same_bytes : List ℕ → List ℕ → Bool
same_bytes [] [] = true
same_bytes (x ∷ xs) (y ∷ ys) = (x == y) && same_bytes xs ys
same_bytes _ _ = false

same_bytes_self : (xs : List ℕ) → same_bytes xs xs ≡ true
same_bytes_self [] = refl
same_bytes_self (x ∷ xs) = ground (arith, same_bytes_self xs)

same_bytes-true : (xs ys : List ℕ) → same_bytes xs ys ≡ true → xs ≡ ys
same_bytes-true [] [] e = refl
same_bytes-true [] (y ∷ ys) e = cc
same_bytes-true (x ∷ xs) [] e = cc
same_bytes-true (x ∷ xs) (y ∷ ys) e = ground (arith, same_bytes-true xs ys)

same_bytes_ne : (xs ys : List ℕ) → xs ≢ ys → same_bytes xs ys ≡ false
same_bytes_ne xs ys h = elim (Bool-cases (same_bytes xs ys)) [
  | inl e ↦ absurd (h (same_bytes-true xs ys e))
  | inr e ↦ e
]

abbrev put : List ℕ → Option (List ℕ) → Records → Records
put name v w j = if same_bytes j name then v else w j

put_self : (name : List ℕ) (v : Option (List ℕ)) (w : Records) → put name v w name ≡ v
put_self name v w = rw (same_bytes_self name) refl

put_other :
    (name : List ℕ) (v : Option (List ℕ)) (w : Records) (j : List ℕ)
    → j ≢ name
    → put name v w j ≡ w j
put_other name v w j h = rw (same_bytes_ne j name h) refl

abbrev found : Option (List ℕ) → Status × Option Item
found none = (item_not_found, none)
found (some b) = (ok, some (bytes b))

abbrev changed : Option (List ℕ) → List ℕ → Option (List ℕ) → Records → Status × Records
changed none name v w = (item_not_found, w)
changed (some b) name v w = (ok, put name v w)

abbrev added : Option (List ℕ) → List ℕ → Option (List ℕ) → Records → Status × Records
added none name v w = (ok, put name v w)
added (some b) name v w = (duplicate_item, w)

abbrev security : Security Records
security = record {
  create_string = λ name w. (true, w);
  create_dictionary = λ w. (true, w);
  create_data = λ secret w. (true, w);
  create_attributes = λ secret w. (true, w);
  allocate = λ n w. (true, w);
  copy_matching = λ q w. (found (w q.account), w);
  update = λ q secret w. changed (w q.account) q.account (some secret) w;
  add = λ q w. added (w q.account) q.account q.value w;
  delete = λ q w. changed (w q.account) q.account none w;
}

found_ok : (o : Option (List ℕ)) (b : List ℕ) → found o ≡ (ok, some (bytes b)) → o ≡ some b
found_ok none b e = cc
found_ok (some c) b e = cc

found_absent : (o : Option (List ℕ)) → (found o).0 ≡ item_not_found → o ≡ none
found_absent none e = refl
found_absent (some c) e = cc

changed_ok :
    (o : Option (List ℕ)) (name : List ℕ) (v : Option (List ℕ)) (w : Records)
    → (changed o name v w).0 ≡ ok
    → (changed o name v w).1 name ≡ v
changed_ok none name v w e = cc
changed_ok (some b) name v w e = put_self name v w

changed_absent :
    (o : Option (List ℕ)) (name : List ℕ) (v : Option (List ℕ)) (w : Records)
    → w name ≡ o
    → (changed o name v w).0 ≡ item_not_found
    → (changed o name v w).1 name ≡ none
changed_absent none name v w h e = h
changed_absent (some b) name v w h e = cc

changed_other :
    (o : Option (List ℕ)) (name : List ℕ) (v : Option (List ℕ)) (w : Records) (j : List ℕ)
    → j ≢ name
    → (changed o name v w).1 j ≡ w j
changed_other none name v w j h = refl
changed_other (some b) name v w j h = put_other name v w j h

added_ok :
    (o : Option (List ℕ)) (name : List ℕ) (v : Option (List ℕ)) (w : Records)
    → (added o name v w).0 ≡ ok
    → (added o name v w).1 name ≡ v
added_ok none name v w e = put_self name v w
added_ok (some b) name v w e = cc

added_other :
    (o : Option (List ℕ)) (name : List ℕ) (v : Option (List ℕ)) (w : Records) (j : List ℕ)
    → j ≢ name
    → (added o name v w).1 j ≡ w j
added_other none name v w j h = put_other name v w j h
added_other (some b) name v w j h = refl

table : Table security
table = record {
  stored = λ w. w;
  string_keeps = λ name w. refl;
  dictionary_keeps = λ w. refl;
  data_keeps = λ secret w. refl;
  attributes_keep = λ secret w. refl;
  allocate_keeps = λ n w. refl;
  copy_keeps = λ q w. refl;
  copy_ok = λ q w b e. found_ok (w q.account) b e;
  copy_absent = λ q w e. found_absent (w q.account) e;
  update_ok = λ q secret w h e. changed_ok (w q.account) q.account (some secret) w e;
  add_ok = λ q w e. added_ok (w q.account) q.account q.value w e;
  delete_ok = λ q w e. changed_ok (w q.account) q.account none w e;
  delete_absent = λ q w e. changed_absent (w q.account) q.account none w refl e;
  update_other = λ q secret w j h. changed_other (w q.account) q.account (some secret) w j h;
  add_other = λ q w j h. added_other (w q.account) q.account q.value w j h;
  delete_other = λ q w j h. changed_other (w q.account) q.account none w j h;
}

abbrev empty : Records
empty j = none

abbrev name_bytes : List ℕ
name_bytes = 109 ∷ 99 ∷ 112 ∷ []

abbrev other_name : List ℕ
other_name = 97 ∷ []

abbrev secret_bytes : List ℕ
secret_bytes = 1 ∷ 2 ∷ 3 ∷ []

abbrev written : Records
written = (keychain_write security (some name_bytes) (some secret_bytes) empty).2

name_ne : other_name ≢ name_bytes
name_ne e = cc

keychain_read-write_example : secret_bytes ≡ secret_bytes
unfolding keychain_read keychain_write
keychain_read-write_example =
    keychain_read-write security table name_bytes secret_bytes empty secret_bytes refl refl

keychain_write-settles_example :
    settle same (keychain_write security (some name_bytes) (some secret_bytes) empty).1 [] ≡ some []
keychain_write-settles_example =
    keychain_write-settles security (some name_bytes) (some secret_bytes) empty

keychain_release-wiped_example :
    (keychain_release (some secret_bytes) (length secret_bytes)
      ≡ some (replicate (length secret_bytes) 0 ++ drop (length secret_bytes) secret_bytes))
    × (length secret_bytes ≡ length secret_bytes
        → keychain_release (some secret_bytes) (length secret_bytes)
          ≡ some (replicate (length secret_bytes) 0))
keychain_release-wiped_example =
    keychain_release-wiped secret_bytes (length secret_bytes) (omega arith)
