-- ===== src/Prelude/TextMap/Last.antt =====
-- std::map with texts for keys: an entry whose key stands behind all others goes to the end.
use libnbf.Prelude.{ℕ, true, false, List, [], ◌∷◌, ◌++◌, none, some, ◌≡◌, refl, ap, arith}
use libnbf.Prelude.TextMap.{
  before, before_irrefl, same_text_refl, TextMap, find, place, replace, AllBehind, IsSorted,
}

before-asym : (xs ys : List ℕ) → before xs ys ≡ true → before ys xs ≡ false
unfolding before
before-asym [] [] h = cc
before-asym (x ∷ xs) [] h = cc
before-asym [] (y ∷ ys) h = refl
before-asym (x ∷ xs) (y ∷ ys) h = ground (arith, before-asym xs ys)

module _ {ℓ} {V : Type ℓ} where
  abbrev pub AllBefore : List ℕ → TextMap V → Type 0
  AllBefore k [] = Unit
  AllBefore k (e ∷ m) = (before e.0 k ≡ true) × AllBefore k m

  pub find-AllBefore : (k : List ℕ) (m : TextMap V) → AllBefore k m → find k m ≡ none
  unfolding find
  find-AllBefore k [] b = refl
  find-AllBefore k (e ∷ m) b = rw (before_irrefl e.0 k b.0) (find-AllBefore k m b.1)

  pub place-AllBefore :
      (k : List ℕ) (v : V) (m : TextMap V) → AllBefore k m → place k v m ≡ m ++ ((k, v) ∷ [])
  unfolding place
  place-AllBefore k v [] b = refl
  place-AllBefore k v (e ∷ m) b =
      rw (before-asym e.0 k b.0) (ap (◌∷◌ e) (place-AllBefore k v m b.1))

  pub find-last :
      (k : List ℕ) (v : V) (m : TextMap V) → AllBefore k m → find k (m ++ ((k, v) ∷ [])) ≡ some v
  unfolding find
  find-last k v [] b = rw (same_text_refl k) refl
  find-last k v (e ∷ m) b = rw (before_irrefl e.0 k b.0) (find-last k v m b.1)

  pub replace-last :
      (k : List ℕ) (v w : V) (m : TextMap V)
      → AllBefore k m
      → replace k v (m ++ ((k, w) ∷ [])) ≡ m ++ ((k, v) ∷ [])
  unfolding replace
  replace-last k v w [] b = rw (same_text_refl k) refl
  replace-last k v w (e ∷ m) b =
      rw (before_irrefl e.0 k b.0) (ap (◌∷◌ e) (replace-last k v w m b.1))

  behind_last :
      (j : List ℕ) (m : TextMap V) (e : List ℕ × V) (rest : TextMap V)
      → AllBehind j (m ++ (e ∷ rest))
      → before j e.0 ≡ true
  behind_last j [] e rest b = b.0
  behind_last j (d ∷ m) e rest b = behind_last j m e rest b.1

  pub IsSorted-AllBefore :
      (m : TextMap V) (e : List ℕ × V) (rest : TextMap V)
      → IsSorted (m ++ (e ∷ rest))
      → AllBefore e.0 m
  IsSorted-AllBefore [] e rest s = tt
  IsSorted-AllBefore (d ∷ m) e rest s =
      (behind_last d.0 m e rest s.0, IsSorted-AllBefore m e rest s.1)
