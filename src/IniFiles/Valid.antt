-- ===== src/IniFiles/Valid.antt =====
-- The maps of a configuration: each in the order of its keys, and each record under its own key.
pub mod Loads
pub mod Edits
pub mod Operations
pub mod Runs
use libnbf.Prelude.{ℕ, Bool, true, false, List, [], ◌∷◌, Option, none, some, ◌≡◌, refl, arith, map}
use libnbf.Prelude.TextMap.{
  TextMap, find, place, insert, insert-new, insert-old, replace, erase, before, AllBehind, IsSorted,
  AllEntries, find-AllEntries, place-AllEntries, replace-AllEntries, place-IsSorted,
  replace-IsSorted,
}
use libnbf.Prelude.{Option-cases, inl, inr}
use libnbf.IniFiles.{CRecord, CSection, CIniFileS}

abbrev pub UnderKey : List ℕ → CRecord → Type 0
UnderKey key rec = rec.str_key ≡ key

abbrev pub AreRecords : TextMap CRecord → Type 0
AreRecords m = IsSorted m × AllEntries UnderKey m

abbrev pub SectionIsValid : List ℕ → CSection → Type 0
SectionIsValid sec section = AreRecords (section.map_kv)

abbrev pub AreSections : TextMap CSection → Type 0
AreSections m = IsSorted m × AllEntries SectionIsValid m

abbrev pub IsValid : CIniFileS → Type 0
IsValid ini = AreSections (ini.map_section)

-- An insertion and a replacement keep a map in order and what holds of its entries.
module _ {ℓ κ} {V : Type ℓ} (P : List ℕ → V → Type κ) where
  abbrev pub Keeps : TextMap V → Type κ
  Keeps m = IsSorted m × AllEntries P m

  pub insert-Keeps :
      (k : List ℕ) (v : V) (m : TextMap V) → P k v → Keeps m → Keeps ((insert k v m).0)
  insert-Keeps k v m p h = elim (Option-cases (find k m)) [
    | inl e ↦ rw (insert-new k v m e) (place-IsSorted k v m e h.0, place-AllEntries P k v m p h.1)
    | inr (w, e) ↦ rw (insert-old k v w m e) h
  ]

  pub replace-Keeps : (k : List ℕ) (v : V) (m : TextMap V) → P k v → Keeps m → Keeps (replace k v m)
  replace-Keeps k v m p h = (replace-IsSorted k v m h.0, replace-AllEntries P k v m p h.1)
