-- ===== src/IniFiles/Valid/Edits.antt =====
-- The steps of the operations that change records and sections keep the maps in order.
use libnbf.Prelude.{
  ℕ, Bool, false, List, [], ◌∷◌, none, some, Option-by, Bool-cases, ◌≡◌, refl, inl, inr, ◌∙◌, map,
}
use libnbf.Prelude.TextMap.{TextMap, find, insert, AllBehind, find-AllEntries}
use libnbf.IniFiles.{CRecord, CSection, CIniFileS, Disk, new_section}
use libnbf.IniFiles.Edit.{
  Edited, made_record, insert_record, insert_section, change_record, change_section, put_value,
  finish,
}
use libnbf.IniFiles.Valid.{
  UnderKey, AreRecords, SectionIsValid, IsValid, insert-Keeps, replace-Keeps,
}
use libnbf.IniFiles.Lookup.{finish-Finishes}

pub section_of :
    (sec : List ℕ) (section : CSection) (ini : CIniFileS)
    → IsValid ini
    → find sec (ini.map_section) ≡ some section
    → AreRecords (section.map_kv)
section_of sec section ini h e = find-AllEntries SectionIsValid sec section (ini.map_section) h.1 e

pub change_section-IsValid :
    (sec : List ℕ) (section : CSection) (ini : CIniFileS)
    → AreRecords (section.map_kv)
    → IsValid ini
    → IsValid (change_section sec section ini)
unfolding change_section
change_section-IsValid sec section ini s h =
    replace-Keeps SectionIsValid sec section (ini.map_section) s h

insert_record-IsValid :
    (key sec : List ℕ) (rec : CRecord) (section : CSection) (ini : CIniFileS)
    → rec.str_key ≡ key
    → AreRecords (section.map_kv)
    → IsValid ini
    → IsValid ((insert_record key rec sec section ini).0)
unfolding insert_record
insert_record-IsValid key sec rec section ini k s h =
    replace-Keeps SectionIsValid sec _ (ini.map_section)
      (insert-Keeps UnderKey key rec (section.map_kv) k s) h

pub change_record-IsValid :
    (key sec : List ℕ) (rec : CRecord) (section : CSection) (ini : CIniFileS)
    → rec.str_key ≡ key
    → AreRecords (section.map_kv)
    → IsValid ini
    → IsValid (change_record key rec sec section ini)
unfolding change_record
change_record-IsValid key sec rec section ini k s h =
    replace-Keeps SectionIsValid sec _ (ini.map_section)
      (replace-Keeps UnderKey key rec (section.map_kv) k s) h

insert_section-IsValid :
    (key value sec : List ℕ) (ini : CIniFileS)
    → IsValid ini
    → IsValid ((insert_section key value sec ini).0)
unfolding insert_section
insert_section-IsValid key value sec ini h =
    elim (Bool-cases ((insert sec (new_section sec) (ini.map_section)).1)) [
      | inl added ↦ rw added (
          insert_record-IsValid key sec (made_record key value sec) (new_section sec)
            (record ini { map_section = (insert sec (new_section sec) (ini.map_section)).0 }) refl
            (tt, tt)
            (insert-Keeps SectionIsValid sec (new_section sec) (ini.map_section) (tt, tt) h))
      | inr old ↦ rw old h
    ]

pub put_value-IsValid :
    (key value sec : List ℕ) (ini : CIniFileS)
    → IsValid ini
    → IsValid ((put_value key value sec ini).0)
unfolding put_value
put_value-IsValid key value sec ini h =
    Option-by (λ (r : CIniFileS × Bool). IsValid (r.0)) (find sec (ini.map_section)) _ _
      (λ _. insert_section-IsValid key value sec ini h)
      (λ section e.
        let s = section_of sec section ini h e in
        Option-by (λ (r : CIniFileS × Bool). IsValid (r.0)) (find key (section.map_kv)) _ _
          (λ _. insert_record-IsValid key sec (made_record key value sec) section ini refl s h)
          (λ rec f.
            change_record-IsValid key sec (record rec { str_value = value }) section ini
              (find-AllEntries UnderKey key rec (section.map_kv) s.1 f) s h))

-- A map of the records that leaves keys alone.
pub map-AreRecords :
    (f : CRecord → CRecord) (m : TextMap CRecord)
    → ((r : CRecord) → (f r).str_key ≡ r.str_key)
    → AreRecords m
    → AreRecords (map (λ e. (e.0, f e.1)) m)
map-AreRecords f [] k h = (tt, tt)
map-AreRecords f (e ∷ m) k h =
    let rest = map-AreRecords f m k (h.0.1, h.1.1) in
    ((map-AllBehind e.0 m h.0.0, rest.0), (k e.1 ∙ h.1.0, rest.1))
  where
    map-AllBehind :
        (j : List ℕ) (n : TextMap CRecord) → AllBehind j n → AllBehind j (map (λ d. (d.0, f d.1)) n)
    map-AllBehind j [] b = tt
    map-AllBehind j (d ∷ n) b = (b.0, map-AllBehind j n b.1)

module _ (opens : List ℕ → Bool) where
  pub finish-IsValid :
      (save : Bool) (next : CIniFileS) (disk : Disk)
      → IsValid next
      → IsValid ((finish opens save next disk).0)
  finish-IsValid save next disk h = rw (finish-Finishes opens save next disk).0 h

  -- An operation on a section that is there.
  pub on_section-IsValid :
      (sec : List ℕ) (save : Bool) (ini : CIniFileS) (disk : Disk) (f : CSection → CSection)
      → IsValid ini
      → ((section : CSection) → AreRecords (section.map_kv) → AreRecords ((f section).map_kv))
      → IsValid (
          (elim (find sec (ini.map_section)) as (λ _. Edited) [
            | none ↦ (ini, disk, false)
            | some section ↦ finish opens save (change_section sec (f section) ini) disk
          ]).0)
  on_section-IsValid sec save ini disk f h k =
      Option-by (λ (r : Edited). IsValid (r.0)) (find sec (ini.map_section)) _ _ (λ _. h)
        (λ section e. finish-IsValid save _ disk (
          change_section-IsValid sec (f section) ini (k section (section_of sec section ini h e))
            h))

  -- An operation on a record that is there.
  pub on_record-IsValid :
      (sec key : List ℕ) (save : Bool) (ini : CIniFileS) (disk : Disk) (f : CRecord → CRecord)
      → IsValid ini
      → ((r : CRecord) → (f r).str_key ≡ r.str_key)
      → IsValid (
          (elim (find sec (ini.map_section)) as (λ _. Edited) [
            | none ↦ (ini, disk, false)
            | some section ↦ elim (find key (section.map_kv)) as (λ _. Edited) [
              | none ↦ (ini, disk, false)
              | some rec ↦ finish opens save (change_record key (f rec) sec section ini) disk
            ]
          ]).0)
  on_record-IsValid sec key save ini disk f h k =
      Option-by (λ (r : Edited). IsValid (r.0)) (find sec (ini.map_section)) _ _ (λ _. h)
        (λ section e.
          let s = section_of sec section ini h e in
          Option-by (λ (r : Edited). IsValid (r.0)) (find key (section.map_kv)) _ _ (λ _. h)
            (λ rec g. finish-IsValid save _ disk (
              change_record-IsValid key sec (f rec) section ini
                (k rec ∙ find-AllEntries UnderKey key rec (section.map_kv) s.1 g) s h)))
