-- ===== src/IniFiles/Valid/Operations.antt =====
-- The operations that change records and sections keep the maps in order.
use libnbf.Prelude.{
  ℕ, Bool, false, List, [], ◌∷◌, Option-by, Bool-cases, refl, inl, inr, if◌then◌else◌,
}
use libnbf.Prelude.TextMap.{TextMap, find, insert, erase, erase-IsSorted, erase-AllEntries}
use libnbf.IniFiles.{CSection, CIniFileS, Disk, new_section}
use libnbf.IniFiles.Edit.{
  Edited, put_value, finish, set_value, rename_section, rename_records, comment_record,
  comment_section, comment_records, delete_record, delete_section, set_section_comments,
  set_record_comments, add_section, with_newline,
}
use libnbf.IniFiles.Valid.{UnderKey, SectionIsValid, IsValid, insert-Keeps}
use libnbf.IniFiles.Valid.Edits.{
  section_of, change_section-IsValid, put_value-IsValid, map-AreRecords, finish-IsValid,
  on_section-IsValid, on_record-IsValid,
}

module _ (opens : List ℕ → Bool) where
  pub set_value-IsValid :
      (key value sec : List ℕ) (save : Bool) (ini : CIniFileS) (disk : Disk)
      → IsValid ini
      → IsValid ((set_value opens key value sec save ini disk).0)
  unfolding set_value
  set_value-IsValid key value sec save ini disk h =
      let put : CIniFileS × Bool = put_value key value sec ini in
      let kept : IsValid (put.0) = put_value-IsValid key value sec ini h in
      elim (ini.file_name)
        as (λ path. IsValid (
          (elim path as (λ _. Edited) [
            | [] ↦ (ini, disk, false)
            | c ∷ s ↦ if put.1 then finish opens save (put.0) disk else (put.0, disk, false)
          ]).0)) [
            | [] ↦ h
            | c ∷ s ↦ elim (Bool-cases (put.1)) [
              | inl done ↦ rw done (finish-IsValid opens save (put.0) disk kept)
              | inr refused ↦ rw refused kept
            ]
          ]

  pub rename_section-IsValid :
      (old_sec new_sec : List ℕ) (save : Bool) (ini : CIniFileS) (disk : Disk)
      → IsValid ini
      → IsValid ((rename_section opens old_sec new_sec save ini disk).0)
  unfolding rename_section rename_records
  rename_section-IsValid old_sec new_sec save ini disk h =
      on_section-IsValid opens old_sec save ini disk
        (λ section. record section {
          section_name = new_sec;
          map_kv = rename_records new_sec (section.map_kv);
        })
        h
        (λ section s.
          map-AreRecords (λ r. record r { str_sec_name = new_sec }) (section.map_kv) (λ r. refl) s)

  pub comment_section-IsValid :
      (cc_char : ℕ) (sec : List ℕ) (save : Bool) (ini : CIniFileS) (disk : Disk)
      → IsValid ini
      → IsValid ((comment_section opens cc_char sec save ini disk).0)
  unfolding comment_section comment_records
  comment_section-IsValid cc_char sec save ini disk h =
      on_section-IsValid opens sec save ini disk
        (λ section. record section {
          section_commented = cc_char;
          map_kv = comment_records cc_char (section.map_kv);
        })
        h
        (λ section s.
          map-AreRecords (λ r. record r { c_commented = cc_char }) (section.map_kv) (λ r. refl) s)

  pub comment_record-IsValid :
      (cc_char : ℕ) (sec key : List ℕ) (save : Bool) (ini : CIniFileS) (disk : Disk)
      → IsValid ini
      → IsValid ((comment_record opens cc_char sec key save ini disk).0)
  unfolding comment_record
  comment_record-IsValid cc_char sec key save ini disk h =
      on_record-IsValid opens sec key save ini disk (λ r. record r { c_commented = cc_char }) h
        (λ r. refl)

  pub set_section_comments-IsValid :
      (text sec : List ℕ) (save : Bool) (ini : CIniFileS) (disk : Disk)
      → IsValid ini
      → IsValid ((set_section_comments opens text sec save ini disk).0)
  unfolding set_section_comments
  set_section_comments-IsValid [] sec save ini disk h = h
  set_section_comments-IsValid (c ∷ text) sec save ini disk h =
      on_section-IsValid opens sec save ini disk
        (λ section. record section { section_comments = with_newline (c ∷ text) }) h
        (λ section s. s)

  pub set_record_comments-IsValid :
      (text sec key : List ℕ) (save : Bool) (ini : CIniFileS) (disk : Disk)
      → IsValid ini
      → IsValid ((set_record_comments opens text sec key save ini disk).0)
  unfolding set_record_comments
  set_record_comments-IsValid [] sec key save ini disk h = h
  set_record_comments-IsValid (c ∷ text) sec key save ini disk h =
      on_record-IsValid opens sec key save ini disk
        (λ r. record r { str_comments = with_newline (c ∷ text) }) h (λ r. refl)

  pub delete_record-IsValid :
      (sec key : List ℕ) (save : Bool) (ini : CIniFileS) (disk : Disk)
      → IsValid ini
      → IsValid ((delete_record opens sec key save ini disk).0)
  unfolding delete_record
  delete_record-IsValid sec key save ini disk h =
      Option-by (λ (r : Edited). IsValid (r.0)) (find sec (ini.map_section)) _ _ (λ _. h)
        (λ section e.
          let s = section_of sec section ini h e in
          Option-by (λ (r : Edited). IsValid (r.0)) (find key (section.map_kv)) _ _ (λ _. h)
            (λ rec g. finish-IsValid opens save _ disk (
              change_section-IsValid sec (record section { map_kv = erase key (section.map_kv) })
                ini
                (
                  erase-IsSorted key (section.map_kv) s.0,
                  erase-AllEntries UnderKey key (section.map_kv) s.1,
                )
                h)))

  pub delete_section-IsValid :
      (sec : List ℕ) (save : Bool) (ini : CIniFileS) (disk : Disk)
      → IsValid ini
      → IsValid ((delete_section opens sec save ini disk).0)
  unfolding delete_section
  delete_section-IsValid sec save ini disk h =
      Option-by (λ (r : Edited). IsValid (r.0)) (find sec (ini.map_section)) _ _ (λ _. h)
        (λ section e. finish-IsValid opens save _ disk (
          erase-IsSorted sec (ini.map_section) h.0,
          erase-AllEntries SectionIsValid sec (ini.map_section) h.1,
        ))

  pub add_section-IsValid :
      (sec : List ℕ) (save : Bool) (ini : CIniFileS) (disk : Disk)
      → IsValid ini
      → IsValid ((add_section opens sec save ini disk).0)
  unfolding add_section
  add_section-IsValid sec save ini disk h =
      let inserted : TextMap CSection × Bool = insert sec (new_section sec) (ini.map_section) in
      let kept = insert-Keeps SectionIsValid sec (new_section sec) (ini.map_section) (tt, tt) h in
      Option-by (λ (r : Edited). IsValid (r.0)) (find sec (ini.map_section)) _ _
        (λ _. elim (Bool-cases (inserted.1)) [
          | inl done ↦ rw done (finish-IsValid opens save _ disk kept)
          | inr refused ↦ rw refused kept
        ])
        (λ section e. h)
