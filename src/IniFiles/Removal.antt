-- ===== src/IniFiles/Removal.antt =====
-- What GetRecord finds after DeleteRecord and DeleteSection.
use libnbf.Prelude.{
  ℕ, Bool, true, ◌&&◌, List, none, some, if◌then◌else◌, Option-cases, ◌≡◌, ◌∙◌, ap, inl, inr, arith,
}
use libnbf.Prelude.TextMap.{find, erase, same_text, same_text-eq, find-erase}
use libnbf.IniFiles.{
  CRecord, CSection, CIniFileS, Disk, get_record, is_exist_record, is_exist_section,
}
use libnbf.IniFiles.Edit.{change_section, finish, delete_record, delete_section}
use libnbf.IniFiles.Lookup.{find_in, get_record_lem, get_record-change_section, finish-Finishes}

module _ (opens : List ℕ → Bool) (s k sec key : List ℕ) (save : Bool) (ini : CIniFileS)
    (disk : Disk) where
  -- DeleteRecord takes the record of the key in the section and no other, and returns true where it
  -- was there and the file, if it is to be saved, could be written.
  pub get_record-delete_record :
      (get_record s k ((delete_record opens sec key save ini disk).0)
        ≡ (if same_text s sec && same_text k key then none else get_record s k ini))
      × ((delete_record opens sec key save ini disk).2
          ≡ (is_exist_record sec key ini && (if save then opens (ini.file_name) else true)))
  unfolding delete_record is_exist_record
  get_record-delete_record = elim (Option-cases (find sec (ini.map_section))) [
    | inl e ↦ ground (arith, get_record_lem s k ini, same_text-eq s sec)
    | inr (section, e) ↦ elim (Option-cases (find key (section.map_kv))) [
      | inl f ↦ ground (arith, get_record_lem s k ini, same_text-eq s sec, same_text-eq k key)
      | inr (rec, f) ↦
          let done = finish-Finishes opens save (next section) disk in
          (
            ap (λ r. get_record s k (r.0)) (gone section rec e f)
                ∙ ap (get_record s k) done.0
                ∙ get_record-change_section s k sec section
                    (record section { map_kv = erase key (section.map_kv) }) ini e
                ∙ ground (
                  arith,
                  get_record_lem s k ini,
                  same_text-eq s sec,
                  find-erase k key (section.map_kv),
                ),
            ap (λ r. r.2) (gone section rec e f) ∙ done.1 ∙ ground arith,
          )
    ]
  ]
    where
      next : CSection → CIniFileS
      next section = change_section sec (record section { map_kv = erase key (section.map_kv) }) ini

      gone :
          (section : CSection) (rec : CRecord)
          → find sec (ini.map_section) ≡ some section
          → find key (section.map_kv) ≡ some rec
          → delete_record opens sec key save ini disk ≡ finish opens save (next section) disk
      gone section rec e f = ground arith

module _ (opens : List ℕ → Bool) (s k sec : List ℕ) (save : Bool) (ini : CIniFileS)
    (disk : Disk) where
  -- DeleteSection takes the records of the section and no others, and returns true where it was
  -- there and the file, if it is to be saved, could be written.
  pub get_record-delete_section :
      (get_record s k ((delete_section opens sec save ini disk).0)
        ≡ (if same_text s sec then none else get_record s k ini))
      × ((delete_section opens sec save ini disk).2
          ≡ (is_exist_section sec ini && (if save then opens (ini.file_name) else true)))
  unfolding delete_section is_exist_section
  get_record-delete_section = elim (Option-cases (find sec (ini.map_section))) [
    | inl e ↦ ground (arith, get_record_lem s k ini, same_text-eq s sec)
    | inr (section, e) ↦
        let done = finish-Finishes opens save next disk in
        (
          ap (λ r. get_record s k (r.0)) (gone section e)
              ∙ ap (get_record s k) done.0
              ∙ get_record_lem s k next
              ∙ ap (find_in k) (find-erase s sec (ini.map_section))
              ∙ ground (arith, get_record_lem s k ini),
          ap (λ r. r.2) (gone section e) ∙ done.1 ∙ ground arith,
        )
  ]
    where
      next : CIniFileS
      next = record ini { map_section = erase sec (ini.map_section) }

      gone :
          (section : CSection)
          → find sec (ini.map_section) ≡ some section
          → delete_section opens sec save ini disk ≡ finish opens save next disk
      gone section e = ground arith
