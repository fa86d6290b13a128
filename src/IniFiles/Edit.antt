-- ===== src/IniFiles/Edit.antt =====
-- The operations that change records and sections. Each returns the object, the files and its result.
use libnbf.Prelude.{
  ℕ, Bool, true, false, ◌&&◌, List, [], ◌∷◌, ◌++◌, map, none, some, leb, ◌==◌, not, if◌then◌else◌,
  length,
}
use libnbf.Prelude.TextMap.{TextMap, find, insert, replace, erase}
use libnbf.IniFiles.{CRecord, CSection, CIniFileS, Disk, new_section, cc_record}
use libnbf.IniFiles.Save.{save_to_file}

abbrev pub Edited : Type 0
Edited = CIniFileS × Disk × Bool

-- The record that SetValue makes.
abbrev pub made_record : List ℕ → List ℕ → List ℕ → CRecord
made_record key value sec = record {
  str_sec_name = sec;
  str_key = key;
  str_value = value;
  str_comments = [];
  c_commented = cc_record;
}

-- A new record is put into a section of the map.
unfoldable pub insert_record : List ℕ → CRecord → List ℕ → CSection → CIniFileS → CIniFileS × Bool
insert_record key rec sec section ini =
    let inserted : TextMap CRecord × Bool = insert key rec (section.map_kv) in
    (
      record ini {
        map_section = replace sec (record section { map_kv = inserted.0 }) (ini.map_section);
      },
      inserted.1,
    )

-- SetValue of a section that is not there.
unfoldable pub insert_section : List ℕ → List ℕ → List ℕ → CIniFileS → CIniFileS × Bool
unfolding insert_record
insert_section key value sec ini =
    let inserted : TextMap CSection × Bool = insert sec (new_section sec) (ini.map_section) in
    if inserted.1
    then insert_record key (made_record key value sec) sec (new_section sec)
        (record ini { map_section = inserted.0 })
    else (ini, false)

-- A change of a record that is there.
unfoldable pub change_record : List ℕ → CRecord → List ℕ → CSection → CIniFileS → CIniFileS
change_record key rec sec section ini = record ini {
  map_section =
      replace sec (record section { map_kv = replace key rec (section.map_kv) }) (ini.map_section);
}

-- A change of a section that is there.
unfoldable pub change_section : List ℕ → CSection → CIniFileS → CIniFileS
change_section sec section ini = record ini { map_section = replace sec section (ini.map_section) }

-- SetValue on the sections, with `rel`.
unfoldable pub put_value : List ℕ → List ℕ → List ℕ → CIniFileS → CIniFileS × Bool
unfolding insert_section insert_record change_record
put_value key value sec ini = elim (find sec (ini.map_section)) [
  | none ↦ insert_section key value sec ini
  | some section ↦ elim (find key (section.map_kv)) [
    | none ↦ insert_record key (made_record key value sec) sec section ini
    | some rec ↦ (change_record key (record rec { str_value = value }) sec section ini, true)
  ]
]

-- The end of a comment that is set: a newline where there are two bytes and the last is none.
unfoldable pub ends_line : List ℕ → Bool
ends_line [] = false
ends_line (c ∷ []) = c == 10
ends_line (c ∷ d ∷ s) = ends_line (d ∷ s)

unfoldable pub with_newline : List ℕ → List ℕ
with_newline s = if leb 2 (length s) && not (ends_line s) then s ++ (10 ∷ []) else s

-- The new name of a section in its records.
unfoldable pub rename_records : List ℕ → TextMap CRecord → TextMap CRecord
rename_records name m = map (λ e. (e.0, record e.1 { str_sec_name = name })) m

unfoldable pub comment_records : ℕ → TextMap CRecord → TextMap CRecord
comment_records cc_char m = map (λ e. (e.0, record e.1 { c_commented = cc_char })) m

module _ (opens : List ℕ → Bool) where
  -- The end of an operation that succeeded: `return SaveToFile()` where it is asked for.
  unfoldable pub finish : Bool → CIniFileS → Disk → Edited
  finish save ini disk =
      let saved : Disk × Bool = save_to_file opens none ini disk in
      if save then (ini, saved.0, saved.1) else (ini, disk, true)

  unfoldable pub set_value : List ℕ → List ℕ → List ℕ → Bool → CIniFileS → Disk → Edited
  unfolding finish put_value
  set_value key value sec save ini disk = elim (ini.file_name) [
    | [] ↦ (ini, disk, false)
    | c ∷ path ↦
        let put : CIniFileS × Bool = put_value key value sec ini in
        if put.1 then finish save (put.0) disk else (put.0, disk, false)
  ]

  unfoldable pub rename_section : List ℕ → List ℕ → Bool → CIniFileS → Disk → Edited
  unfolding finish change_section
  rename_section old_sec new_sec save ini disk = elim (find old_sec (ini.map_section)) [
    | none ↦ (ini, disk, false)
    | some section ↦
        let renamed : CSection = record section {
          section_name = new_sec;
          map_kv = rename_records new_sec (section.map_kv);
        } in
        finish save (change_section old_sec renamed ini) disk
  ]

  unfoldable pub comment_record : ℕ → List ℕ → List ℕ → Bool → CIniFileS → Disk → Edited
  unfolding finish change_record
  comment_record cc_char sec key save ini disk = elim (find sec (ini.map_section)) [
    | none ↦ (ini, disk, false)
    | some section ↦ elim (find key (section.map_kv)) [
      | none ↦ (ini, disk, false)
      | some rec ↦
          finish save (change_record key (record rec { c_commented = cc_char }) sec section ini)
            disk
    ]
  ]

  abbrev pub uncomment_record : List ℕ → List ℕ → Bool → CIniFileS → Disk → Edited
  uncomment_record sec key save ini disk = comment_record cc_record sec key save ini disk

  unfoldable pub comment_section : ℕ → List ℕ → Bool → CIniFileS → Disk → Edited
  unfolding finish change_section
  comment_section cc_char sec save ini disk = elim (find sec (ini.map_section)) [
    | none ↦ (ini, disk, false)
    | some section ↦
        let commented : CSection = record section {
          section_commented = cc_char;
          map_kv = comment_records cc_char (section.map_kv);
        } in
        finish save (change_section sec commented ini) disk
  ]

  abbrev pub uncomment_section : List ℕ → Bool → CIniFileS → Disk → Edited
  uncomment_section sec save ini disk = comment_section cc_record sec save ini disk

  unfoldable pub delete_record : List ℕ → List ℕ → Bool → CIniFileS → Disk → Edited
  unfolding finish change_section
  delete_record sec key save ini disk = elim (find sec (ini.map_section)) [
    | none ↦ (ini, disk, false)
    | some section ↦ elim (find key (section.map_kv)) [
      | none ↦ (ini, disk, false)
      | some rec ↦
          finish save
            (change_section sec (record section { map_kv = erase key (section.map_kv) }) ini) disk
    ]
  ]

  unfoldable pub delete_section : List ℕ → Bool → CIniFileS → Disk → Edited
  unfolding finish
  delete_section sec save ini disk = elim (find sec (ini.map_section)) [
    | none ↦ (ini, disk, false)
    | some section ↦ finish save (record ini { map_section = erase sec (ini.map_section) }) disk
  ]

  -- A null pointer and an empty text are the empty list.
  unfoldable pub set_section_comments : List ℕ → List ℕ → Bool → CIniFileS → Disk → Edited
  unfolding finish change_section
  set_section_comments [] sec save ini disk = (ini, disk, false)
  set_section_comments (c ∷ text) sec save ini disk = elim (find sec (ini.map_section)) [
    | none ↦ (ini, disk, false)
    | some section ↦
        let commented : CSection = record section { section_comments = with_newline (c ∷ text) } in
        finish save (change_section sec commented ini) disk
  ]

  unfoldable pub set_record_comments : List ℕ → List ℕ → List ℕ → Bool → CIniFileS → Disk → Edited
  unfolding finish change_record
  set_record_comments [] sec key save ini disk = (ini, disk, false)
  set_record_comments (c ∷ text) sec key save ini disk = elim (find sec (ini.map_section)) [
    | none ↦ (ini, disk, false)
    | some section ↦ elim (find key (section.map_kv)) [
      | none ↦ (ini, disk, false)
      | some rec ↦
          let commented : CRecord = record rec { str_comments = with_newline (c ∷ text) } in
          finish save (change_record key commented sec section ini) disk
    ]
  ]

  unfoldable pub add_section : List ℕ → Bool → CIniFileS → Disk → Edited
  unfolding finish
  add_section sec save ini disk = elim (find sec (ini.map_section)) [
    | some section ↦ (ini, disk, false)
    | none ↦
        let inserted : TextMap CSection × Bool = insert sec (new_section sec) (ini.map_section) in
        let next : CIniFileS = record ini { map_section = inserted.0 } in
        if inserted.1 then finish save next disk else (next, disk, false)
  ]
