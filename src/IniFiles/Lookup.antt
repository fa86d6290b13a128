-- ===== src/IniFiles/Lookup.antt =====
-- What GetRecord finds after the operations that change the records and sections.
use libnbf.Prelude.{
  ℕ, Bool, true, ◌&&◌, List, [], Option, none, some, if◌then◌else◌, Bool-cases, Option-cases, ◌≡◌,
  ◌≢◌, refl, ◌∙◌, ap, inl, inr, arith,
}
use libnbf.Prelude.TextMap.{
  find, place, insert-new, replace, same_text, same_text-eq, same_text_refl, find-place,
  find-replace,
}
use libnbf.IniFiles.{CRecord, CSection, CIniFileS, Disk, get_record, new_section}
use libnbf.IniFiles.Save.{save_to_file}
use libnbf.IniFiles.Edit.{
  Edited, made_record, insert_record, insert_section, change_record, change_section, put_value,
  finish, set_value,
}

-- A record is looked up in a section of the map, which is another one now.
abbrev pub find_in : List ℕ → Option CSection → Option CRecord
find_in k none = none
find_in k (some section) = find k (section.map_kv)

pub get_record_lem :
    (s k : List ℕ) (ini : CIniFileS) → get_record s k ini ≡ find_in k (find s (ini.map_section))
unfolding get_record
get_record_lem s k ini = ground arith

pub get_record-change_section :
    (s k sec : List ℕ) (old section : CSection) (ini : CIniFileS)
    → find sec (ini.map_section) ≡ some old
    → get_record s k (change_section sec section ini)
      ≡ (if same_text s sec then find k (section.map_kv) else get_record s k ini)
unfolding change_section
get_record-change_section s k sec old section ini e = elim (Bool-cases (same_text s sec)) [
  | inl same ↦
      get_record_lem s k _
      ∙ ap (find_in k) (find-replace s sec section old (ini.map_section) e)
      ∙ rw same refl
  | inr other ↦
      get_record_lem s k _
      ∙ ap (find_in k) (find-replace s sec section old (ini.map_section) e)
      ∙ rw (other, get_record_lem s k ini) refl
]

-- The record that SetValue leaves.
abbrev pub set_record : List ℕ → List ℕ → List ℕ → Option CRecord → CRecord
set_record key value sec none = made_record key value sec
set_record key value sec (some rec) = record rec { str_value = value }

pub get_record-change_record :
    (s k key sec : List ℕ) (rec old : CRecord) (section : CSection) (ini : CIniFileS)
    → find sec (ini.map_section) ≡ some section
    → find key (section.map_kv) ≡ some old
    → get_record s k (change_record key rec sec section ini)
      ≡ (if same_text s sec && same_text k key then some rec else get_record s k ini)
unfolding change_record change_section
get_record-change_record s k key sec rec old section ini e f =
    get_record-change_section s k sec section
      (record section { map_kv = replace key rec (section.map_kv) }) ini e
    ∙ ground (
      arith,
      get_record_lem s k ini,
      same_text-eq s sec,
      find-replace k key rec old (section.map_kv) f,
    )

insert_record_new :
    (key sec : List ℕ) (rec : CRecord) (section : CSection) (ini : CIniFileS)
    → find key (section.map_kv) ≡ none
    → insert_record key rec sec section ini
      ≡ (change_section sec (record section { map_kv = place key rec (section.map_kv) }) ini, true)
unfolding insert_record change_section
insert_record_new key sec rec section ini f =
    ap (λ r. (change_section sec (record section { map_kv = r.0 }) ini, r.1))
      (insert-new key rec (section.map_kv) f)

-- What an operation that puts a value does to the records, and its result.
abbrev pub Puts : List ℕ → List ℕ → CRecord → CIniFileS → CIniFileS × Bool → Type 0
Puts sec key rec ini put =
    ((s k : List ℕ)
      → get_record s k (put.0)
        ≡ (if same_text s sec && same_text k key then some rec else get_record s k ini))
    × (put.1 ≡ true)

insert_record-Puts :
    (key sec : List ℕ) (rec : CRecord) (section : CSection) (ini : CIniFileS)
    → find sec (ini.map_section) ≡ some section
    → find key (section.map_kv) ≡ none
    → Puts sec key rec ini (insert_record key rec sec section ini)
insert_record-Puts key sec rec section ini e f = rw (insert_record_new key sec rec section ini f) (
  (λ s k.
      get_record-change_section s k sec section
        (record section { map_kv = place key rec (section.map_kv) }) ini e
      ∙ ground (
        arith,
        get_record_lem s k ini,
        same_text-eq s sec,
        find-place k key rec (section.map_kv) f,
      )),
  refl,
)

insert_section-Puts :
    (key value sec : List ℕ) (ini : CIniFileS)
    → find sec (ini.map_section) ≡ none
    → Puts sec key (made_record key value sec) ini (insert_section key value sec ini)
unfolding insert_section find
insert_section-Puts key value sec ini e =
    rw (insert-new sec (new_section sec) (ini.map_section) e)
      ((λ s k. p.0 s k ∙ ground (arith, back s k)), p.1)
  where
    more : CIniFileS
    more = record ini { map_section = place sec (new_section sec) (ini.map_section) }

    here : find sec (more.map_section) ≡ some (new_section sec)
    here = find-place sec sec (new_section sec) (ini.map_section) e ∙ rw (same_text_refl sec) refl

    p :
        Puts sec key
          (made_record key value sec)
          more
          (insert_record key (made_record key value sec) sec (new_section sec) more)
    p = insert_record-Puts key sec (made_record key value sec) (new_section sec) more here refl

    back : (s k : List ℕ) → get_record s k more ≡ get_record s k ini
    back s k = ground (
      arith,
      get_record_lem s k more,
      get_record_lem s k ini,
      same_text-eq s sec,
      find-place s sec (new_section sec) (ini.map_section) e,
    )

pub put_value-Puts :
    (key value sec : List ℕ) (ini : CIniFileS)
    → Puts sec key
        (set_record key value sec (get_record sec key ini))
        ini
        (put_value key value sec ini)
unfolding put_value
put_value-Puts key value sec ini = elim (Option-cases (find sec (ini.map_section))) [
  | inl e ↦ rw (no_section e, no_record e) (insert_section-Puts key value sec ini e)
  | inr (section, e) ↦ elim (Option-cases (find key (section.map_kv))) [
    | inl f ↦
        rw (new_key section e f, get_record_lem sec key ini ∙ ap (find_in key) e ∙ f)
          (insert_record-Puts key sec (made_record key value sec) section ini e f)
    | inr (rec, f) ↦
        rw (old_key section rec e f, get_record_lem sec key ini ∙ ap (find_in key) e ∙ f)
          (
            (λ s k.
                get_record-change_record s k key sec (record rec { str_value = value }) rec section
                  ini e f),
            refl,
          )
  ]
]
  where
    no_section :
        find sec (ini.map_section) ≡ none
        → put_value key value sec ini ≡ insert_section key value sec ini
    no_section e = ground arith

    no_record : find sec (ini.map_section) ≡ none → get_record sec key ini ≡ none
    no_record e = get_record_lem sec key ini ∙ ap (find_in key) e

    new_key :
        (section : CSection)
        → find sec (ini.map_section) ≡ some section
        → find key (section.map_kv) ≡ none
        → put_value key value sec ini
          ≡ insert_record key (made_record key value sec) sec section ini
    new_key section e f = ground arith

    old_key :
        (section : CSection) (rec : CRecord)
        → find sec (ini.map_section) ≡ some section
        → find key (section.map_kv) ≡ some rec
        → put_value key value sec ini
          ≡ (change_record key (record rec { str_value = value }) sec section ini, true)
    old_key section rec e f = ground arith

module _ (opens : List ℕ → Bool) where
  -- The object, the files and the result of an operation that changed the object into `next`.
  abbrev pub Finishes : Bool → CIniFileS → Disk → Edited → Type 0
  Finishes save next disk done =
      (done.0 ≡ next) × (done.2 ≡ (if save then opens (next.file_name) else true))

  pub finish-Finishes :
      (save : Bool) (next : CIniFileS) (disk : Disk)
      → Finishes save next disk (finish opens save next disk)
  unfolding finish save_to_file
  finish-Finishes save next disk = ground arith

  pub set_value_lem :
      (key value sec : List ℕ) (save : Bool) (ini : CIniFileS) (disk : Disk)
      → ini.file_name ≢ []
      → (put_value key value sec ini).1 ≡ true
      → set_value opens key value sec save ini disk
        ≡ finish opens save ((put_value key value sec ini).0) disk
  unfolding set_value
  set_value_lem key value sec save ini disk named put = ground arith

  pub get_record-set_value :
      (s k key value sec : List ℕ) (save : Bool) (ini : CIniFileS) (disk : Disk)
      → ini.file_name ≢ []
      → get_record s k ((set_value opens key value sec save ini disk).0) ≡ (
          if same_text s sec && same_text k key
          then some (set_record key value sec (get_record sec key ini))
          else get_record s k ini)
  get_record-set_value s k key value sec save ini disk named =
      let p = put_value-Puts key value sec ini in
      ap (λ r. get_record s k (r.0)) (set_value_lem key value sec save ini disk named p.1)
      ∙ ap (get_record s k) ((finish-Finishes save ((put_value key value sec ini).0) disk).0)
      ∙ p.0 s k
