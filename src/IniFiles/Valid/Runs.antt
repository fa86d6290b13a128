-- ===== src/IniFiles/Valid/Runs.antt =====
-- Any sequence of calls of a configuration's operations.
use libnbf.Prelude.{ℕ, Bool, List, [], ◌∷◌, Option}
use libnbf.IniFiles.{CIniFileS, Disk, clear}
use libnbf.IniFiles.Load.{open_ini, load_from_buffer}
use libnbf.IniFiles.Save.{save_to_file}
use libnbf.IniFiles.Edit.{
  Edited, set_value, rename_section, comment_record, comment_section, delete_record, delete_section,
  set_section_comments, set_record_comments, add_section,
}
use libnbf.IniFiles.Binary.{write_profile_binary}
use libnbf.IniFiles.Valid.{IsValid}
use libnbf.IniFiles.Valid.Loads.{open_ini-IsValid, load_from_buffer-IsValid}
use libnbf.IniFiles.Valid.Operations.{
  set_value-IsValid, rename_section-IsValid, comment_record-IsValid, comment_section-IsValid,
  delete_record-IsValid, delete_section-IsValid, set_section_comments-IsValid,
  set_record_comments-IsValid, add_section-IsValid,
}

-- The calls that can change the object or the files. UnCommentRecord and UnCommentSection are calls
-- of CommentRecord and CommentSection.
pub data IniCall : Type 0 where
  opened : Option (List ℕ) → IniCall
  buffered : List ℕ → IniCall
  cleared : IniCall
  saved : Option (List ℕ) → IniCall
  value_set : (key value sec : List ℕ) → Bool → IniCall
  binary_set : (sec key data_bytes : List ℕ) → Bool → IniCall
  renamed : (old_sec new_sec : List ℕ) → Bool → IniCall
  record_marked : ℕ → (sec key : List ℕ) → Bool → IniCall
  section_marked : ℕ → (sec : List ℕ) → Bool → IniCall
  record_deleted : (sec key : List ℕ) → Bool → IniCall
  section_deleted : (sec : List ℕ) → Bool → IniCall
  section_remarked : (text sec : List ℕ) → Bool → IniCall
  record_remarked : (text sec key : List ℕ) → Bool → IniCall
  section_added : (sec : List ℕ) → Bool → IniCall

abbrev kept : Edited → CIniFileS × Disk
kept r = (r.0, r.1)

module _ (opens : List ℕ → Bool) where
  unfoldable pub call : IniCall → CIniFileS → Disk → CIniFileS × Disk
  call (opened path) ini disk = ((open_ini path disk ini).0, disk)
  call (buffered text) ini disk = ((load_from_buffer text ini).0, disk)
  call cleared ini disk = (clear ini, disk)
  call (saved path) ini disk = (ini, (save_to_file opens path ini disk).0)
  call (value_set key value sec save) ini disk = kept (set_value opens key value sec save ini disk)
  call (binary_set sec key data_bytes save) ini disk =
      kept (write_profile_binary opens sec key data_bytes save ini disk)
  call (renamed old_sec new_sec save) ini disk =
      kept (rename_section opens old_sec new_sec save ini disk)
  call (record_marked cc_char sec key save) ini disk =
      kept (comment_record opens cc_char sec key save ini disk)
  call (section_marked cc_char sec save) ini disk =
      kept (comment_section opens cc_char sec save ini disk)
  call (record_deleted sec key save) ini disk = kept (delete_record opens sec key save ini disk)
  call (section_deleted sec save) ini disk = kept (delete_section opens sec save ini disk)
  call (section_remarked text sec save) ini disk =
      kept (set_section_comments opens text sec save ini disk)
  call (record_remarked text sec key save) ini disk =
      kept (set_record_comments opens text sec key save ini disk)
  call (section_added sec save) ini disk = kept (add_section opens sec save ini disk)

  unfoldable pub calls : List IniCall → CIniFileS → Disk → CIniFileS × Disk
  calls [] ini disk = (ini, disk)
  calls (c ∷ cs) ini disk = let next = call c ini disk in calls cs next.0 next.1

  call-IsValid :
      (c : IniCall) (ini : CIniFileS) (disk : Disk) → IsValid ini → IsValid ((call c ini disk).0)
  unfolding call clear write_profile_binary
  call-IsValid (opened path) ini disk h = open_ini-IsValid path disk ini h
  call-IsValid (buffered text) ini disk h = load_from_buffer-IsValid text ini h
  call-IsValid cleared ini disk h = (tt, tt)
  call-IsValid (saved path) ini disk h = h
  call-IsValid (value_set key value sec save) ini disk h =
      set_value-IsValid opens key value sec save ini disk h
  call-IsValid (binary_set sec key [] save) ini disk h = h
  call-IsValid (binary_set sec key (c ∷ data_bytes) save) ini disk h =
      set_value-IsValid opens sec key _ save ini disk h
  call-IsValid (renamed old_sec new_sec save) ini disk h =
      rename_section-IsValid opens old_sec new_sec save ini disk h
  call-IsValid (record_marked cc_char sec key save) ini disk h =
      comment_record-IsValid opens cc_char sec key save ini disk h
  call-IsValid (section_marked cc_char sec save) ini disk h =
      comment_section-IsValid opens cc_char sec save ini disk h
  call-IsValid (record_deleted sec key save) ini disk h =
      delete_record-IsValid opens sec key save ini disk h
  call-IsValid (section_deleted sec save) ini disk h =
      delete_section-IsValid opens sec save ini disk h
  call-IsValid (section_remarked text sec save) ini disk h =
      set_section_comments-IsValid opens text sec save ini disk h
  call-IsValid (record_remarked text sec key save) ini disk h =
      set_record_comments-IsValid opens text sec key save ini disk h
  call-IsValid (section_added sec save) ini disk h = add_section-IsValid opens sec save ini disk h

  -- Any calls leave the sections and the records of each section in the order of their keys, no key
  -- twice, and each record under its own key, where they stand so before.
  pub calls-IsValid :
      (cs : List IniCall) (ini : CIniFileS) (disk : Disk)
      → IsValid ini
      → IsValid ((calls cs ini disk).0)
  unfolding calls
  calls-IsValid [] ini disk h = h
  calls-IsValid (c ∷ cs) ini disk h = calls-IsValid cs _ _ (call-IsValid c ini disk h)
