-- ===== src/Tests/IniFilesTests.antt =====
-- src/common/ini_files.cpp on concrete inputs.
use libnbf.Prelude.{
  ℕ, ◌≡◌, refl, Bool, true, false, ◌&&◌, List, [], ◌∷◌, ◌++◌, none, some, arith, if◌then◌else◌,
}
use libnbf.Prelude.Bytes.{codes}
use libnbf.Prelude.TextMap.{find, place, insert, replace, before, same_text}
use libnbf.Text.{cut_at}
use libnbf.IniFiles.{
  CRecord, CSection, CIniFileS, Disk, clear, get_value, get_record, is_exist_record, from_first,
  to_last, ini_trim, cc_record,
}
use libnbf.IniFiles.Load.{
  lines, ended, open_lines, open_trimmed, start_section, read_entry, need_section, add_record,
  entry_line, open_ini, load_trimmed, load_line, load_lines, load_from_buffer, drop_cr,
}
use libnbf.IniFiles.Save.{record_strs, section_strs, save_to_str}
use libnbf.IniFiles.Edit.{
  set_value, finish, put_value, delete_record, rename_section, rename_records,
}
use libnbf.IniFiles.Binary.{nibbles, get_profile_binary, write_profile_binary}
use libnbf.IniFiles.Removal.{get_record-delete_record}
use libnbf.IniFiles.Numbers.{get_value_long, set_value_signed, print_signed}
use libnbf.Prelude.Clib.{pos, negsuc, print_64, decimal_on, strtoll, number, spaces, digits}
use libnbf.IniFiles.Valid.{IsValid}
use libnbf.IniFiles.Valid.Runs.{opened, value_set, record_deleted, calls, calls-IsValid}
use libnbf.IniFiles.Profile.{get_profile_binary-nibbles}

abbrev nl : List ℕ
nl = 10 ∷ []

abbrev path : List ℕ
path = codes "a.ini"

abbrev everywhere : List ℕ → Bool
everywhere p = true

abbrev empty_ini : CIniFileS
empty_ini = record { map_section = []; file_name = [] }

-- Two sections out of order, a comment and blanks.
abbrev text : List ℕ
text =
    codes "[net]"
    ++ nl
    ++ codes "; the port"
    ++ nl
    ++ codes " port = 80 "
    ++ nl
    ++ codes "[log]"
    ++ nl
    ++ codes "level=2"
    ++ nl

abbrev disk : Disk
disk = (path, text) ∷ []

abbrev port_record : CRecord
port_record = record {
  str_sec_name = codes "net";
  str_key = codes "port";
  str_value = codes "80";
  str_comments = codes "; the port";
  c_commented = cc_record;
}

abbrev level_record : CRecord
level_record = record {
  str_sec_name = codes "log";
  str_key = codes "level";
  str_value = codes "2";
  str_comments = [];
  c_commented = cc_record;
}

abbrev net_section : CSection
net_section = record {
  section_name = codes "net";
  section_comments = [];
  section_commented = cc_record;
  map_kv = (codes "port", port_record) ∷ [];
}

abbrev log_section : CSection
log_section = record {
  section_name = codes "log";
  section_comments = [];
  section_commented = cc_record;
  map_kv = (codes "level", level_record) ∷ [];
}

abbrev two_sections : CIniFileS
two_sections = record {
  map_section = (codes "log", log_section) ∷ (codes "net", net_section) ∷ [];
  file_name = path;
}

open_two : open_ini (some path) disk empty_ini ≡ (two_sections, true)
unfolding open_ini lines open_lines open_trimmed start_section entry_line read_entry need_section
    add_record cut_at ini_trim from_first to_last find insert place replace before same_text clear
open_two = refl

-- A key twice, and a line without '=' in the next section: the record that was left out goes in there.
stale_line :
    get_value (codes "b") (codes "k") [] (
      (load_from_buffer
        (codes "[a]"
          ++ nl
          ++ codes "k=1"
          ++ nl
          ++ codes "k=2"
          ++ nl
          ++ codes "[b]"
          ++ nl
          ++ codes "what"
          ++ nl)
        empty_ini).0)
    ≡ codes "2"
unfolding load_from_buffer lines ended load_lines load_line load_trimmed drop_cr start_section
    entry_line read_entry need_section add_record cut_at ini_trim from_first to_last find insert
    place replace before same_text clear get_value get_record
stale_line = refl

-- A '[' without a ']' throws.
open_bracket : (load_from_buffer (codes "[a" ++ nl) empty_ini).1 ≡ none
unfolding load_from_buffer lines ended load_lines load_line load_trimmed drop_cr cut_at ini_trim
    from_first to_last clear
open_bracket = refl

-- What SaveToStr gives is one line.
one_line :
    save_to_str two_sections ≡ codes "[log]level=2[net]; the port" ++ nl ++ codes "port=80" ++ nl
unfolding save_to_str section_strs record_strs
one_line = refl

-- WriteProfileBinary puts the key of section `log` under a section named by the letters.
swapped :
    get_value (codes "BA") (codes "log") [] (
      (write_profile_binary everywhere
        (codes "log")
        (codes "bits")
        (1 ∷ [])
        false
        two_sections
        []).0)
    ≡ codes "bits"
unfolding write_profile_binary set_value finish put_value nibbles get_value get_record find insert
    place replace before same_text
swapped = refl

-- A section that is renamed is found under its old name.
renamed_section :
    get_value
      (codes "log")
      (codes "level")
      []
      ((rename_section everywhere (codes "log") (codes "new") false two_sections []).0)
    ≡ codes "2"
unfolding rename_section rename_records finish get_value get_record find replace same_text
renamed_section = refl

two_sections-IsValid : IsValid two_sections
unfolding before
two_sections-IsValid =
    (((refl, tt), (tt, tt)), (((tt, tt), (refl, tt)), (((tt, tt), (refl, tt)), tt)))

calls-IsValid_example : IsValid (
    (calls everywhere
      (opened (some path)
        ∷ value_set (codes "a") (codes "1") (codes "net") false
        ∷ record_deleted (codes "net") (codes "port") true
        ∷ [])
      two_sections
      disk).0)
calls-IsValid_example = calls-IsValid everywhere _ two_sections disk two_sections-IsValid

get_record-delete_record_run :
    (get_record
        (codes "net")
        (codes "port")
        ((delete_record everywhere (codes "log") (codes "level") true two_sections []).0)
      ≡ (if same_text (codes "net") (codes "log") && same_text (codes "port") (codes "level")
          then none
          else get_record (codes "net") (codes "port") two_sections))
    × ((delete_record everywhere (codes "log") (codes "level") true two_sections []).2
        ≡ (is_exist_record (codes "log") (codes "level") two_sections && true))
get_record-delete_record_run =
    get_record-delete_record everywhere (codes "net") (codes "port") (codes "log") (codes "level")
      true two_sections []

get_profile_binary-nibbles_example :
    get_profile_binary (codes "log") (codes "bits") (
      (set_value everywhere
        (codes "bits")
        (nibbles (1 ∷ 255 ∷ []))
        (codes "log")
        false
        two_sections
        []).0)
    ≡ some (2, 1 ∷ 255 ∷ [])
get_profile_binary-nibbles_example =
    get_profile_binary-nibbles everywhere (codes "log") (codes "bits") (1 ∷ 255 ∷ []) false
      two_sections [] (λ e. cc) (λ e. cc) (omega arith, (omega arith, tt))

-- A number is read back as it was set.
number_kept :
    get_value_long
      (codes "log")
      (codes "n")
      (pos 7)
      ((set_value_signed everywhere (codes "n") (negsuc 41) (codes "log") false two_sections []).0)
    ≡ negsuc 41
unfolding get_value_long set_value_signed print_signed print_64 decimal_on set_value finish
    put_value get_record find insert place replace before same_text strtoll number spaces digits
number_kept = refl
