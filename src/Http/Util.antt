-- ===== src/Http/Util.antt =====
-- src/protocol/http/http_util.cpp: cookies, parameters, what a service sees of a request, and domains.
-- UrlDecode(s, true) also converts the character set, by iconv: that conversion is a parameter. The
-- result none stands for a read behind a text, which UrlDecode does where it ends with a '%'.
use libnbf.Prelude.{
  ℕ, zero, suc, ◌+◌, ◌-◌, Bool, true, false, ◌&&◌, ◌||◌, List, [], ◌∷◌, ◌++◌, Option, none, some,
  ◌==◌, ltb, leb, if◌then◌else◌, length, take, drop, get_elem?,
}
use libnbf.Prelude.TextMap.{insert, same_text}
use libnbf.Prelude.Bytes.{codes}
use libnbf.Text.{cut_at, split, trim, url_decode}
use libnbf.Http.{Dict}

-- str.find(word) from the start of a text on: how many bytes stand in front, and what follows the word.
unfoldable pub starts_with : List ℕ → List ℕ → Bool
starts_with [] s = true
starts_with (w ∷ word) [] = false
starts_with (w ∷ word) (c ∷ s) = (w == c) && starts_with word s

unfoldable pub find_word : List ℕ → List ℕ → Option ℕ
find_word word [] = if starts_with word [] then some 0 else none
find_word word (c ∷ s) =
    let rest : Option ℕ = elim (find_word word s) [ none ↦ none | some i ↦ some (i + 1) ] in
    if starts_with word (c ∷ s) then some 0 else rest

-- The loop of HttpCookieDecode on the parts.
unfoldable pub cookie_items : List (List ℕ) → Dict → Dict
cookie_items [] items = items
cookie_items (kv ∷ kvs) items =
    let cut : List ℕ × Option (List ℕ) = cut_at b'=' kv in
    elim (cut.1) [
      | none ↦ cookie_items kvs items
      | some value ↦ cookie_items kvs ((insert (trim (cut.0)) (trim value) items).0)
    ]

unfoldable pub http_cookie_decode : List ℕ → Dict → Dict
http_cookie_decode cookie items = cookie_items (split [] cookie b';' true) items

module _ (convert : List ℕ → List ℕ) where
  -- UrlDecode(s, true)
  abbrev pub decode_value : List ℕ → Option (List ℕ)
  decode_value s = elim (url_decode s) [ none ↦ none | some text ↦ some (convert text) ]

  -- The loop of SplitToMap on the parts.
  unfoldable pub param_items : List (List ℕ) → Dict → Option Dict
  param_items [] to_dict = some to_dict
  param_items (kv ∷ kvs) to_dict =
      let cut : List ℕ × Option (List ℕ) = cut_at b'=' kv in
      elim (cut.1) [
        | none ↦ param_items kvs to_dict
        | some value ↦ elim (url_decode (cut.0)) [
          | none ↦ none
          | some key ↦ elim (decode_value value) [
            | none ↦ none
            | some text ↦ param_items kvs ((insert key text to_dict).0)
          ]
        ]
      ]

  unfoldable pub split_to_map : List ℕ → Dict → Option Dict
  split_to_map split_str to_dict = param_items (split [] split_str b'&' true) to_dict

  unfoldable pub handle_track_url : List ℕ → Dict → Option Dict
  unfolding split_to_map
  handle_track_url split_str to_dict = elim (find_word (codes "&click=") split_str) [
    | none ↦ split_to_map split_str to_dict
    | some pos ↦ elim (decode_value (drop (pos + 7) split_str)) [
      | none ↦ none
      | some text ↦ split_to_map (take pos split_str) ((insert (codes "click") text to_dict).0)
    ]
  ]

-- GetDomain and GetDomainPort: the text behind "://", or all of it.
unfoldable pub after_scheme : List ℕ → List ℕ
after_scheme url = elim (find_word (codes "://") url) [ none ↦ url | some pos ↦ drop (pos + 3) url ]

-- Up to the first '/' or ':'.
unfoldable pub up_to_end : List ℕ → List ℕ
up_to_end [] = []
up_to_end (c ∷ s) = let rest = up_to_end s in if (c == b'/') || (c == b':') then [] else c ∷ rest

unfoldable pub get_domain : List ℕ → List ℕ
get_domain url = up_to_end (after_scheme url)

unfoldable pub get_domain_port : List ℕ → List ℕ
get_domain_port url = (cut_at b'/' (after_scheme url)).0

abbrev pub field_at : List (List ℕ) → ℕ → List ℕ
field_at fields i = elim (get_elem? fields i) [ none ↦ [] | some field ↦ field ]

abbrev pub is_second_level : List ℕ → Bool
is_second_level field =
    same_text field (codes "com") || same_text field (codes "net") || same_text field (codes "org")

unfoldable pub get_root_domain : List ℕ → List ℕ
get_root_domain domain =
    let fields : List (List ℕ) = split [] (get_domain domain) b'.' true in
    let n : ℕ = length fields in
    if leb 2 n
    then (if ltb 3 n && is_second_level (field_at fields (n - 2))
        then field_at fields (n - 3) ++ codes "."
        else [])
      ++ (field_at fields (n - 2) ++ (codes "." ++ field_at fields (n - 1)))
    else []

-- The loop of CheckRootDomainMatch, with base_idx + 1 and check_idx + 1.
unfoldable pub match_from : List (List ℕ) → List (List ℕ) → ℕ → ℕ → Bool
match_from base check zero check_end = true
match_from base check (suc base_idx) check_end =
    let rest = match_from base check base_idx (check_end - 1) in
    if same_text (field_at base base_idx) (field_at check (check_end - 1)) then rest else false

unfoldable pub check_root_domain_match : List ℕ → List ℕ → Bool
check_root_domain_match base_str check_str =
    let base : List (List ℕ) = split [] base_str b'.' true in
    let check : List (List ℕ) = split [] check_str b'.' true in
    if leb (length base) (length check)
    then match_from base check (length base) (length check)
    else false
