-- ===== src/Http/Request.antt =====
-- src/protocol/http/http_util.cpp: what a service sees of a request, and what it makes a response of.
-- The conversion of character sets by iconv is a parameter, and none stands for a read behind a text.
use libnbf.Prelude.{
  ℕ, ◌+◌, ◌-◌, ◌%◌, ◌^◌, Bool, true, false, ◌&&◌, ◌||◌, List, [], ◌∷◌, ◌++◌, Option, none, some,
  ltb, if◌then◌else◌, length, take, drop,
}
use libnbf.Prelude.TextMap.{find, insert, same_text}
use libnbf.Prelude.Bytes.{codes}
use libnbf.Text.{cut_at}
use libnbf.Http.{Dict, HttpMessage}
use libnbf.Http.Util.{starts_with, find_word, http_cookie_decode, split_to_map, handle_track_url}

-- HttpParsedInfo
pub record HttpParsedInfo : Type 0 where
  pub parsed_method : List ℕ
  pub parsed_url : List ℕ
  pub parsed_headers : Dict
  pub cookies : Dict
  pub cookies_str : List ℕ
  pub x_real_ip : List ℕ
  pub x_forward_for : List ℕ
  pub path : List ℕ
  pub url_param : Dict
  pub parsed_body : List ℕ
  pub request_uid : List ℕ
  pub user_id_str : List ℕ

-- The loop over the headers.
unfoldable pub take_headers : Dict → HttpParsedInfo → HttpParsedInfo
take_headers [] info = info
take_headers (e ∷ headers) info =
    let named : HttpParsedInfo =
      if same_text e.0 (codes "Cookie")
      then record info { cookies_str = e.1 }
      else if same_text e.0 (codes "X-Real-IP")
      then record info { x_real_ip = e.1 }
      else if same_text e.0 (codes "X-Forwarded-For")
      then record info { x_forward_for = e.1 }
      else info in
    take_headers headers (record named { parsed_headers = (insert e.0 e.1 named.parsed_headers).0 })

-- url.find(c, from), from the start of the text.
unfoldable pub find_byte : ℕ → ℕ → List ℕ → Option ℕ
find_byte c from s = elim ((cut_at c (drop from s)).1) [
  | none ↦ none
  | some rest ↦ some (from + length (cut_at c (drop from s)).0)
]

unfoldable pub first_pos : List ℕ → ℕ
first_pos url =
    if starts_with (codes "http://") url
    then elim (find_byte b'/' 8 url) [ none ↦ 0 | some pos ↦ pos ]
    else 0

unfoldable pub param_pos : List ℕ → Option ℕ
param_pos url = elim (find_byte b'?' 0 url) [ none ↦ find_byte b'/' 1 url | some pos ↦ some pos ]

-- url.substr(first, last - first), where a difference below zero wraps around.
abbrev pub between : ℕ → ℕ → List ℕ → List ℕ
between first last url =
    if ltb last first then drop first url else take (last - first) (drop first url)

abbrev pub is_track_path : List ℕ → Bool
is_track_path p =
    same_text p (codes "/ac")
    || same_text p (codes "/as")
    || same_text p (codes "/c")
    || same_text p (codes "/w")

abbrev pub is_post : List ℕ → Bool
is_post m = same_text m (codes "POST") || same_text m (codes "Post") || same_text m (codes "post")

abbrev pub lacks_key : List ℕ → Dict → Bool
lacks_key key d = elim (find key d) [ none ↦ true | some v ↦ false ]

abbrev pub lacks_word : List ℕ → List ℕ → Bool
lacks_word word s = elim (find_word word s) [ none ↦ true | some pos ↦ false ]

unfoldable pub get_user_id : HttpParsedInfo → HttpParsedInfo
get_user_id info =
    let first : HttpParsedInfo = elim (find (codes "uid") info.url_param) [
      | none ↦ info
      | some uid ↦ record info { request_uid = uid }
    ] in
    elim (find (codes "uid") info.cookies) [
      | none ↦ first
      | some uid ↦ record first { user_id_str = uid }
    ]

abbrev pub with_params : HttpParsedInfo → Option Dict → Option HttpParsedInfo
with_params info none = none
with_params info (some params) = some (record info { url_param = params })

module _ (convert : List ℕ → List ℕ) where
  unfoldable pub split_http_post_body : HttpParsedInfo → Option HttpParsedInfo
  split_http_post_body info =
      if is_post info.parsed_method
        && (lacks_key (codes "adxid") info.url_param && lacks_word (codes "madx") info.path)
      then with_params info (split_to_map convert info.parsed_body info.url_param)
      else some info

  -- The path and the parameters of the url.
  unfoldable pub take_path : List ℕ → HttpParsedInfo → Option HttpParsedInfo
  take_path url info = elim (param_pos url) [
    | none ↦ some (record info { path = drop (first_pos url) url })
    | some pos ↦
        let found : HttpParsedInfo = record info { path = between (first_pos url) pos url } in
        let raw_param : List ℕ = drop (pos + 1) url in
        with_params found (
          if is_track_path found.path
          then handle_track_url convert raw_param found.url_param
          else split_to_map convert raw_param found.url_param)
  ]

  -- BuildHttpRequest
  unfoldable pub build_http_request : HttpMessage → HttpParsedInfo → Option HttpParsedInfo
  build_http_request ev info =
      let start : HttpParsedInfo = take_headers ev.http_info.headers (record info {
        parsed_body = ev.http_info.body;
        parsed_url = ev.http_info.url;
        parsed_method = ev.http_info.method;
      }) in
      let known : HttpParsedInfo = record start {
        cookies = http_cookie_decode start.cookies_str start.cookies;
      } in
      elim (take_path ev.http_info.url known) [
        | none ↦ none
        | some located ↦ elim (split_http_post_body located) [
          | none ↦ none
          | some whole ↦ some (get_user_id whole)
        ]
      ]

-- HttpResponseInfo and WrapHttpResponse. The status is none for -1, and no other negative number.
pub record HttpResponseInfo : Type 0 where
  pub response_status : Option ℕ
  pub response_body : List ℕ
  pub response_headers : List (List ℕ × List ℕ)

unfoldable pub insert_headers : List (List ℕ × List ℕ) → Dict → Dict
insert_headers [] headers = headers
insert_headers (e ∷ more) headers = insert_headers more ((insert e.0 e.1 headers).0)

unfoldable pub wrap_http_response : HttpMessage → HttpResponseInfo → HttpMessage × Bool
wrap_http_response ev response = elim (response.response_status) [
  | none ↦ (ev, false)
  | some status ↦ (
    record ev {
      status_code = status % 2 ^ 16;
      http_info = record ev.http_info {
        body = ev.http_info.body ++ response.response_body;
        headers = insert_headers response.response_headers ev.http_info.headers;
      };
    },
    true,
  )
]
