-- ===== src/Redis/Size.antt =====
-- RedisParser::ParseReply: the size it reports is that of a part of the reply.
use libnbf.Prelude.{
  ℕ, zero, suc, ◌+◌, ◌-◌, ◌≤◌, ◌≡◌, refl, Bool, true, false, List, [], ◌∷◌, Option, none, some,
  arith, leb, ◌==◌, if◌then◌else◌, length, take, drop, length-drop, Bool-cases, inl, inr,
}
use libnbf.Prelude.Clib.{ℤ, pos, negsuc, strtoll}
use libnbf.Redis.{
  find_crlf, starts_lf, get_length_line_length, Single, single_ok, single_empty, single_rest,
  single_error, single_overrun, check_lf, check_crlf, read_body, read_sized, add_single, dispatch,
  read_string, parse_single_str, Reply, reply_ok, reply_error, reply_rest, reply_overrun,
  string_reply, array_loop, array_reply, parse_reply,
}

-- An offset found lies inside, with two bytes.
abbrev pub Found : ℕ → List ℕ → Option ℕ → Type 0
Found i xs none = Unit
Found i xs (some at) = (i ≤ at) × (at + 2 ≤ i + length xs)

lf_length : (xs : List ℕ) → starts_lf xs ≡ true → 1 ≤ length xs
lf_length [] e = cc
lf_length (x ∷ xs) e = omega arith

later : (i : ℕ) (x : ℕ) (xs : List ℕ) (r : Option ℕ) → Found (i + 1) xs r → Found i (x ∷ xs) r
later i x xs none f = tt
later i x xs (some at) f = (omega (arith, f.0), omega (arith, f.1))

pub find_crlf-Found : (i : ℕ) (xs : List ℕ) → Found i xs (find_crlf i xs)
unfolding find_crlf
find_crlf-Found i [] = tt
find_crlf-Found i (x ∷ xs) = elim (Bool-cases (x == 13)) [
  | inl is_cr ↦ elim (Bool-cases (starts_lf xs)) [
    | inl here ↦ rw (is_cr, here) (omega arith, omega (arith, lf_length xs here))
    | inr there ↦ rw (is_cr, there) (later i x xs _ (find_crlf-Found (i + 1) xs))
  ]
  | inr not_cr ↦ rw not_cr (later i x xs _ (find_crlf-Found (i + 1) xs))
]

-- How much of a line a single string takes.
abbrev pub Within : ℕ → ℕ → Single → Type 0
Within has_read limit (single_ok n out) = (has_read + 3 ≤ n) × (n ≤ limit)
Within has_read limit (single_empty n) = (has_read + 3 ≤ n) × (n ≤ limit)
Within has_read limit single_rest = Unit
Within has_read limit single_error = Unit
Within has_read limit single_overrun = Unit

lf-Within :
    (b : Option ℕ) (base limit : ℕ) (ok : Single)
    → Within base limit ok
    → Within base limit (check_lf b ok)
unfolding check_lf
lf-Within none base limit ok w = tt
lf-Within (some b) base limit ok w = elim (Bool-cases (b == 10)) [
  | inl is_lf ↦ rw is_lf w
  | inr not_lf ↦ rw not_lf tt
]

crlf-Within :
    (a b : Option ℕ) (base limit : ℕ) (ok : Single)
    → Within base limit ok
    → Within base limit (check_crlf a b ok)
unfolding check_crlf
crlf-Within none b base limit ok w = tt
crlf-Within (some a) b base limit ok w = elim (Bool-cases (a == 13)) [
  | inl is_cr ↦ rw is_cr (lf-Within b base limit ok w)
  | inr not_cr ↦ rw not_cr tt
]

body-Within :
    (line : List ℕ) (has_read at len base : ℕ)
    → base + 3 ≤ has_read
    → has_read + (len + 2) ≤ length line
    → Within base (length line) (read_body line has_read at len)
unfolding read_body
body-Within line has_read at len base lo hi =
    crlf-Within _ _ base (length line) (single_ok (has_read + (len + 2)) (take len (drop at line)))
      (omega arith, hi)

string-Within :
    (line : List ℕ) (has_read base : ℕ) (n : ℤ × ℕ)
    → base + 3 ≤ has_read
    → has_read ≤ length line
    → Within base (length line) (read_string line has_read n)
unfolding read_string
string-Within line has_read base (pos zero, used) lo hi = tt
string-Within line has_read base (pos (suc n), used) lo hi =
    elim (Bool-cases (leb (suc n + 2) (length line - has_read))) [
      | inl fits ↦ rw fits (body-Within line has_read (1 + used + 2) (suc n) base lo (ground arith))
      | inr short ↦ rw short tt
    ]
string-Within line has_read base (negsuc zero, used) lo hi = (lo, hi)
string-Within line has_read base (negsuc (suc n), used) lo hi = tt

sized-Within :
    (line behind : List ℕ) (found : Option ℕ)
    → Found 1 behind found
    → length line ≡ suc (length behind)
    → Within 0
        (length line)
        (read_sized line 0 behind (elim found [ none ↦ none | some at ↦ some (at + 2) ]))
unfolding read_sized
sized-Within line behind none f e = tt
sized-Within line behind (some at) f e =
    string-Within line (0 + (at + 2)) 0 (strtoll behind) (omega (arith, f.0)) (omega (arith, f.1))

pub parse_single_str-Within : (line : List ℕ) → Within 0 (length line) (parse_single_str line 0)
unfolding parse_single_str get_length_line_length
parse_single_str-Within [] = tt
parse_single_str-Within (x ∷ xs) = elim (Bool-cases (x == 36)) [
  | inl dollar ↦ rw dollar (sized-Within (x ∷ xs) xs _ (find_crlf-Found 1 xs) refl)
  | inr other ↦ rw other tt
]

-- What ParseReply may say of a reply of the length given.
abbrev pub Sized : ℕ → ℕ → Reply → Type 0
Sized lo limit reply_error = Unit
Sized lo limit reply_rest = Unit
Sized lo limit reply_overrun = Unit
Sized lo limit (reply_ok size is_pong out) = (lo ≤ size) × (size ≤ limit)

step_size :
    (reply : List ℕ) (size n : ℕ)
    → size ≤ length reply
    → n ≤ length (drop size reply)
    → size + n ≤ length reply
step_size reply size n h k = omega (arith, length-drop size reply)

add_single-Sized :
    (reply out : List ℕ) (s : Single) (size lo : ℕ) (rest : ℕ → List ℕ → Reply)
    → lo ≤ size
    → size ≤ length reply
    → Within 0 (length (drop size reply)) s
    → ((n : ℕ) (o : List ℕ) → lo ≤ n → n ≤ length reply → Sized lo (length reply) (rest n o))
    → Sized lo (length reply) (add_single s size out rest)
unfolding add_single
add_single-Sized reply out (single_ok n one) size lo rest h k w r =
    r (size + n) _ (omega arith) (step_size reply size n k w.1)
add_single-Sized reply out (single_empty n) size lo rest h k w r =
    r (size + n) _ (omega arith) (step_size reply size n k w.1)
add_single-Sized reply out single_rest size lo rest h k w r = tt
add_single-Sized reply out single_error size lo rest h k w r = tt
add_single-Sized reply out single_overrun size lo rest h k w r = tt

array-Sized :
    (left lo : ℕ) (reply out : List ℕ) (size : ℕ)
    → lo ≤ size
    → size ≤ length reply
    → Sized lo (length reply) (array_loop left reply size out)
unfolding array_loop
array-Sized zero lo reply out size h k = (h, k)
array-Sized (suc left) lo reply out size h k =
    add_single-Sized reply out (parse_single_str (drop size reply) 0) size lo
      (array_loop left reply) h k (parse_single_str-Within (drop size reply))
      (λ n o p q. array-Sized left lo reply o n p q)

array_reply-Sized :
    (reply : List ℕ) (at : ℕ) (n : ℤ)
    → at + 2 ≤ length reply
    → Sized 2 (length reply) (array_reply reply at n)
unfolding array_reply
array_reply-Sized reply at (pos zero) h = tt
array_reply-Sized reply at (pos (suc n)) h = array-Sized (suc n) 2 reply _ (at + 2) (omega arith) h
array_reply-Sized reply at (negsuc zero) h = (omega arith, h)
array_reply-Sized reply at (negsuc (suc n)) h = tt

string_reply-Sized : (limit : ℕ) (s : Single) → Within 0 limit s → Sized 2 limit (string_reply s)
string_reply-Sized limit (single_ok n out) w = (omega (arith, w.0), w.1)
string_reply-Sized limit (single_empty n) w = (omega (arith, w.0), w.1)
string_reply-Sized limit single_rest w = tt
string_reply-Sized limit single_error w = tt
string_reply-Sized limit single_overrun w = tt

if-Sized :
    (b : Bool) (lo limit : ℕ) (r s : Reply)
    → Sized lo limit r
    → Sized lo limit s
    → Sized lo limit (if b then r else s)
if-Sized true lo limit r s p q = p
if-Sized false lo limit r s p q = q

dispatch-Sized :
    (x : ℕ) (xs : List ℕ) (found : Option ℕ)
    → Found 0 (x ∷ xs) found
    → Sized 2 (suc (length xs)) (dispatch x xs found)
unfolding dispatch
dispatch-Sized x xs none f = tt
dispatch-Sized x xs (some at) f =
    let line : (2 ≤ at + 2) × (at + 2 ≤ suc (length xs)) = (omega arith, omega (arith, f.1)) in
    if-Sized (x == 45) 2 _ _ _ line (
      if-Sized (x == 43) 2 _ _ _ line (
        if-Sized (x == 58) 2 _ _ _ line (
          if-Sized (x == 36) 2 _ _ _
            (string_reply-Sized (suc (length xs)) (parse_single_str (x ∷ xs) 0)
              (parse_single_str-Within (x ∷ xs)))
            (if-Sized (x == 42) 2 _ _ _
              (array_reply-Sized (x ∷ xs) at (strtoll xs).0 (omega (arith, f.1))) tt))))

-- Where ParseReply succeeds, the size it reports is at least 2 and at most that of the reply.
pub parse_reply-Sized : (reply : List ℕ) → Sized 2 (length reply) (parse_reply reply)
unfolding parse_reply
parse_reply-Sized [] = tt
parse_reply-Sized (x ∷ xs) = dispatch-Sized x xs _ (find_crlf-Found 0 (x ∷ xs))
