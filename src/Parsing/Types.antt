-- ===== src/Parsing/Types.antt =====
-- The records of src/unlimitedocr_c/parsing.py, its errors, and the Python functions it calls.
use unlimitedocr_c.Prelude.{ℕ, ◌≤◌, ◌<◌, ◌≡◌, Bool, List, Option, some, Text, length}

-- The view that the code takes of a JSON value: of a list, whether each element is a boolean (a
-- subclass of `int` in Python), a number, or something else.
pub data Element (Num : Type 0) : Type 0 where
  boolean : Element Num
  number : Num → Element Num
  other : Element Num

pub data Json (Num : Type 0) : Type 0 where
  list : List (Element Num) → Json Num
  not_list : Json Num

-- What the parser takes from Python. `raw_decode s` is `JSONDecoder().raw_decode` on a text that goes
-- on with `s`: the value and the number of characters read, or `none` for its errors. `int_of` is
-- `int` on ASCII digits, which fails on very long ones. `is_space` is `str.isspace` of a character,
-- which is also `\s`.
pub record Python : Type 1 where
  pub Num : Type 0
  pub Coord : Type 0
  pub is_space : ℕ → Bool
  pub int_of : Text → Option ℕ
  pub raw_decode : Text → Option (Json Num × ℕ)
  pub within : Num → ℕ → Bool
  pub gt : Num → Num → Bool
  pub divide : Num → ℕ → Coord

-- Documented behaviour: a value that is read takes at least one character, and no more than are
-- there.
pub record IsPython (py : Python) : Type 0 where
  pub advances : (s : Text) (v : Json (py.Num)) (n : ℕ) → py.raw_decode s ≡ some (v, n) → 0 < n
  pub bounded :
      (s : Text) (v : Json (py.Num)) (n : ℕ) → py.raw_decode s ≡ some (v, n) → n ≤ length s

pub record BBox (Coord : Type 0) : Type 0 where
  pub x1 : Coord
  pub y1 : Coord
  pub x2 : Coord
  pub y2 : Coord

pub record Block (Coord : Type 0) : Type 0 where
  pub kind : Text
  pub bbox : Option (BBox Coord)
  pub content : Text
  pub heading_level : Option ℕ
  pub merge_previous : Bool

pub record Page (Coord : Type 0) : Type 0 where
  pub blocks : List (Block Coord)

pub record Document (Coord : Type 0) : Type 0 where
  pub pages : List (Page Coord)

-- The messages of `OCRParseError`.
pub data Reason : Type 0 where
  expected_label duplicate_bbox invalid_bbox expected_four not_in_range reversed : Reason
  unexpected_metadata duplicate_level invalid_level level_not_positive : Reason
  requires_bbox unsupported_child unexpected_control : Reason
  invalid_reference requires_detection : Reason
  merge_crosses_page merge_needs_preceding merge_needs_following : Reason
  empty_output expected_markup : Reason
  missing : Text → Reason

-- `OCRParseError(message, offset)`; `no_fuel` is the model's own.
pub data ParseError : Type 0 where
  parse_error : Reason → ℕ → ParseError
  no_fuel : ParseError
