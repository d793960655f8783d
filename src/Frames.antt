-- ===== src/Frames.antt =====
-- baton/internal/sseframe/sseframe.go: the frames in a raw log of server-sent events. The log comes in
-- lines, as `bufio.Scanner` gives them, which may end with an error of the scanner.
pub mod Print
use df_code_audit.Prelude.{
  ℕ, suc, String, Bool, true, false, Option, none, some, List, [], ◌∷◌, ◌++◌, if◌then◌else◌, ◌==◌,
  ◌≡◌, refl,
}
use df_code_audit.Prelude.Text.{Bytes, codes, is_empty}

pub record Frame : Type 0 where
  pub name : Bytes
  pub event_data : Bytes
  pub line : ℕ
  pub ts : Bytes

abbrev pub keep_before : ℕ → Bytes → Bytes
keep_before c [] = if c == 13 then [] else c ∷ []
keep_before c (d ∷ s) = c ∷ d ∷ s

-- strings.TrimRight(s, "\r")
unfoldable pub trim_cr : Bytes → Bytes
trim_cr [] = []
trim_cr (c ∷ s) = keep_before c (trim_cr s)

-- What follows a prefix.
unfoldable pub cut_prefix : Bytes → Bytes → Option Bytes
cut_prefix [] s = some s
cut_prefix (d ∷ p) [] = none
cut_prefix (d ∷ p) (c ∷ s) = if c == d then cut_prefix p s else none

-- ": ts ", "event: " and "data: "
abbrev pub ts_mark : Bytes
ts_mark = 58 ∷ 32 ∷ 116 ∷ 115 ∷ 32 ∷ []

abbrev pub event_mark : Bytes
event_mark = 101 ∷ 118 ∷ 101 ∷ 110 ∷ 116 ∷ 58 ∷ 32 ∷ []

abbrev pub data_mark : Bytes
data_mark = 100 ∷ 97 ∷ 116 ∷ 97 ∷ 58 ∷ 32 ∷ []

marks_test :
    (codes ": ts " ≡ ts_mark) × (codes "event: " ≡ event_mark) × (codes "data: " ≡ data_mark)
marks_test = (refl, refl, refl)

pub data Kind : Type 0 where
  ts_line event_line data_line : Bytes → Kind
  blank_line other_line : Kind

unfoldable pub rest_kind : Bytes → Kind
rest_kind s = if is_empty s then blank_line else other_line

unfoldable pub data_kind : Bytes → Option Bytes → Kind
unfolding rest_kind
data_kind s (some t) = data_line t
data_kind s none = rest_kind s

unfoldable pub event_kind : Bytes → Option Bytes → Kind
unfolding data_kind cut_prefix
event_kind s (some t) = event_line t
event_kind s none = data_kind s (cut_prefix data_mark s)

unfoldable pub ts_kind : Bytes → Option Bytes → Kind
unfolding event_kind
ts_kind s (some t) = ts_line t
ts_kind s none = event_kind s (cut_prefix event_mark s)

-- The cases of the switch, in their order.
unfoldable pub kind_of : Bytes → Kind
unfolding ts_kind
kind_of s = ts_kind s (cut_prefix ts_mark s)

-- The name and the time that wait for a frame, and the number of lines read.
pub record Pending : Type 0 where
  pub name : Bytes
  pub ts : Bytes
  pub line : ℕ

-- `f` takes a frame and may fail.
module _ {S E : Type 0} (f : Frame → S → S × Option E) where
  abbrev pub after_frame : S × Option E → (S → S × Option E) → S × Option E
  after_frame (s, some e) rest = (s, some e)
  after_frame (s, none) rest = rest s

  unfoldable pub scan_line : Kind → ℕ → Pending → S → (Pending → S → S × Option E) → S × Option E
  scan_line (ts_line t) line p s rest = rest (record { name = p.name; ts = t; line = line }) s
  scan_line (event_line t) line p s rest = rest (record { name = t; ts = p.ts; line = line }) s
  scan_line (data_line t) line p s rest =
      after_frame (f (record { name = p.name; event_data = t; line = line; ts = p.ts }) s)
        (rest (record { name = []; ts = []; line = line }))
  scan_line blank_line line p s rest = rest (record { name = []; ts = []; line = line }) s
  scan_line other_line line p s rest = rest (record { name = p.name; ts = p.ts; line = line }) s

  -- `end` is the scanner's error after the last line.
  unfoldable pub scan_from : Option E → List Bytes → Pending → S → S × Option E
  unfolding scan_line kind_of trim_cr
  scan_from end [] p s = (s, end)
  scan_from end (l ∷ lines) p s =
      scan_line (kind_of (trim_cr l)) (suc p.line) p s (scan_from end lines)

  unfoldable pub scan : Option E → List Bytes → S → S × Option E
  unfolding scan_from
  scan end lines s = scan_from end lines (record { name = []; ts = []; line = 0 }) s
